-- ===== src/Lib.antt =====
-- kwd_server, a key-word search server: an event loop accepts connections and reads words, a pool
-- of worker threads looks each word up, first in the worker's LRU cache and then in the search
-- module, and the event loop sends the answers back. A timer merges the caches from time to time.
--
-- Strings are lists of bytes (`Base.Words`), numbers are the native naturals, and a run that would
-- use memory that is not there has no result (`Base.Run`).
--
-- Text: the texts of the program's files, by the rules of the standard streams; Text.Lines and
--   Text.Decimal show that words, lines and numbers that are written come back.
-- Search (src/search_module.cc, include/search_module.hpp)
--   Search.Edit is `MinEdit`: the table with its allocation and its loops. Search.Edit.Script is
--   the edit distance by scripts of edits, Search.Edit.Table the proof over the loops, and
--   Search.Edit.Metric what callers may rely on.
--   Search.Rank is `SearchResult`, `operator>` and the priority queue.
--   Search.Handle is `SearchWord`, `HandleENG` and `HandleCH` over the dictionary and the inverted
--   index; Search.Rank.At and Search.Handle.Hits are the results with their positions, and
--   Search.Handle.Best shows what they return; Search.Handle.View
--   is the index without the order of its map. The key buffers of
--   `HandleCH` have no terminator: what is read behind them is an argument (`overrun`).
-- Reference (src/reference_creator.cc)
--   Reference is `SetRef`, which builds the inverted index; Reference.Complete shows what it lists,
--   and Reference.Search joins it to the search. Reference.Files is `SetDict`, `WriteRef`, `ReadRef`
--   and `Init`; Reference.DictFile and Reference.RefFile are the round trips of the two files, and
--   Reference.Restart is a second start over the files of the first.
-- Cache (src/cache.cc, include/cache.hpp)
--   Cache is one cache: `LRU`, `SearchCache` and `InsertCache`, with list nodes that have an
--   identity, since the map holds iterators. Cache.Nodes and Cache.Linked keep the list and the map
--   linked, and Cache.Refine relates the cache to the abstract LRU cache of Cache.Pairs. Cache.Update is the
--   periodic `UpdateCache` over all caches: the merge (Cache.Update.Merge), the copy back
--   (Cache.Update.Copy) and both together (Cache.Update.Agree). Cache.Twice is `InsertCache` of a
--   word that is there already. Cache.File is the file that `UpdateCache` writes and `Init` reads,
--   and Cache.Saved a cache that is filled from it. Cache.Race is a worker's calls beside the
--   updates, access by access. Cache.Kept is what stays true of all pairs in an update, and
--   Cache.Kept.Restarted over a restart.
-- TaskQue (src/task_que.cc, include/task_que.hpp)
--   TaskQue is what one thread does under the lock, until it waits or returns. TaskQue.Threads is
--   the event loop and the workers at the queue as a step relation, with waits, notifications and
--   the shutdown; TaskQue.Turns and TaskQue.Safe show what holds in every interleaving.
--   TaskQue.Guarded is `Push` and `Pop` as a whole, with the guard and the waits.
-- SocketIo (src/socket_IO.cc)
--   SocketIo is `Readn` and `Writen` over the outcomes of their system calls. SocketIo.Header is the
--   length in front of a message, SocketIo.Buffer the writes to memory, SocketIo.Transfer both
--   sides of a connection, and SocketIo.Bounds what `Readn` touches. SocketIo.ReadLine is
--   `ReadLine`, whose loop never runs.
-- Worker (include/worker.hpp, src/task.cc)
--   Worker is `DoWork` over the tasks that the worker gets, with `WriteJsonString`; what jsoncpp
--   makes of the text is an argument. Worker.Answers joins the cache and the search module,
--   Worker.Updated the updates of the caches, and Worker.Restarted a restart.
-- DictCreator (src/dict_creator.cc)
--   DictCreator is the constructor and `CreateDict`, over a directory of texts and the file of the
--   stop words, and the text of the dictionary file; DictCreator.Counts describes the counts, and
--   DictCreator.Dictionary the dictionary as a whole. The order in which a map is
--   walked is an argument.
-- EventLoop (src/event_loop.cc, src/tcp_server.cc)
--   EventLoop is the connection table, the dispatch of ready descriptors and the pending work;
--   EventLoop.Proper is the order of the calls that a connection sees in one round, and
--   EventLoop.Rounds the same over all rounds. EventLoop.Wakes is the workers that send beside the
--   loop, with the counter of the eventfd, EventLoop.Watch the epoll set with `Loop` and `UnLoop`, and
--   EventLoop.Served what is in that set.
-- Timer (src/timer.cc)
--   Timer is the loop of `Start` over what `poll` and `read` give and the calls of `Stop` by another
--   thread; Timer.Events is what these do to it, and Timer.Runs shows when it calls its function and
--   when it returns.
-- Thread (src/thread.cc, include/thread.hpp): a thread object over the calls of the thread library.
-- Pool (src/thread_pool.cc, src/cache_with_timer.cc)
--   Pool is the caches with their timer, and the threads of the workers, from the constructors to the
--   destructors. Pool.Calls is what the threads take of the thread library; Pool.Life follows a pool
--   through its life, and Pool.Unparsed one without a configuration.
-- Net (src/socket.cc, src/inet_addr.cc, src/accept.cc, src/tcp_server.cc, include/error_check.hpp)
--   Net is sockets, addresses and the acceptor, and Net.Connection the operations of a connection, over
--   what the system calls give; Net.Close is what becomes of the descriptor of a connection, and Net.Listen what the
--   acceptor does when calls fail.
-- Sync (src/mutex_lock.cc, src/condition.cc, include/mutex_guard.hpp): the mutex, its conditions and
--   the guard, over an interface of the thread library; Sync.Guard is what a guard keeps.
-- Request (test/test_server.cc, test/client.cc)
--   Request is the callback `Message` of the server and the loop of the client, with the part of
--   `WriteJsonString` (src/task.cc) that jsoncpp does. Request.Buffers is strings in buffers,
--   Request.Answered joins the client, the server, a worker, the event loop and the client again,
--   Request.Session is many queries over one connection, and Request.Overlong a message that fills
--   the buffer.
-- Json: what the program uses of jsoncpp, an interface with the laws for values that
--   are null, and one with those for answers.
-- Startup (src/search_module.cc)
--   Startup is `SearchModule::Init` over the configuration and the files of a disk, with `DictCreator`
--   and `RefFileCreator`; Startup.Config is its configuration, Startup.First the first start over
--   texts, and Startup.Again a later start over the files of the first.
-- Server (src/kwd_server.cc): the configuration of the server and `StartServer`; Server.Defaults shows
--   where its numbers come from. Server.Build is the constructor with all members, Server.Built the
--   server on a first start, and Server.Answers joins it to Request.
--
-- All loops recur on a list or on the number of rounds that is left, so there is no fuel. Counts of
-- words and positions are naturals: the files of the program hold no negative ones.
--
-- Not modelled: the vendored libraries, and what the system calls, the
-- thread library, jsoncpp and cppjieba do. Their outcomes and laws are arguments: `Descriptors`,
-- `Inet`, `Pthreads` and `JsonCpp` are the interfaces.
pub mod Base
pub mod Text
pub mod Search
pub mod Reference
pub mod Cache
pub mod TaskQue
pub mod SocketIo
pub mod Worker
pub mod DictCreator
pub mod EventLoop
pub mod Json
pub mod Server
pub mod Startup
pub mod Timer
pub mod Thread
pub mod Pool
pub mod Net
pub mod Sync
pub mod Request
mod Tests
