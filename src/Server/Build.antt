-- ===== src/Server/Build.antt =====
-- The constructor of `KeyWordServer` as a whole (src/kwd_server.cc): the search module, the thread pool
-- with the caches, the acceptor and the event loop.
use kwd_server.Base.{ℕ, Bool, Option, none, some, List, [], ◌++◌, ◌>>=◌, Word}
use kwd_server.Json.{JsonCpp}
use kwd_server.Thread.{Creation, Pthread}
use kwd_server.Pool.{Work, ThreadPool, new_pool, new_cache_with_timer, init_caches}
use kwd_server.Startup.{Disk, Chance, SearchModule, conf_text, get_instance}
use kwd_server.Net.{Inet, Acceptor, Given, Setup, new_acceptor}
use kwd_server.EventLoop.Watch.{Watched, new_watched, epoll_create, event_fd_create}
use kwd_server.Server.{KeyWordServer, new_server}

-- What the constructor meets: the chances of `SearchModule`, what `pthread_create` gives for the timer,
-- what `is_exit_` happens to hold, what the calls of the acceptor, `epoll_create1` and `eventfd` give,
-- and whether each `epoll_ctl` succeeds.
pub record Around : Type 0 where
  pub chance : Chance
  pub of_timer : Creation
  pub garbage : Bool
  pub given : Given
  pub of_epoll : Option ℕ
  pub of_event : Option ℕ
  pub adds_acceptor : Bool
  pub adds_event : Bool

module _ (json : JsonCpp) (inet : Inet) where
  open json use {parse}

  -- The members, and what the constructor has done: the disk afterwards, the calls of the thread
  -- library and of the acceptor, and what these and the event loop print of failures.
  pub record Built : Type 0 where
    pub server : KeyWordServer json
    pub search_module_ptr : SearchModule
    pub thread_pool : ThreadPool
    pub acceptor : Acceptor
    pub looper : Watched
    pub disk : Disk
    pub threads : List (Pthread Work)
    pub calls : List Setup
    pub printed : List Word

  -- The bytes that a stream on the path gives.
  abbrev pub text_at : Word → Disk → Word
  text_at path disk = elim (disk.files path) [ none ↦ [] | some text ↦ text ]

  -- The constructor, over what `instance_ptr_` of `SearchModule` is.
  unfoldable pub build : Around → Option SearchModule → Word → Disk → Option Built
  build around instance_ptr conf_path disk = do
    (search_module_ptr, after) ← get_instance json around.chance instance_ptr disk
    server ← new_server json conf_path (text_at conf_path after)
    (caches, threads) ←
        init_caches json after.files around.of_timer (parse (conf_text json after))
          (new_cache_with_timer server.thread_num)
    let (acceptor, calls, printed) =
        new_acceptor inet server.server_ip server.server_port around.given
    let (efd, printed1) = epoll_create around.of_epoll
    let (event_fd, printed2) = event_fd_create around.of_event
    some (record {
      server = server;
      search_module_ptr = search_module_ptr;
      thread_pool = new_pool around.garbage server.que_size server.thread_num caches;
      acceptor = acceptor;
      looper = new_watched around.adds_acceptor around.adds_event acceptor.socket.fd event_fd;
      disk = after;
      threads = threads;
      calls = calls;
      printed = printed ++ (printed1 ++ printed2);
    })
