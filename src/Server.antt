-- ===== src/Server.antt =====
-- `KeyWordServer` (src/kwd_server.cc, include/kwd_server.hpp): the configuration of the server. The
-- members are made in the order of their declaration, and the body of the constructor runs after
-- that.
pub mod Defaults
pub mod Build
pub mod Built
pub mod Answers
use kwd_server.Base.{
  ℕ, Bool, true, false, not, Option, none, some, List, [], ◌∷◌, ◌>>=◌, if◌then◌else◌, Word, codes,
  word_eq,
}
use kwd_server.Json.{JsonCpp}
use kwd_server.Thread.{Creation, Pthread}
use kwd_server.Pool.{Work, ThreadPool, thread_pool_init}
use kwd_server.EventLoop.{EventLoop}
use kwd_server.EventLoop.Watch.{LoopEvent, run_loop}

module _ (json : JsonCpp) where
  open json use {Value, null, parse, member, with_member, is_null, as_int, as_string}

  -- The thread pool, the acceptor, the event loop and the search module are made of these.
  pub record KeyWordServer : Type 0 where
    pub conf_path : Word
    pub root : Value
    pub server_ip : Word
    pub server_port : ℕ
    pub que_size : ℕ
    pub thread_num : ℕ

  -- `GetIP`, with `root` afterwards
  unfoldable pub get_ip : Value → Option (Word × Value)
  get_ip root = do
    ip ← as_string (member (codes "SERVER_IPV4") root)
    some (if word_eq [] ip then codes "127.0.0.1" else ip, with_member (codes "SERVER_IPV4") root)

  -- `if (!root[key].isNull()) return root[key].asInt(); return otherwise;`
  unfoldable pub get_number : Word → ℕ → Value → Option (ℕ × Value)
  get_number key otherwise root =
      let root' = with_member key root in
      if not (is_null (member key root))
      then (do n ← as_int (member key root'); some (n, with_member key root'))
      else some (otherwise, root')

  unfoldable pub get_port : Value → Option (ℕ × Value)
  get_port = get_number (codes "SERVER_PORT") 6688

  unfoldable pub get_que_size : Value → Option (ℕ × Value)
  get_que_size = get_number (codes "TASK_QUE_SIZE") 10

  unfoldable pub get_thread_num : Value → Option (ℕ × Value)
  get_thread_num = get_number (codes "SERVER_THREADS_NUM") 4

  -- `JsonInit`; a file that cannot be parsed leaves `root` as it is.
  unfoldable pub json_init : Word → Value → Value
  json_init file root = elim (parse file) [ none ↦ root | some v ↦ v ]

  -- The constructor over the bytes of the file at `conf_path`.
  unfoldable pub new_server : Word → Word → Option KeyWordServer
  new_server conf_path file = do
    (server_ip, root1) ← get_ip null
    (server_port, root2) ← get_port root1
    (que_size, root3) ← get_que_size root2
    (thread_num, root4) ← get_thread_num root3
    some (record {
      conf_path = conf_path;
      root = json_init file root4;
      server_ip = server_ip;
      server_port = server_port;
      que_size = que_size;
      thread_num = thread_num;
    })

-- `StartServer`: the threads of the pool are started, and then the loop runs over what it meets. The
-- pool, the calls that started its threads, the loop where it has ended, and what it has not met.
unfoldable pub start_server :
    (ℕ → Creation)
    → List LoopEvent
    → ThreadPool
    → EventLoop
    → Option (ThreadPool × List (Pthread Work) × EventLoop × List LoopEvent)
start_server create events thread_pool looper = do
  (started, calls) ← thread_pool_init create thread_pool
  (ended, left) ← run_loop events looper
  some (started, calls, ended, left)
