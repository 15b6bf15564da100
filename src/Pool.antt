-- ===== src/Pool.antt =====
-- `CacheWithTimer` (src/cache_with_timer.cc) and `ThreadPool` (src/thread_pool.cc): the caches with
-- the timer of their update, and the worker threads, each with a cache. What is recorded of a thread
-- are the calls of the thread library.
pub mod Calls
pub mod Life
pub mod Unparsed
use kwd_server.Base.{
  ℕ, zero, suc, Bool, true, false, Option, none, some, List, [], ◌∷◌, ◌++◌, ◌>>=◌, map, get_elem?,
  if◌then◌else◌, Word, codes,
}
use kwd_server.Text.{decimal}
use kwd_server.Json.{JsonCpp}
use kwd_server.Cache.{Cache, empty_cache}
use kwd_server.Cache.File.{init}
use kwd_server.Timer.{Timer, new_timer, stop, timer_out}
use kwd_server.TaskQue.{TaskQue, new_que, is_empty, wake_up}
use kwd_server.Thread.{Thread, Creation, Pthread, new_thread, thread_start, thread_join, thread_out}

-- What the threads run: `Timer::Start` for the timer of the caches, or `DoWork` of a worker with the
-- cache of that number.
pub data Work : Type 0 where
  timer_start : Work
  do_work : ℕ → Work

-- The pointers `cache_timer_` and `timer_thread_` are null until `Init` has set them.
pub record CacheWithTimer : Type 0 where
  pub cache_vec_size : ℕ
  pub cache_timer : Option Timer
  pub timer_thread : Option (Thread Work)
  pub cache_ptr_vec : List Cache

-- What `Init` reads of the configuration; the time that `poll` waits is not kept, as no outcome of
-- `poll` depends on it.
pub record CacheConf : Type 0 where
  pub cache_path : Word
  pub cache_elements_size : ℕ
  pub timer_init_time : ℕ
  pub timer_inter_time : ℕ

-- The caches of the loop, each filled from the file.
unfoldable pub make_caches : ℕ → ℕ → Option Word → Option (List Cache)
make_caches zero size file = some []
make_caches (suc left) size file = do
  tmp ← init file (empty_cache size)
  rest ← make_caches left size file
  some (tmp ∷ rest)

-- `Init` once the configuration is read, with what `pthread_create` gives. The timer takes the first
-- cache, which must be there.
unfoldable pub start_timer :
    CacheConf
    → (Word → Option Word)
    → Creation
    → CacheWithTimer
    → Option (CacheWithTimer × List (Pthread Work))
start_timer conf files create c = do
  caches ← make_caches c.cache_vec_size conf.cache_elements_size (files conf.cache_path)
  first ← get_elem? caches 0
  let (thread, call) = thread_start create (new_thread (some timer_start) [])
  some (
    record c {
      cache_timer = some (new_timer conf.timer_init_time conf.timer_inter_time);
      timer_thread = some thread;
      cache_ptr_vec = caches;
    },
    call ∷ [],
  )

module _ (json : JsonCpp) where
  open json use {Value, parse, member, with_member, as_int, as_string}

  unfoldable pub read_conf : Value → Option CacheConf
  read_conf root = do
    let file_path = member (codes "FILE_PATH") root
    let seen0 = with_member (codes "FILE_PATH") root
    cache_path ← as_string (member (codes "CACHE_FILE") file_path)
    size ← as_int (member (codes "CACHE_ELEMENTS_SIZE") seen0)
    let seen1 = with_member (codes "CACHE_ELEMENTS_SIZE") seen0
    init_time ← as_int (member (codes "CACHE_TIMER_INIT_TIME") seen1)
    let seen2 = with_member (codes "CACHE_TIMER_INIT_TIME") seen1
    inter_time ← as_int (member (codes "CACHE_TIMER_INTER_TIME") seen2)
    let seen3 = with_member (codes "CACHE_TIMER_INTER_TIME") seen2
    poll_wait_time ← as_int (member (codes "TIMER_POLL_WAIT_TIME") seen3)
    some (record {
      cache_path = cache_path;
      cache_elements_size = size;
      timer_init_time = init_time;
      timer_inter_time = inter_time;
    })

  -- `Init` with what the parser makes of the configuration
  unfoldable pub init_caches :
      (Word → Option Word)
      → Creation
      → Option Value
      → CacheWithTimer
      → Option (CacheWithTimer × List (Pthread Work))
  init_caches files create none c = some (c, [])
  init_caches files create (some root) c = do conf ← read_conf root; start_timer conf files create c

abbrev pub new_cache_with_timer : ℕ → CacheWithTimer
new_cache_with_timer cache_vec_size = record {
  cache_vec_size = cache_vec_size;
  cache_timer = none;
  timer_thread = none;
  cache_ptr_vec = [];
}

-- The destructor: the timer as it is when its thread is joined, and when it is deleted, and the calls;
-- it reads both pointers.
unfoldable pub cache_with_timer_out : CacheWithTimer → Option (Timer × Timer × List (Pthread Work))
cache_with_timer_out c = do
  timer ← c.cache_timer
  thread ← c.timer_thread
  some (stop timer, timer_out (stop timer), thread_join thread ∷ thread_out thread)

pub record ThreadPool : Type 0 where
  pub thread_que : List (Thread Work)
  pub cache_with_timer : CacheWithTimer
  pub que_size : ℕ
  pub que : TaskQue
  pub thread_num : ℕ
  pub is_exit : Bool

-- The constructor gives `is_exit_` no value: `garbage` is what it holds.
abbrev pub new_pool : Bool → ℕ → ℕ → CacheWithTimer → ThreadPool
new_pool garbage que_size thread_num caches = record {
  thread_que = [];
  cache_with_timer = caches;
  que_size = que_size;
  que = new_que que_size;
  thread_num = thread_num;
  is_exit = garbage;
}

-- The first loop of `ThreadPoolInit` from `i` on.
unfoldable pub make_threads : ℕ → ℕ → List Cache → Option (List (Thread Work))
make_threads zero i cache_list = some []
make_threads (suc left) i cache_list = do
  cache ← get_elem? cache_list i
  rest ← make_threads left (suc i) cache_list
  some (new_thread (some (do_work i)) (decimal i) ∷ rest)

-- The second one, with what `pthread_create` gives for each thread.
unfoldable pub start_threads :
    (ℕ → Creation) → ℕ → List (Thread Work) → List (Thread Work) × List (Pthread Work)
start_threads create i [] = ([], [])
start_threads create i (thread ∷ threads) =
    let (started, call) = thread_start (create i) thread in
    let (rest, calls) = start_threads create (suc i) threads in (started ∷ rest, call ∷ calls)

unfoldable pub thread_pool_init :
    (ℕ → Creation) → ThreadPool → Option (ThreadPool × List (Pthread Work))
thread_pool_init create pool = do
  made ← make_threads pool.thread_num 0 pool.cache_with_timer.cache_ptr_vec
  let (threads, calls) = start_threads create 0 (pool.thread_que ++ made)
  some (record pool { thread_que = threads }, calls)

-- `while (!que_.IsEmpty()) sleep(1);` over the queue as it is found each second; still asleep has no
-- result.
unfoldable pub drain : List TaskQue → Option TaskQue
drain [] = none
drain (que ∷ later) = let rest = drain later in if is_empty que then some que else rest

unfoldable pub thread_pool_destroy :
    List TaskQue → ThreadPool → Option (ThreadPool × List (Pthread Work))
thread_pool_destroy found pool = do
  que ← (if pool.is_exit then some pool.que else drain found)
  some (record pool { is_exit = true; que = wake_up que }, map thread_join pool.thread_que)

unfoldable pub all_out : List (Thread Work) → List (Pthread Work)
all_out [] = []
all_out (thread ∷ threads) = thread_out thread ++ all_out threads

-- The destructor with those of the members: the pool as its body leaves it, the timer of the caches as
-- it is when its thread is joined and at last, and the calls.
unfoldable pub thread_pool_out :
    List TaskQue → ThreadPool → Option (ThreadPool × Timer × Timer × List (Pthread Work))
thread_pool_out found pool = do
  (left, joins) ← (if pool.is_exit then some (pool, []) else thread_pool_destroy found pool)
  (at_join, timer, timer_calls) ← cache_with_timer_out left.cache_with_timer
  some (left, at_join, timer, joins ++ (timer_calls ++ all_out left.thread_que))
