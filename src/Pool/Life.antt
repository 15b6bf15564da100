-- ===== src/Pool/Life.antt =====
-- The life of a pool, from its caches to its destructor.
use kwd_server.Base.{
  ℕ, zero, suc, ◌≡◌, refl, ap, Bool, true, false, Option, some, List, [], ◌∷◌, ◌++◌, length, Word,
  arith,
}
use kwd_server.Cache.{Cache, empty_cache}
use kwd_server.Cache.File.{init}
use kwd_server.Timer.{Timer, new_timer, set_timer, stop, timer_out}
use kwd_server.TaskQue.{TaskQue, wake_up}
use kwd_server.Thread.{Creation, joined, new_thread, thread_start}
use kwd_server.Pool.{
  timer_start, CacheWithTimer, CacheConf, make_caches, start_timer, new_cache_with_timer,
  cache_with_timer_out, ThreadPool, new_pool, start_threads, thread_pool_init, drain,
  thread_pool_destroy, thread_pool_out,
}
use kwd_server.Pool.Calls.{
  start_call, number_of, out_calls, each, make_threads-eq, start-call, join-start, out-start,
  worker, start_calls, joins, outs, start_threads-calls, start_threads-joins, start_threads-outs,
}

make_caches-eq :
    (n i size : ℕ) (file : Option Word) (filled : Cache)
    → init file (empty_cache size) ≡ some filled
    → make_caches n size file ≡ some (each (λ j. filled) n i)
unfolding make_caches
make_caches-eq zero i size file filled h = refl
make_caches-eq (suc n) i size file filled h = rw (h, make_caches-eq n (suc i) size file filled h)

length-each : {A : Type 0} (f : ℕ → A) (k i : ℕ) → length (each f k i) ≡ k
length-each f zero i = refl
length-each f (suc k) i = ap suc (length-each f k (suc i))

module _ (conf : CacheConf) (files : Word → Option Word) (filled : Cache)
    (fills : init (files conf.cache_path) (empty_cache conf.cache_elements_size) ≡ some filled)
    (others que_size : ℕ) (timer_create : Creation) (create : ℕ → Creation) (garbage : Bool) where
  abbrev thread_num : ℕ
  thread_num = suc others

  abbrev pub caches : CacheWithTimer
  caches = record (new_cache_with_timer thread_num) {
    cache_timer = some (new_timer conf.timer_init_time conf.timer_inter_time);
    timer_thread = some (thread_start timer_create (new_thread (some timer_start) [])).0;
    cache_ptr_vec = each (λ i. filled) thread_num 0;
  }

  abbrev pub running : ThreadPool
  running = record (new_pool garbage que_size thread_num caches) {
    thread_que = (start_threads create 0 (each worker thread_num 0)).0;
  }

  pub caches-made :
      start_timer conf files timer_create (new_cache_with_timer thread_num)
      ≡ some (caches, start_call timer_create timer_start [] ∷ [])
  unfolding start_timer
  caches-made = rw (
    make_caches-eq thread_num 0 conf.cache_elements_size (files conf.cache_path) filled fills,
    start-call timer_create timer_start [],
  )

  pub running-made :
      thread_pool_init create (new_pool garbage que_size thread_num caches)
      ≡ some (running, start_calls create thread_num 0)
  unfolding thread_pool_init
  running-made = rw (
    make_threads-eq thread_num 0 caches.cache_ptr_vec
        (omega (arith, length-each (λ i. filled) thread_num 0)),
    start_threads-calls create thread_num 0,
  )

  timer-out :
      cache_with_timer_out caches
      ≡ some (
        stop (new_timer conf.timer_init_time conf.timer_inter_time),
        stop (new_timer conf.timer_init_time conf.timer_inter_time),
        joined (number_of timer_create) ∷ out_calls timer_create,
      )
  unfolding cache_with_timer_out timer_out stop set_timer
  timer-out = rw (join-start timer_create timer_start [], out-start timer_create timer_start [])

module _ (conf : CacheConf) (files : Word → Option Word) (filled : Cache)
    (fills : init (files conf.cache_path) (empty_cache conf.cache_elements_size) ≡ some filled)
    (others que_size : ℕ) (timer_create : Creation) (create : ℕ → Creation) where
  abbrev num : ℕ
  num = suc others

  -- A pool of at least one thread, whose caches can be filled from the file, where `is_exit_` is false
  -- from the start and the queue is found empty at last: the caches and the timer are made, thread `i`
  -- is started on cache `i` with its number as its name, and the destructor ends. It joins each thread
  -- once (by what `pthread_create` has left where none was created), then stops the timer, which is
  -- stopped and not armed when its thread is joined and stays so, and then detaches each thread that was created, which
  -- is joined already. No `Pop` waits any more.
  pub pool_life :
      (found : List TaskQue) (que : TaskQue)
      → drain found ≡ some que
      → (c : CacheWithTimer) × (pool left : ThreadPool) × (at_join timer : Timer) × (start_timer
            conf files timer_create
            (new_cache_with_timer num)
          ≡ some (c, start_call timer_create timer_start [] ∷ []))
        × (thread_pool_init create (new_pool false que_size num c)
            ≡ some (pool, start_calls create num 0))
        × (thread_pool_out found pool
            ≡ some (
              left,
              at_join,
              timer,
              joins create num 0
                  ++ ((joined (number_of timer_create) ∷ out_calls timer_create)
                      ++ outs create num 0),
            ))
        × (at_join.is_stop ≡ true)
        × (at_join.armed ≡ (0, 0))
        × (timer ≡ at_join)
        × (left.is_exit ≡ true)
        × (left.que.flag ≡ false)
  unfolding thread_pool_out thread_pool_destroy wake_up stop set_timer
  pool_life found que empties =
      let pool = running conf files filled fills others que_size timer_create create false in
      (
        caches conf files filled fills others que_size timer_create create false,
        pool,
        (record pool { is_exit = true; que = wake_up que }),
        stop (new_timer conf.timer_init_time conf.timer_inter_time),
        stop (new_timer conf.timer_init_time conf.timer_inter_time),
        caches-made conf files filled fills others que_size timer_create create false,
        running-made conf files filled fills others que_size timer_create create false,
        rw (
          empties,
          start_threads-joins create num 0,
          timer-out conf files filled fills others que_size timer_create create false,
          start_threads-outs create num 0,
        ),
        refl,
        refl,
        refl,
        refl,
        refl,
      )

  -- The same pool where `is_exit_`, which the constructor gives no value, happens to hold true: the
  -- threads are started all the same, but the destructor joins none of them, detaches each one that
  -- was created, and wakes nobody who waits for a task.
  pool_garbage :
      (found : List TaskQue)
      → (pool : ThreadPool) × (thread_pool_init create (
            new_pool true que_size num
              (caches conf files filled fills others que_size timer_create create true))
          ≡ some (pool, start_calls create num 0))
        × (thread_pool_out found pool
            ≡ some (
              pool,
              stop (new_timer conf.timer_init_time conf.timer_inter_time),
              stop (new_timer conf.timer_init_time conf.timer_inter_time),
              (joined (number_of timer_create) ∷ out_calls timer_create) ++ outs create num 0,
            ))
        × (pool.que.flag ≡ true)
  unfolding thread_pool_out
  pool_garbage found = (
    running conf files filled fills others que_size timer_create create true,
    running-made conf files filled fills others que_size timer_create create true,
    rw (
      timer-out conf files filled fills others que_size timer_create create true,
      start_threads-outs create num 0,
    ),
    refl,
  )
