-- ===== src/Tests/Pool.antt =====
-- A pool of two workers.
use kwd_server.Timer.{Timer}
use kwd_server.Base.{
  ℕ, zero, suc, ◌≡◌, refl, true, false, Option, some, [], ◌∷◌, Word, codes, assign,
}
use kwd_server.Text.{get_lines, read_word, skip_space, to_space, found_word}
use kwd_server.Cache.{Cache, empty_cache, lru, push_front, evict}
use kwd_server.Cache.Update.{refresh, note_pairs}
use kwd_server.Cache.File.{init, init_lines, read_pair, read_words}
use kwd_server.TaskQue.{TaskQue, new_que, is_empty}
use kwd_server.Thread.{Creation, new_id, left_id, joined, detached}
use kwd_server.Pool.{
  timer_start, CacheConf, CacheWithTimer, ThreadPool, start_timer, new_cache_with_timer, new_pool,
  thread_pool_init, thread_pool_out, drain,
}
use kwd_server.Pool.Calls.{start_call, start_calls}
use kwd_server.Pool.Life.{pool_life}

abbrev conf : CacheConf
conf = record {
  cache_path = codes "cache";
  cache_elements_size = 2;
  timer_init_time = 60;
  timer_inter_time = 20;
}

abbrev files : Word → Option Word
files path = some (codes "t to too \n")

abbrev filled : Cache
filled = record (empty_cache 2) {
  lru_list = record { id = 0; pair = (codes "t", codes "to" ∷ codes "too" ∷ []) } ∷ [];
  next_id = 1;
  updater_map = (codes "t", 0) ∷ [];
  nonupdate = (codes "t", codes "to" ∷ codes "too" ∷ []) ∷ [];
}

fills : init (files conf.cache_path) (empty_cache conf.cache_elements_size) ≡ some filled
unfolding init init_lines read_pair read_words get_lines lru evict push_front refresh read_word
    assign note_pairs found_word skip_space to_space
fills = refl

-- The second thread cannot be created.
abbrev create : ℕ → Creation
create zero = new_id 101
create (suc i) = left_id 77

abbrev busy : TaskQue
busy = record (new_que 10) { que = 7 ∷ [] }

drained : drain (busy ∷ new_que 10 ∷ []) ≡ some (new_que 10)
unfolding drain is_empty
drained = refl

pool_life_example :
    (c : CacheWithTimer) × (pool left : ThreadPool) × (at_join timer : Timer) × (start_timer conf
        files
        (new_id 100)
        (new_cache_with_timer 2)
      ≡ some (c, start_call (new_id 100) timer_start [] ∷ []))
    × (thread_pool_init create (new_pool false 10 2 c) ≡ some (pool, start_calls create 2 0))
    × (thread_pool_out (busy ∷ new_que 10 ∷ []) pool
        ≡ some (
          left,
          at_join,
          timer,
          joined 101 ∷ joined 77 ∷ joined 100 ∷ detached 100 ∷ detached 101 ∷ [],
        ))
    × (at_join.is_stop ≡ true)
    × (at_join.armed ≡ (0, 0))
    × (timer ≡ at_join)
    × (left.is_exit ≡ true)
    × (left.que.flag ≡ false)
pool_life_example =
    pool_life conf files filled fills 1 10 (new_id 100) create (busy ∷ new_que 10 ∷ []) (new_que 10)
      drained
