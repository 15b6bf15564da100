-- ===== src/Pool/Unparsed.antt =====
-- A pool whose configuration cannot be parsed.
use kwd_server.Base.{ℕ, suc, ◌≡◌, refl, Bool, Option, none, some, [], Word}
use kwd_server.Thread.{Creation}
use kwd_server.Json.{JsonCpp}
use kwd_server.Pool.{
  init_caches, new_cache_with_timer, cache_with_timer_out, new_pool, make_threads, thread_pool_init,
}

module _ (json : JsonCpp) where
  open json use {parse}

  -- Without a configuration that can be parsed there are no caches and no timer, and no error is
  -- reported: the start of a pool with a thread then reads behind the end of the empty list of caches,
  -- and the destructor of the caches, whatever was before it, reads through the null pointer of the
  -- timer.
  init_caches-unparsed :
      (text : Word) (files : Word → Option Word) (timer_create : Creation) (create : ℕ → Creation)
      (garbage : Bool) (que_size others : ℕ)
      → parse text ≡ none
      → (init_caches json files timer_create (parse text) (new_cache_with_timer (suc others))
          ≡ some (new_cache_with_timer (suc others), []))
        × (thread_pool_init create
              (new_pool garbage que_size (suc others) (new_cache_with_timer (suc others)))
            ≡ none)
        × (cache_with_timer_out (new_cache_with_timer (suc others)) ≡ none)
  unfolding init_caches thread_pool_init make_threads cache_with_timer_out
  init_caches-unparsed text files timer_create create garbage que_size others unparsed =
      ((rw unparsed), refl, refl)
