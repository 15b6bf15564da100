-- ===== src/Worker/Restarted.antt =====
-- The caches of the workers after an update and a restart.
use kwd_server.Base.{ℕ, ◌≡◌, some, List, [], Word, All, All-map, take}
use kwd_server.Search.Handle.{Index}
use kwd_server.Cache.{SearchRetPair, Cache, empty_cache}
use kwd_server.Cache.Pairs.{pairs}
use kwd_server.Cache.File.{write_cache, init}
use kwd_server.Cache.Saved.{IsSaved, AllApart, newest_first}
use kwd_server.Cache.Update.{Caches, update_cache}
use kwd_server.Cache.Update.Agree.{IsQuiet}
use kwd_server.Cache.Kept.{Holds}
use kwd_server.Cache.Kept.Restarted.{IsPairWalk, restarted-Holds}
use kwd_server.Worker.Answers.{IsAnswer, IsTrue}

module _ (overrun : List Word) (index : Index) where
  -- An answer of the search module that a line of the file can hold.
  abbrev pub IsKeptAnswer : SearchRetPair → Type 0
  IsKeptAnswer p = IsAnswer overrun index p × IsSaved p

  -- Where the caches hold only answers of the search module, whose words a line can hold, and none of
  -- them is being read, an update ends and keeps this for all of them; and every cache of a later start
  -- can be filled from the file that the update writes, whatever way the map is walked: it holds the last
  -- pairs of the file, as many as fit, and is true, so that a worker can answer from it. The copy of the
  -- first cache has each of its keys once.
  pub restarted-IsTrue :
      (s : Caches) (size : ℕ) (walk : List SearchRetPair → List SearchRetPair)
      → IsPairWalk walk
      → IsQuiet s
      → AllApart s.first.nonupdate
      → Holds IsKeptAnswer s.first
      → All (Holds IsKeptAnswer) s.others
      → (t : Caches) × (written : List SearchRetPair) × (c : Cache) × (update_cache s
          ≡ some (t, written))
        × Holds IsKeptAnswer t.first
        × All (Holds IsKeptAnswer) t.others
        × (init (some (write_cache (walk written))) (empty_cache size) ≡ some c)
        × (pairs c.lru_list ≡ take size (newest_first (walk written) []))
        × IsTrue overrun index c
  restarted-IsTrue s size walk walks q apart first others =
      let (t, written, c, run, filled, after, rest, holds, linked, idle, quiet, view) =
        restarted-Holds IsKeptAnswer s size walk (λ p h. h.1) walks q apart first others in
      (
        t,
        written,
        c,
        run,
        after,
        rest,
        filled,
        view,
        record {
          linked = linked;
          idle = idle;
          quiet = quiet;
          truths =
              All-map IsKeptAnswer (IsAnswer overrun index) (pairs c.lru_list) (λ p h. h.0)
                holds.listed;
        },
      )
