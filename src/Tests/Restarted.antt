-- ===== src/Tests/Restarted.antt =====
-- The caches of two workers, one of which has answered a query, over a restart.
use kwd_server.Base.{
  Word, word_eq, word_eq_iff, ◌≢◌, ◌≡◌, refl, false, some, List, [], ◌∷◌, All, take,
}
use kwd_server.Cache.{SearchRetPair, Cache, empty_cache}
use kwd_server.Cache.Pairs.{pairs}
use kwd_server.Cache.File.{write_cache, init}
use kwd_server.Cache.Saved.{IsSaved, newest_first, empty-IsLinked}
use kwd_server.Cache.Update.{Caches, update_cache}
use kwd_server.Cache.Update.Agree.{IsQuiet}
use kwd_server.Cache.Kept.{Holds}
use kwd_server.Cache.Linked.{IsLinked}
use kwd_server.Search.Handle.{is_english, to_lower}
use kwd_server.Reference.Complete.{set_ref_complete}
use kwd_server.Worker.{do_work}
use kwd_server.Worker.Updated.{updated-answers}
use kwd_server.Worker.Answers.{IsKey, IsTrue, answer_all}
use kwd_server.Worker.Restarted.{IsKeptAnswer, restarted-IsTrue}
use kwd_server.Tests.Worker.{dict, index, at, at-IsKey, no_rewrite}
use kwd_server.Tests.Request.{to, found}

abbrev answered : SearchRetPair
answered = (at, at ∷ to ∷ [])

abbrev caches : Caches
caches = record {
  first = empty_cache 2;
  others = record (empty_cache 2) { new_search_list = answered ∷ [] } ∷ [];
}

caches-IsQuiet : IsQuiet caches
caches-IsQuiet = record {
  linked = empty-IsLinked 2;
  first_quiet = refl;
  others_quiet = (refl, tt);
  sizes = (refl, tt);
}

answered-IsSaved : IsSaved answered
answered-IsSaved = (
  ((λ p. cc p), (refl, (refl, tt))),
  (((λ p. cc p), (refl, (refl, tt))), (((λ p. cc p), (refl, (refl, tt))), tt)),
)

restarted-IsTrue_example :
    (t : Caches) × (written : List SearchRetPair) × (c : Cache) × (update_cache caches
      ≡ some (t, written))
    × Holds (IsKeptAnswer [] index) t.first
    × All (Holds (IsKeptAnswer [] index)) t.others
    × (init (some (write_cache written)) (empty_cache 2) ≡ some c)
    × (pairs c.lru_list ≡ take 2 (newest_first written []))
    × IsTrue [] index c
restarted-IsTrue_example =
    restarted-IsTrue [] index caches 2 (λ v. v) (λ v a. (a, λ key. refl)) caches-IsQuiet tt
      (record { listed = tt; noted = tt; news = tt })
      (record { listed = tt; noted = tt; news = ((found, answered-IsSaved), tt) }, tt)

to-IsKey : IsKey to
unfolding is_english to_lower
to-IsKey = (λ e. cc e, λ h. refl)

to_other : to ≢ at
unfolding word_eq
to_other e = absurd (cc ((word_eq_iff to at).1 e))

updated-answers_example :
    (t : Caches) × (written : List SearchRetPair) × (update_cache caches ≡ some (t, written))
    × All
        (λ c.
          (d : Cache) × (sent : List Word) × (do_work no_rewrite [] index false
              (some at ∷ some to ∷ [])
              c
            ≡ some (d, sent))
          × (answer_all no_rewrite [] index (at ∷ to ∷ []) ≡ some sent)
          × IsLinked d)
        t.others
updated-answers_example =
    updated-answers no_rewrite [] index ((set_ref_complete (λ i. []) dict 5).1) caches
      (at ∷ to ∷ []) (at-IsKey, (to-IsKey, tt)) (((to_other, tt)), (tt, tt)) caches-IsQuiet
      (record { listed = tt; noted = tt; news = tt })
      (record { listed = tt; noted = tt; news = (found, tt) }, tt)
