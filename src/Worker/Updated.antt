-- ===== src/Worker/Updated.antt =====
-- The answers of a worker whose cache is not the first one, after an update (src/cache.cc leaves the
-- mark of the update in these caches).
use kwd_server.Base.{
  ℕ, zero, suc, ◌≡◌, ◌≢◌, refl, sym, ap, ◌∙◌, subst, true, false, none, some, List, [], ◌∷◌, ◌++◌,
  map, take, All, All-map, All-both, Bool-cases, Option-cases, inl, inr, Word, word_eq, word_eq_iff,
  word_eq_ne, lookup,
}
use mathlib.Core.Option.{some-injective}
use kwd_server.Search.Handle.{Index, search_word}
use kwd_server.Search.Handle.Hits.{IsIndexed}
use kwd_server.Cache.{SearchRetPair, Cache, search_cache, search_nonupdate, insert_cache}
use kwd_server.Cache.Linked.{IsLinked}
use kwd_server.Cache.Pairs.{pairs, unmapped_of_absent}
use kwd_server.Cache.Refine.{lru_new}
use kwd_server.Cache.Update.{Caches, update_cache}
use kwd_server.Cache.Update.Agree.{IsQuiet, Serves, update_cache-Serves, update_cache-IsFrozen}
use kwd_server.Cache.Kept.{Holds, All-lookup, update_cache-merged}
use kwd_server.Worker.{write_json_string, worker_round, do_work}
use kwd_server.Worker.Answers.{IsKey, IsAnswer, answer_all, search_word_lem}

-- No message comes twice.
abbrev pub Distinct : List Word → Type 0
Distinct [] = Unit
Distinct (msg ∷ msgs) = All (λ later. later ≢ msg) msgs × Distinct msgs

-- A word that is not in the copy for the time of an update is not in the list either.
abbrev NotHidden : Cache → Word → Type 0
NotHidden c w = lookup w c.nonupdate ≡ none → lookup w (pairs c.lru_list) ≡ none

lookup-take :
    (w : Word) (n : ℕ) (v : List SearchRetPair) → lookup w v ≡ none → lookup w (take n v) ≡ none
unfolding lookup
lookup-take w zero v h = refl
lookup-take w (suc n) [] h = refl
lookup-take w (suc n) (p ∷ v) h = elim (Bool-cases (word_eq p.0 w)) [
  | inl same ↦ absurd (cc (rw same at h))
  | inr other ↦ rw other (lookup-take w n v (rw other at h))
]

module _ (rewrite : Word → Word → Word) (overrun : List Word) (index : Index)
    (indexed : IsIndexed index) where
  -- A cache after an update that has hidden none of the messages to come.
  record IsUpdated (msgs : List Word) (c : Cache) : Type 0 where
    linked : IsLinked c
    marked : c.update ≡ true
    truths : All (IsAnswer overrun index) c.nonupdate
    open_to : All (NotHidden c) msgs

  search_marked : (w : Word) (c : Cache) → c.update ≡ true → search_cache w c ≡ search_nonupdate w c
  unfolding search_cache
  search_marked w c marked = rw marked

  -- A message that the copy does not have is inserted, and hides no other message.
  insert-IsUpdated :
      (msg : Word) (words : List Word) (msgs : List Word) (c : Cache)
      → IsUpdated (msg ∷ msgs) c
      → All (λ later. later ≢ msg) msgs
      → lookup msg c.nonupdate ≡ none
      → (d : Cache) × (insert_cache false (msg, words) c ≡ some d) × IsUpdated msgs d
  unfolding insert_cache
  insert-IsUpdated msg words msgs c k apart absent =
      let unmapped = unmapped_of_absent msg c k.linked (k.open_to.0 absent) in
      let (d, run, p) = lru_new msg words c k.linked unmapped in
      let same : d.nonupdate ≡ c.nonupdate = ap (λ (x : Cache). x.nonupdate) p.keeps in
      (
        record d { new_search_list = d.new_search_list ++ (msg, words) ∷ [] },
        rw run,
        record {
          linked = record {
            leads = p.linked.leads;
            mapped = p.linked.mapped;
            fresh = p.linked.fresh;
            distinct = p.linked.distinct;
            bounded = p.linked.bounded;
          };
          marked = ap (λ (x : Cache). x.update) p.keeps ∙ k.marked;
          truths = subst (All (IsAnswer overrun index)) (sym same) k.truths;
          open_to =
              All-map (λ w. NotHidden c w × (w ≢ msg)) (λ w. NotHidden d w) msgs
                (λ w h missing.
                  let behind : lookup w ((msg, words) ∷ pairs c.lru_list) ≡ none =
                    unfold lookup in
                    rw (word_eq_ne msg w (λ e. h.1 (sym e)))
                      (h.0 (sym (ap (lookup w) same) ∙ missing)) in
                  ap (lookup w) p.view ∙ lookup-take w c.cache_size _ behind)
                (All-both (NotHidden c) (λ w. w ≢ msg) msgs k.open_to.1 apart);
        },
      )

  round-IsUpdated :
      (msg : Word) (msgs : List Word) (c : Cache)
      → IsKey msg
      → All (λ later. later ≢ msg) msgs
      → IsUpdated (msg ∷ msgs) c
      → (d : Cache) × (ret : SearchRetPair) × (worker_round rewrite overrun index false (some msg) c
          ≡ some (d, write_json_string rewrite ret))
        × (search_word overrun index msg ≡ some ret)
        × IsUpdated msgs d
  unfolding worker_round search_nonupdate
  round-IsUpdated msg msgs c key apart k = elim (Option-cases (lookup msg c.nonupdate)) [
    | inl absent ↦
        let (words, truth) = search_word_lem rewrite overrun index indexed msg key in
        let (d, inserted, after) = insert-IsUpdated msg words msgs c k apart absent in
        (
          d,
          (msg, words),
          rw (
            search_marked msg c k.marked,
            absent,
            search_nonupdate,
            (word_eq_iff [] []).1 refl,
            truth,
            inserted,
          ),
          truth,
          after,
        )
    | inr (words, there) ↦
        let other : word_eq [] msg ≡ false = word_eq_ne [] msg (λ e. key.0 (sym e)) in
        (
          c,
          (msg, words),
          rw (search_marked msg c k.marked, there, search_nonupdate, other),
          All-lookup (IsAnswer overrun index) msg words c.nonupdate k.truths there,
          record { linked = k.linked; marked = k.marked; truths = k.truths; open_to = k.open_to.1 },
        )
  ]

  do_work-IsUpdated :
      (msgs : List Word) (c : Cache)
      → All IsKey msgs
      → Distinct msgs
      → IsUpdated msgs c
      → (d : Cache) × (sent : List Word) × (do_work rewrite overrun index false (map some msgs) c
          ≡ some (d, sent))
        × (answer_all rewrite overrun index msgs ≡ some sent)
        × IsLinked d
  unfolding do_work
  do_work-IsUpdated [] c keys apart k = (c, [], refl, refl, k.linked)
  do_work-IsUpdated (msg ∷ msgs) c keys apart k =
      let (next, ret, run, truth, k1) = round-IsUpdated msg msgs c keys.0 apart.0 k in
      let (last, sent, rest, answers, linked) = do_work-IsUpdated msgs next keys.1 apart.1 k1 in
      (last, write_json_string rewrite ret ∷ sent, rw (run, rest), rw (truth, answers), linked)

  Serves-IsUpdated :
      (v : List SearchRetPair) (msgs : List Word) (c : Cache)
      → All IsKey msgs
      → Serves v c
      → c.update ≡ true
      → Holds (IsAnswer overrun index) c
      → IsUpdated msgs c
  unfolding search_nonupdate
  Serves-IsUpdated v msgs c keys serves marked holds = record {
    linked = serves.linked;
    marked = marked;
    truths = holds.noted;
    open_to =
        All-map IsKey (NotHidden c) msgs
          (λ w key missing. elim (Option-cases (lookup w v)) [
            | inl absent ↦ ap (lookup w) serves.content ∙ absent
            | inr (words, there) ↦
                let found = rw (missing, search_nonupdate) at (serves.backup w words there) in
                absurd (
                  key.0
                    (sym (ap (λ (r : Cache × SearchRetPair). r.1.0) (some-injective _ _ found))))
          ])
          keys;
  }

  -- Where the caches hold only answers of the search module, and none of them is being read, an update
  -- ends; and a worker of any of the other caches, whose mark of the update stays, that gets keys, none
  -- of them twice, never fails after it: it sends for every task what the search module alone would
  -- answer, in order, and leaves a list that is rightly linked.
  pub updated-answers :
      (s : Caches) (msgs : List Word)
      → All IsKey msgs
      → Distinct msgs
      → IsQuiet s
      → Holds (IsAnswer overrun index) s.first
      → All (Holds (IsAnswer overrun index)) s.others
      → (t : Caches) × (written : List SearchRetPair) × (update_cache s ≡ some (t, written))
        × All
            (λ c.
              (d : Cache) × (sent : List Word) × (do_work rewrite overrun index false
                  (map some msgs)
                  c
                ≡ some (d, sent))
              × (answer_all rewrite overrun index msgs ≡ some sent)
              × IsLinked d)
            t.others
  updated-answers s msgs keys apart q first others =
      let (t, written, run, main, serves, news) = update_cache-Serves s q in
      let (t', written', run', unmarked, marked, frozen) = update_cache-IsFrozen s q in
      let (m, run'', held, same, rest) =
        update_cache-merged (IsAnswer overrun index) s q first others in
      let marked_all : All (λ c. c.update ≡ true) t.others =
        subst (λ (r : Caches × List SearchRetPair). All (λ c. c.update ≡ true) r.0.others)
          (some-injective (t', written') (t, written) (sym run' ∙ run)) marked in
      let held_all : All (Holds (IsAnswer overrun index)) t.others =
        subst (λ (r : Caches × List SearchRetPair). All (Holds (IsAnswer overrun index)) r.0.others)
          (some-injective _ (t, written) (sym run'' ∙ run)) rest in
      (
        t,
        written,
        run,
        All-map _ _ t.others
            (λ c h.
              do_work-IsUpdated msgs c keys apart (Serves-IsUpdated _ msgs c keys h.0 h.1.0 h.1.1))
            (All-both _ _ t.others serves (All-both _ _ t.others marked_all held_all)),
      )
