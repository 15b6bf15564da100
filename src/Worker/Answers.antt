-- ===== src/Worker/Answers.antt =====
-- The cache does not show in the answers of a worker.
use kwd_server.Base.{
  ◌≡◌, ◌≢◌, refl, sym, ◌∙◌, ap, subst, Bool, true, false, Option, none, some, List, [], ◌∷◌, ◌++◌,
  map, take, All-take, All, Bool-cases, Option-cases, inl, inr, ◌>>=◌, Word, word_eq, word_eq_iff,
  word_eq_ne, lookup, erase,
}
use kwd_server.Search.Handle.{Index, is_english, to_lower, search_word}
use kwd_server.Search.Handle.Hits.{IsIndexed}
use kwd_server.Search.Handle.Best.{handle_eng-IsBest, handle_ch-IsBest}
use kwd_server.Cache.{SearchRetPair, not_found, Cache, lru, insert_cache}
use kwd_server.Cache.Kept.{All-lookup}
use kwd_server.Cache.Linked.{IsLinked, Keeps}
use kwd_server.Cache.Pairs.{pairs, ideal_search, unmapped_of_absent}
use kwd_server.Cache.Refine.{search_cache-refines, lru_new}
use kwd_server.Worker.{write_json_string, worker_round, do_work}

-- A message that is its own key in the cache: not empty, and in lower case if it is English.
abbrev pub IsKey : Word → Type 0
IsKey msg = (msg ≢ []) × (is_english msg ≡ true → map to_lower msg ≡ msg)

module _ (P : SearchRetPair → Type 0) where
  All-erase : (w : Word) (v : List SearchRetPair) → All P v → All P (erase w v)
  unfolding erase
  All-erase w [] h = tt
  All-erase w (p ∷ v) h = elim (Bool-cases (word_eq p.0 w)) [
    | inl same ↦ rw same (All-erase w v h.1)
    | inr other ↦ rw other (h.0, All-erase w v h.1)
  ]

abbrev pub IsAnswer : List Word → Index → SearchRetPair → Type 0
IsAnswer overrun index p = search_word overrun index p.0 ≡ some p

-- A cache with right links, outside an update and not being read, whose pairs are all answers of the
-- search module.
pub record IsTrue (overrun : List Word) (index : Index) (c : Cache) : Type 0 where
  pub linked : IsLinked c
  pub idle : c.update ≡ false
  pub quiet : c.is_reading ≡ false
  pub truths : All (IsAnswer overrun index) (pairs c.lru_list)

-- What a worker without a cache would send.
abbrev pub answer_all : (Word → Word → Word) → List Word → Index → List Word → Option (List Word)
answer_all rewrite overrun index [] = some []
answer_all rewrite overrun index (msg ∷ msgs) = do
  ret ← search_word overrun index msg
  rest ← answer_all rewrite overrun index msgs
  some (write_json_string rewrite ret ∷ rest)

module _ (rewrite : Word → Word → Word) (overrun : List Word) (index : Index)
    (indexed : IsIndexed index) where
  pub search_word_lem :
      (msg : Word)
      → IsKey msg
      → (words : List Word) × (search_word overrun index msg ≡ some (msg, words))
  unfolding search_word
  search_word_lem msg (_, lower) = elim (Bool-cases (is_english msg)) [
    | inl english ↦
        let best = handle_eng-IsBest index msg indexed in
        (
          map (λ h. h.1.word) (take index.limit best.hits),
          rw (english, lower english) best.returned,
        )
    | inr other ↦
        let best = handle_ch-IsBest overrun index msg indexed in
        (map (λ h. h.1.word) (take index.limit best.hits), rw other best.returned)
  ]

  noted-IsTrue :
      (news : List SearchRetPair) (c : Cache)
      → IsTrue overrun index c
      → IsTrue overrun index (record c { new_search_list = news })
  noted-IsTrue news c k = record {
    linked = record {
      leads = k.linked.leads;
      mapped = k.linked.mapped;
      fresh = k.linked.fresh;
      distinct = k.linked.distinct;
      bounded = k.linked.bounded;
    };
    idle = k.idle;
    quiet = k.quiet;
    truths = k.truths;
  }

  lru-IsTrue :
      (w : Word) (words : List Word) (c : Cache)
      → IsTrue overrun index c
      → lookup w c.updater_map ≡ none
      → search_word overrun index w ≡ some (w, words)
      → (d : Cache) × (lru (w, words) none c ≡ some d) × IsTrue overrun index d
  lru-IsTrue w words c k absent truth =
      let (d, run, p) = lru_new w words c k.linked absent in
      (
        d,
        run,
        record {
          linked = p.linked;
          idle = ap (λ x. x.update) p.keeps ∙ k.idle;
          quiet = ap (λ x. x.is_reading) p.keeps ∙ k.quiet;
          truths = subst (All (IsAnswer overrun index)) (sym p.view) (
              All-take (IsAnswer overrun index) c.cache_size ((w, words) ∷ pairs c.lru_list)
                (truth, k.truths));
        },
      )

  insert_cache-IsTrue :
      (is_first : Bool) (w : Word) (words : List Word) (c : Cache)
      → IsTrue overrun index c
      → lookup w c.updater_map ≡ none
      → search_word overrun index w ≡ some (w, words)
      → (d : Cache) × (insert_cache is_first (w, words) c ≡ some d) × IsTrue overrun index d
  unfolding insert_cache
  insert_cache-IsTrue true w words c k absent truth =
      let (d, run, p) = lru-IsTrue w words c k absent truth in (d, rw run, p)
  insert_cache-IsTrue false w words c k absent truth =
      let (d, run, p) = lru-IsTrue w words c k absent truth in
      let news = d.new_search_list ++ (w, words) ∷ [] in
      (record d { new_search_list = news }, rw run, noted-IsTrue news d p)

  -- The search of a word leaves true pairs.
  searched-IsTrue :
      (msg : Word) (c d : Cache)
      → IsTrue overrun index c
      → IsLinked d
      → Keeps c d
      → pairs d.lru_list ≡ (ideal_search msg (pairs c.lru_list)).0
      → IsTrue overrun index d
  searched-IsTrue msg c d k linked keeps view = record {
    linked = linked;
    idle = ap (λ x. x.update) keeps ∙ k.idle;
    quiet = ap (λ x. x.is_reading) keeps ∙ k.quiet;
    truths =
        subst (All (IsAnswer overrun index)) (sym view)
          (elim (Option-cases (lookup msg (pairs c.lru_list))) [
            | inl absent ↦ rw (absent, ideal_search) k.truths
            | inr (words, there) ↦
                rw (there, ideal_search)
                  (
                    All-lookup (IsAnswer overrun index) msg words (pairs c.lru_list) k.truths there,
                    All-erase (IsAnswer overrun index) msg (pairs c.lru_list) k.truths,
                  )
          ]);
  }

  -- A round answers a key as the search module does, and the cache stays true.
  pub worker_round-IsTrue :
      (is_first : Bool) (msg : Word) (c : Cache)
      → IsKey msg
      → IsTrue overrun index c
      → (d : Cache) × (ret : SearchRetPair) × (worker_round rewrite overrun index is_first
            (some msg)
            c
          ≡ some (d, write_json_string rewrite ret))
        × (search_word overrun index msg ≡ some ret)
        × IsTrue overrun index d
  unfolding worker_round
  worker_round-IsTrue is_first msg c key k =
      let (searched, found, run, linked, keeps, view) =
        search_cache-refines msg c k.linked k.idle k.quiet in
      let next = searched-IsTrue msg c searched k linked keeps (ap (λ x. x.0) view) in
      let answer : found ≡ (ideal_search msg (pairs c.lru_list)).1 = ap (λ x. x.1) view in
      elim (Option-cases (lookup msg (pairs c.lru_list))) [
        | inl absent ↦
            let (words, truth) = search_word_lem msg key in
            let same : pairs searched.lru_list ≡ pairs c.lru_list =
              rw (absent, ideal_search) at (ap (λ x. x.0) view) in
            let miss : found ≡ not_found = rw (absent, ideal_search) at answer in
            let unmapped =
              unmapped_of_absent msg searched linked (ap (λ l. lookup msg l) same ∙ absent) in
            let (d, inserted, true_after) =
              insert_cache-IsTrue is_first msg words searched next unmapped truth in
            (
              d,
              (msg, words),
              rw (run, miss, (word_eq_iff [] []).1 refl, truth, inserted),
              truth,
              true_after,
            )
        | inr (words, there) ↦
            let hit : found ≡ (msg, words) = rw (there, ideal_search) at answer in
            let other : word_eq [] msg ≡ false = word_eq_ne [] msg (λ e. key.0 (sym e)) in
            (
              searched,
              (msg, words),
              rw (run, hit, other),
              All-lookup (IsAnswer overrun index) msg words (pairs c.lru_list) k.truths there,
              next,
            )
      ]

  -- A worker that gets keys only, each not empty and in lower case if it is English, with a cache that is
  -- linked, not under update and holds only answers of the search module, over an index that lists
  -- positions of the dictionary: never fails, sends for every task what the search module alone
  -- would answer, in order, and leaves such a cache. What is read behind the keys of Chinese words
  -- (`overrun`) is the same each time.
  pub do_work-answers :
      (is_first : Bool) (msgs : List Word) (c : Cache)
      → All IsKey msgs
      → IsTrue overrun index c
      → (d : Cache) × (sent : List Word) × (do_work rewrite overrun index is_first (map some msgs) c
          ≡ some (d, sent))
        × (answer_all rewrite overrun index msgs ≡ some sent)
        × IsTrue overrun index d
  unfolding do_work
  do_work-answers is_first [] c keys k = (c, [], refl, refl, k)
  do_work-answers is_first (msg ∷ msgs) c keys k =
      let (next, ret, run, truth, k1) = worker_round-IsTrue is_first msg c keys.0 k in
      let (last, sent, rest, answers, k2) = do_work-answers is_first msgs next keys.1 k1 in
      (last, write_json_string rewrite ret ∷ sent, rw (run, rest), rw (truth, answers), k2)
