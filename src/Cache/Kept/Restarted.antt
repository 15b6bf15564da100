-- ===== src/Cache/Kept/Restarted.antt =====
-- What holds of all pairs that are found, after an update and a restart with the file that it writes.
use kwd_server.Base.{
  ℕ, ◌≡◌, refl, sym, ap, ◌∙◌, subst, false, some, List, [], ◌∷◌, take, All, All-take, All-map, ◌≢◌,
  word_eq_iff, Bool-cases, inl, inr, Word, word_eq, lookup, assign,
}
use kwd_server.Cache.{SearchRetPair, Node, Cache, empty_cache}
use kwd_server.Cache.Linked.{IsLinked}
use kwd_server.Cache.Pairs.{pairs, lookup-absent}
use kwd_server.Cache.File.{write_cache, init}
use kwd_server.Cache.Saved.{IsSaved, AllApart, newest_first, init-filled}
use kwd_server.Cache.Update.{Caches, note_pairs, refresh, update_cache}
use kwd_server.Cache.Update.Agree.{IsQuiet}
use kwd_server.Cache.Kept.{
  Holds, All-lookup, All-assign, All-newest_first, refresh-Holds, update_cache-merged,
}

-- A map has each of its keys once.
AllApart-assign :
    (k : Word) (words : List Word) (v : List SearchRetPair)
    → AllApart v
    → AllApart (assign k words v)
unfolding assign
AllApart-assign k words [] a = (tt, tt)
AllApart-assign k words (p ∷ v) a = elim (Bool-cases (word_eq p.0 k)) [
  | inl same ↦
      rw same
        (subst (λ w. All (λ (q : SearchRetPair). q.0 ≢ w) v) ((word_eq_iff p.0 k).0 same) a.0, a.1)
  | inr other ↦
      let apart : k ≢ p.0 = λ e. absurd (cc ((word_eq_iff p.0 k).1 (sym e), other)) in
      rw other (
        All-assign (λ (q : SearchRetPair). q.0 ≢ p.0) k words v apart a.0,
        AllApart-assign k words v a.1,
      )
]

AllApart-note_pairs :
    (l : List Node) (v : List SearchRetPair) → AllApart v → AllApart (note_pairs l v)
unfolding note_pairs
AllApart-note_pairs [] v a = a
AllApart-note_pairs (n ∷ l) v a =
    AllApart-note_pairs l (assign n.pair.0 n.pair.1 v) (AllApart-assign n.pair.0 n.pair.1 v a)

-- A walk through a map of pairs passes each key once, with what it is mapped to.
abbrev pub IsPairWalk : (List SearchRetPair → List SearchRetPair) → Type 0
IsPairWalk walk =
    (v : List SearchRetPair)
    → AllApart v
    → AllApart (walk v) × ((key : Word) → lookup key (walk v) ≡ lookup key v)

module _ (P : SearchRetPair → Type 0) where
  All-of_lookup :
      (v : List SearchRetPair)
      → AllApart v
      → ((key : Word) (words : List Word) → lookup key v ≡ some words → P (key, words))
      → All P v
  unfolding lookup
  All-of_lookup [] a h = tt
  All-of_lookup (p ∷ v) a h = (
    h p.0 p.1 (rw ((word_eq_iff p.0 p.0).1 refl)),
    All-of_lookup v a.1 (λ key words e. h key words (elim (Bool-cases (word_eq p.0 key)) [
      | inl same ↦
          let key_eq : p.0 ≡ key = (word_eq_iff p.0 key).0 same in
          absurd (
            cc (
              lookup-absent key v (subst (λ w. All (λ (q : SearchRetPair). q.0 ≢ w) v) key_eq a.0),
              e,
            ))
      | inr other ↦ rw other e
    ])),
  )

  -- After an update, and after a restart with the file that it writes, what holds of all pairs before
  -- holds of all pairs of the new cache, and so does the rest of what a new cache has.
  pub restarted-Holds :
      (s : Caches) (size : ℕ) (walk : List SearchRetPair → List SearchRetPair)
      → ((p : SearchRetPair) → P p → IsSaved p)
      → IsPairWalk walk
      → IsQuiet s
      → AllApart s.first.nonupdate
      → Holds P s.first
      → All (Holds P) s.others
      → (t : Caches) × (written : List SearchRetPair) × (c : Cache) × (update_cache s
          ≡ some (t, written))
        × (init (some (write_cache (walk written))) (empty_cache size) ≡ some c)
        × Holds P t.first
        × All (Holds P) t.others
        × Holds P c
        × IsLinked c
        × (c.update ≡ false)
        × (c.is_reading ≡ false)
        × (pairs c.lru_list ≡ take size (newest_first (walk written) []))
  unfolding refresh
  restarted-Holds s size walk saves walks q apart first others =
      let (m, run, main, same, rest) = update_cache-merged P s q first others in
      let after = refresh-Holds P m main in
      let written = note_pairs m.lru_list m.nonupdate in
      let once = AllApart-note_pairs m.lru_list m.nonupdate (subst AllApart (sym same) apart) in
      let (once', finds) = walks written once in
      let all : All P (walk written) =
        All-of_lookup (walk written) once'
          (λ key words e. All-lookup P key words written after.noted (sym (finds key) ∙ e)) in
      let (d, filled, linked, keeps, view) =
        init-filled size (walk written) (All-map P IsSaved (walk written) saves all) once' in
      let filled_all : Holds P d = record {
        listed =
            subst (All P) (sym view)
              (All-take P size _ (All-newest_first P (walk written) [] all tt));
        noted = subst (All P) (sym (ap (λ (c : Cache). c.nonupdate) keeps)) tt;
        news = subst (All P) (sym (ap (λ (c : Cache). c.new_search_list) keeps)) tt;
      } in
      (
        _,
        _,
        refresh d,
        run,
        filled,
        after,
        rest,
        refresh-Holds P d filled_all,
        record {
          leads = linked.leads;
          mapped = linked.mapped;
          fresh = linked.fresh;
          distinct = linked.distinct;
          bounded = linked.bounded;
        },
        ap (λ (c : Cache). c.update) keeps,
        ap (λ (c : Cache). c.is_reading) keeps,
        view,
      )
