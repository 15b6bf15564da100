-- ===== src/Cache/Kept.antt =====
-- What holds of all pairs that are found, through the updates.
pub mod Restarted
use kwd_server.Base.{
  ℕ, ◌≡◌, refl, sym, ap, ◌∙◌, subst, ◌⊎◌, true, false, some, none, List, [], ◌∷◌, ◌++◌, map, take,
  arith, All, All-append, All-take, All-map, ◌≢◌, word_eq_iff, Bool-cases, Option-cases, inl, inr,
  Word, word_eq, lookup, assign,
}
use kwd_server.Cache.{SearchRetPair, Node, Cache, empty_cache}
use kwd_server.Cache.Linked.{IsLinked, Keeps}
use kwd_server.Cache.Pairs.{pairs, lookup-absent}
use kwd_server.Cache.File.{write_cache, init}
use kwd_server.Cache.Saved.{IsSaved, AllApart, newest_first, init-filled}
use kwd_server.Cache.Update.{Caches, note_pairs, refresh, read_from_first, update_cache}
use kwd_server.Cache.Update.Merge.{ideal_write, ideal_merge, all_news}
use kwd_server.Cache.Update.Copy.{pairs-copy_nodes}
use kwd_server.Cache.Update.Agree.{IsQuiet, updated, update_cache-run}

module _ (P : SearchRetPair → Type 0) where
  pub All-lookup :
      (w : Word) (words : List Word) (v : List SearchRetPair)
      → All P v
      → lookup w v ≡ some words
      → P (w, words)
  unfolding lookup
  All-lookup w words [] h e = absurd (cc e)
  All-lookup w words ((k, l) ∷ v) h e = elim (Bool-cases (word_eq k w)) [
    | inl same ↦ subst P (cc (e, same, (word_eq_iff k w).0 same)) h.0
    | inr other ↦ All-lookup w words v h.1 (rw other at e)
  ]

  -- All pairs of a cache: in its list, in the copy for the time of an update, and the new ones.
  pub record Holds (c : Cache) : Type 0 where
    pub listed : All P (pairs c.lru_list)
    pub noted : All P c.nonupdate
    pub news : All P c.new_search_list

  pub All-assign :
      (k : Word) (words : List Word) (v : List SearchRetPair)
      → P (k, words)
      → All P v
      → All P (assign k words v)
  unfolding assign
  All-assign k words [] h a = (h, tt)
  All-assign k words (p ∷ v) h a = elim (Bool-cases (word_eq p.0 k)) [
    | inl same ↦ rw same (h, a.1)
    | inr other ↦ rw other (a.0, All-assign k words v h a.1)
  ]

  All-note_pairs :
      (l : List Node) (v : List SearchRetPair) → All P (pairs l) → All P v → All P (note_pairs l v)
  unfolding note_pairs
  All-note_pairs [] v h a = a
  All-note_pairs (n ∷ l) v h a =
      All-note_pairs l (assign n.pair.0 n.pair.1 v) h.1 (All-assign n.pair.0 n.pair.1 v h.0 a)

  All-ideal_merge :
      (size : ℕ) (news v : List SearchRetPair)
      → All P news
      → All P v
      → All P (ideal_merge size news v)
  unfolding ideal_merge
  All-ideal_merge size [] v h a = a
  All-ideal_merge size (p ∷ news) v h a =
      All-ideal_merge size news (ideal_write size p v) h.1 (written (Option-cases (lookup p.0 v)))
    where
      written :
          (lookup p.0 v ≡ none) ⊎ ((words : List Word) × (lookup p.0 v ≡ some words))
          → All P (ideal_write size p v)
      written (inl absent) = rw (absent, ideal_write) (All-take P size (p ∷ v) (h.0, a))
      written (inr (words, there)) = rw (there, ideal_write) a

  All-news : (cs : List Cache) → All Holds cs → All P (all_news cs)
  unfolding all_news
  All-news [] h = tt
  All-news (c ∷ cs) h = All-append P c.new_search_list (all_news cs) h.0.news (All-news cs h.1)

  pub All-newest_first :
      (entries v : List SearchRetPair) → All P entries → All P v → All P (newest_first entries v)
  All-newest_first [] v h a = a
  All-newest_first (p ∷ rest) v h a = All-newest_first rest (p ∷ v) h.1 (h.0, a)

  pub refresh-Holds : (c : Cache) → Holds c → Holds (refresh c)
  unfolding refresh
  refresh-Holds c h = record {
    listed = h.listed;
    noted = All-note_pairs c.lru_list c.nonupdate h.listed h.noted;
    news = h.news;
  }

  updated-Holds : (m c : Cache) → All P (pairs m.lru_list) → Holds c → Holds (updated m c)
  unfolding read_from_first
  updated-Holds m c merged h = refresh-Holds _ (record {
    listed = subst (All P) (sym (pairs-copy_nodes c.next_id m.lru_list)) merged;
    noted = h.noted;
    news = tt;
  })

  All-updated-Holds :
      (m : Cache) (cs : List Cache)
      → All P (pairs m.lru_list)
      → All Holds cs
      → All Holds (map (updated m) cs)
  All-updated-Holds m [] merged h = tt
  All-updated-Holds m (c ∷ cs) merged h =
      (updated-Holds m c merged h.0, All-updated-Holds m cs merged h.1)

  -- The update with the first cache as the merge leaves it.
  pub update_cache-merged :
      (s : Caches)
      → IsQuiet s
      → Holds s.first
      → All Holds s.others
      → (m : Cache) × (update_cache s
          ≡ some (
            record { first = refresh m; others = map (updated m) s.others },
            (refresh m).nonupdate,
          ))
        × Holds m
        × (m.nonupdate ≡ s.first.nonupdate)
        × All Holds (map (updated m) s.others)
  unfolding read_from_first
  update_cache-merged s q first others =
      let (m, run, linked, keeps, view) = update_cache-run s q in
      let merged : All P (pairs m.lru_list) = subst (All P) (sym view) (
        All-ideal_merge s.first.cache_size (all_news s.others) (pairs s.first.lru_list)
          (All-news s.others others) first.listed) in
      let same : m.nonupdate ≡ s.first.nonupdate = ap (λ (c : Cache). c.nonupdate) keeps in
      let main : Holds (record m { update = false }) = record {
        listed = merged;
        noted = subst (All P) (sym same) first.noted;
        news = subst (All P) (sym (ap (λ (c : Cache). c.new_search_list) keeps)) first.news;
      } in
      (
        record m { update = false },
        run,
        main,
        same,
        All-updated-Holds (record m { update = false }) s.others merged others,
      )
