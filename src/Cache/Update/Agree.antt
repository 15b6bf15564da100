-- ===== src/Cache/Update/Agree.antt =====
-- What an update does to all caches.
use kwd_server.Base.{
  ◌≡◌, refl, sym, ◌∙◌, ap, subst, true, false, some, List, [], ◌∷◌, ◌++◌, map, All, All-map, Word,
  lookup, Option-cases, inl, inr, unguarded,
}
use kwd_server.Cache.{SearchRetPair, not_found, Cache, search_cache, search_nonupdate}
use kwd_server.Cache.Linked.{IsLinked, Keeps}
use kwd_server.Cache.Pairs.{pairs}
use kwd_server.Cache.Update.{Caches, read_from_first, refresh, update_cache}
use kwd_server.Cache.Update.Merge.{ideal_merge, all_news, clear_news, merge_all-IsAfter}
use kwd_server.Cache.Update.Copy.{pairs-copy_nodes, read_from_first-IsLinked, refresh-lookup}

-- A cache has the pairs `v`, rightly linked, and finds each of them also while it is being updated.
pub record Serves (v : List SearchRetPair) (c : Cache) : Type 0 where
  pub linked : IsLinked c
  pub content : pairs c.lru_list ≡ v
  pub backup :
      (w : Word) (words : List Word)
      → lookup w v ≡ some words
      → search_nonupdate w c ≡ some (c, (w, words))

-- The caches before an update: none is being read, all have one size, and the first one has right
-- links.
pub record IsQuiet (s : Caches) : Type 0 where
  pub linked : IsLinked s.first
  pub first_quiet : s.first.is_reading ≡ false
  pub others_quiet : All (λ c. c.is_reading ≡ false) s.others
  pub sizes : All (λ c. c.cache_size ≡ s.first.cache_size) s.others

abbrev pub flag : Cache → Cache
flag c = record c { update = true }

-- What becomes of another cache, when the first one has been merged to `m`.
abbrev pub updated : Cache → Cache → Cache
updated m c = refresh (read_from_first m (clear_news (flag c)))

set_update-IsLinked : (c : Cache) → IsLinked c → IsLinked (record c { update = false })
set_update-IsLinked c k = record {
  leads = k.leads;
  mapped = k.mapped;
  fresh = k.fresh;
  distinct = k.distinct;
  bounded = k.bounded;
}

All-marked : (m : Cache) (cs : List Cache) → All (λ c. c.update ≡ true) (map (updated m) cs)
unfolding refresh read_from_first
All-marked m [] = tt
All-marked m (c ∷ cs) = (refl, All-marked m cs)

refresh-Serves : (c : Cache) → IsLinked c → Serves (pairs c.lru_list) (refresh c)
unfolding refresh search_nonupdate
refresh-Serves c k = record {
  linked = record {
    leads = k.leads;
    mapped = k.mapped;
    fresh = k.fresh;
    distinct = k.distinct;
    bounded = k.bounded;
  };
  content = refl;
  backup = λ w words h. rw (refresh-lookup c w words k h, search_nonupdate);
}

updated-Serves :
    (m c : Cache)
    → IsLinked m
    → c.cache_size ≡ m.cache_size
    → Serves (pairs m.lru_list) (updated m c)
unfolding read_from_first
updated-Serves m c k same =
    subst (λ v. Serves v (updated m c)) (pairs-copy_nodes c.next_id m.lru_list)
      (refresh-Serves (read_from_first m (clear_news (flag c)))
        (read_from_first-IsLinked m (clear_news (flag c)) k same))

map_all :
    (m : Cache) (cs : List Cache)
    → map refresh (map (read_from_first m) (map clear_news (map flag cs))) ≡ map (updated m) cs
map_all m [] = refl
map_all m (c ∷ cs) = ap (◌∷◌ (updated m c)) (map_all m cs)

flag-news : (cs : List Cache) → all_news (map flag cs) ≡ all_news cs
unfolding all_news
flag-news [] = refl
flag-news (c ∷ cs) = ap (λ v. c.new_search_list ++ v) (flag-news cs)

flag-quiet :
    (cs : List Cache)
    → All (λ c. c.is_reading ≡ false) cs
    → All (λ c. c.is_reading ≡ false) (map flag cs)
flag-quiet [] h = tt
flag-quiet (c ∷ cs) h = (h.0, flag-quiet cs h.1)

All-updated :
    (P : Cache → Type 0) (m : Cache) (cs : List Cache)
    → All (λ c. P (updated m c)) cs
    → All P (map (updated m) cs)
All-updated P m [] h = tt
All-updated P m (c ∷ cs) h = (h.0, All-updated P m cs h.1)

-- The update up to the choice of the merged cache: it has a result if no cache is being read.
pub update_cache-run :
    (s : Caches)
    → IsQuiet s
    → (m : Cache) × (update_cache s
        ≡ some (
          record {
            first = refresh (record m { update = false });
            others = map (updated m) s.others;
          },
          (refresh (record m { update = false })).nonupdate,
        ))
      × IsLinked m
      × Keeps s.first m
      × (pairs m.lru_list
          ≡ ideal_merge s.first.cache_size (all_news s.others) (pairs s.first.lru_list))
unfolding update_cache
update_cache-run s q =
    let (m, run, after) =
      merge_all-IsAfter (map flag s.others) s.first q.linked (flag-quiet s.others q.others_quiet) in
    (
      m,
      unguarded _ q.first_quiet ∙ (rw (run, map_all m s.others)),
      after.linked,
      after.keeps,
      after.view
          ∙ ap (λ n. ideal_merge s.first.cache_size n (pairs s.first.lru_list))
              (flag-news s.others),
    )

All-clear : (m : Cache) (cs : List Cache) → All (λ c. c.new_search_list ≡ []) (map (updated m) cs)
unfolding refresh read_from_first
All-clear m [] = tt
All-clear m (c ∷ cs) = (refl, All-clear m cs)

All-Serves :
    (m : Cache) (cs : List Cache)
    → IsLinked m
    → All (λ c. c.cache_size ≡ m.cache_size) cs
    → All (Serves (pairs m.lru_list)) (map (updated m) cs)
All-Serves m [] k h = tt
All-Serves m (c ∷ cs) k h = (updated-Serves m c k h.0, All-Serves m cs k h.1)

-- Started while no cache is being read, an update ends. It merges the pairs that the other caches
-- found since the last update into the first cache, cache by cache and in the order in which they
-- were found, each new word at the front and the least recently used pair falling out. After it
-- every cache has exactly the merged pairs, in one order, with right links and within its bound,
-- finds each of them also during the next update, and has no new pairs left.
pub update_cache-Serves :
    (s : Caches)
    → IsQuiet s
    → (t : Caches) × (written : List SearchRetPair) × (update_cache s ≡ some (t, written))
      × Serves (ideal_merge s.first.cache_size (all_news s.others) (pairs s.first.lru_list)) t.first
      × All
          (Serves (ideal_merge s.first.cache_size (all_news s.others) (pairs s.first.lru_list)))
          t.others
      × All (λ c. c.new_search_list ≡ []) t.others
update_cache-Serves s q =
    let (m, run, linked, keeps, merged) = update_cache-run s q in
    let sizes =
      All-map (λ (c : Cache). c.cache_size ≡ s.first.cache_size)
        (λ (c : Cache). c.cache_size ≡ m.cache_size) s.others
        (λ c h. h ∙ sym (ap (λ x. x.cache_size) keeps)) q.sizes in
    (
      _,
      _,
      run,
      subst (λ v. Serves v (refresh (record m { update = false }))) merged
          (refresh-Serves (record m { update = false }) (set_update-IsLinked m linked)),
      subst (λ v. All (Serves v) (map (updated m) s.others)) merged
          (All-Serves m s.others linked sizes),
      All-clear m s.others,
    )

-- A search that leaves the cache as it is: nothing is moved to the front.
abbrev pub IsFrozen : Cache → Type 0
IsFrozen c = (w : Word) → (answer : SearchRetPair) × (search_cache w c ≡ some (c, answer))

frozen : (m c : Cache) → IsFrozen (updated m c)
unfolding search_cache search_nonupdate refresh read_from_first
frozen m c w = elim (Option-cases (lookup w (updated m c).nonupdate)) [
  | inl none_there ↦ (not_found, rw (none_there, search_nonupdate))
  | inr (words, there) ↦ ((w, words), rw (there, search_nonupdate))
]

All-IsFrozen : (m : Cache) (cs : List Cache) → All IsFrozen (map (updated m) cs)
All-IsFrozen m [] = tt
All-IsFrozen m (c ∷ cs) = (frozen m c, All-IsFrozen m cs)

-- The mark of a running update is taken back from the first cache only. Once an update has ended,
-- no search moves anything to the front in the other caches: their searches leave them unchanged.
pub update_cache-IsFrozen :
    (s : Caches)
    → IsQuiet s
    → (t : Caches) × (written : List SearchRetPair) × (update_cache s ≡ some (t, written))
      × (t.first.update ≡ false)
      × All (λ c. c.update ≡ true) t.others
      × All IsFrozen t.others
unfolding refresh
update_cache-IsFrozen s q =
    let (m, run, linked, keeps, merged) = update_cache-run s q in
    (_, _, run, refl, All-marked m s.others, All-IsFrozen m s.others)
