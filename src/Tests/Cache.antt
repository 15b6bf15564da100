-- ===== src/Tests/Cache.antt =====
-- The caches at concrete inputs (src/cache.cc).
use kwd_server.Base.{
  All, ◌>>=◌, ℕ, ◌≡◌, refl, ◌⊎◌, inl, inr, arith, Bool-cases, word_eq_iff, ◌++◌, if◌then◌else◌,
  true, false, none, some, List, [], ◌∷◌, Word, word_eq, lookup, assign, erase,
}
use kwd_server.Cache.{
  SearchRetPair, Cache, empty_cache, deref, erase_node, pop_back, push_front, evict, lru,
  search_lru, search_nonupdate, search_cache, insert_cache,
}
use kwd_server.Cache.Twice.{insert_cache_twice}
use kwd_server.Cache.Update.{Caches, update_cache}
use kwd_server.Cache.Update.Merge.{ideal_merge, all_news}
use kwd_server.Cache.Update.Agree.{
  Serves, IsQuiet, IsFrozen, update_cache-Serves, update_cache-IsFrozen,
}
use kwd_server.Cache.Linked.{IsLinked, Keeps}
use kwd_server.Cache.Pairs.{pairs, ideal_search, ideal_insert}
use kwd_server.Cache.Refine.{search_cache-refines, insert_cache-refines}

program : Unit {0}
unfolding word_eq lookup assign erase deref erase_node pop_back push_front evict lru search_lru
    search_nonupdate search_cache insert_cache
program = tt

abbrev pair_a : SearchRetPair
pair_a = (b'a' ∷ [], (b'a' ∷ b'b' ∷ []) ∷ [])

abbrev pair_b : SearchRetPair
pair_b = (b'b' ∷ [], (b'b' ∷ b'c' ∷ []) ∷ [])

empty-IsLinked : IsLinked (empty_cache 2)
unfolding lookup
empty-IsLinked = record {
  leads = λ w iter h. cc;
  mapped = tt;
  fresh = tt;
  distinct = tt;
  bounded = omega arith;
}

-- after the insertion of `pair_a`
abbrev with_a : Cache
with_a = record (empty_cache 2) {
  lru_list = record { id = 0; pair = pair_a } ∷ [];
  next_id = 1;
  updater_map = (b'a' ∷ [], 0) ∷ [];
}

inserted_a : insert_cache true pair_a (empty_cache 2) ≡ some with_a
unfolding program
inserted_a = refl

with_a-IsLinked : IsLinked with_a
unfolding program
with_a-IsLinked = record {
  leads = λ w iter h. leads w iter h (Bool-cases (word_eq (b'a' ∷ []) w));
  mapped = (refl, tt);
  fresh = omega arith;
  distinct = (tt, tt);
  bounded = omega arith;
}
  where
    leads :
        (w : Word) (iter : ℕ)
        → (if word_eq (b'a' ∷ []) w then some 0 else none) ≡ some iter
        → (word_eq (b'a' ∷ []) w ≡ true) ⊎ (word_eq (b'a' ∷ []) w ≡ false)
        → (words : List Word) × (deref iter with_a.lru_list ≡ some (w, words))
    leads w iter h (inl same) =
        let e : b'a' ∷ [] ≡ w = (word_eq_iff (b'a' ∷ []) w).0 same in
        let at : 0 ≡ iter = ground arith in (pair_a.1, ground arith)
    leads w iter h (inr other) = absurd (ground arith)

search_cache-refines_example :
    (d : Cache) × (answer : SearchRetPair) × (search_cache (b'a' ∷ []) with_a ≡ some (d, answer))
    × IsLinked d
    × Keeps with_a d
    × (◌≡◌ {A = List SearchRetPair × SearchRetPair}
        (pairs d.lru_list, answer)
        (ideal_search (b'a' ∷ []) (pairs with_a.lru_list)))
search_cache-refines_example = search_cache-refines (b'a' ∷ []) with_a with_a-IsLinked refl refl

insert_cache-refines_example :
    (d : Cache) × (insert_cache false pair_b with_a ≡ some d)
    × IsLinked d
    × (pairs d.lru_list ≡ ideal_insert 2 pair_b (pairs with_a.lru_list))
    × (d.new_search_list ≡ (if false then [] else [] ++ pair_b ∷ []))
unfolding program
insert_cache-refines_example =
    insert_cache-refines false pair_b.0 pair_b.1 with_a with_a-IsLinked refl

-- The cache of one pair, given one word twice and then another: the second eviction looks for the
-- word of an old node that the map has lost, and erases `end()`.
lost_node :
    (insert_cache true pair_a (record with_a { cache_size = 1 }) >>= insert_cache true pair_b)
    ≡ none
unfolding program
lost_node = refl

insert_cache_twice_example :
    (d : Cache) × (old : List Word) × (insert_cache true pair_a with_a ≡ some d)
    × (d.lru_list ≡ record { id = 1; pair = pair_a } ∷ with_a.lru_list)
    × (deref 0 with_a.lru_list ≡ some (pair_a.0, old))
    × (lookup pair_a.0 d.updater_map ≡ some 1)
    × ¬ IsLinked d
unfolding program
insert_cache_twice_example =
    insert_cache_twice true pair_a.0 pair_a.1 with_a 0 with_a-IsLinked refl (omega arith)

-- A first cache with `pair_a`, and one other cache, which found `pair_b`.
abbrev two_caches : Caches
two_caches = record {
  first = with_a;
  others = record with_a { new_search_list = pair_b ∷ [] } ∷ [];
}

two_caches-IsQuiet : IsQuiet two_caches
two_caches-IsQuiet = record {
  linked = with_a-IsLinked;
  first_quiet = refl;
  others_quiet = (refl, tt);
  sizes = (refl, tt);
}

merged_pairs : ideal_merge 2 (pair_b ∷ []) (pair_a ∷ []) ≡ pair_b ∷ pair_a ∷ []
unfolding ideal_merge program
merged_pairs = refl

update_cache-Serves_example :
    (t : Caches) × (written : List SearchRetPair) × (update_cache two_caches ≡ some (t, written))
    × Serves (ideal_merge 2 (all_news two_caches.others) (pair_a ∷ [])) t.first
    × All (Serves (ideal_merge 2 (all_news two_caches.others) (pair_a ∷ []))) t.others
    × All (λ c. c.new_search_list ≡ []) t.others
update_cache-Serves_example = update_cache-Serves two_caches two_caches-IsQuiet

update_cache-IsFrozen_example :
    (t : Caches) × (written : List SearchRetPair) × (update_cache two_caches ≡ some (t, written))
    × (t.first.update ≡ false)
    × All (λ c. c.update ≡ true) t.others
    × All IsFrozen t.others
update_cache-IsFrozen_example = update_cache-IsFrozen two_caches two_caches-IsQuiet
