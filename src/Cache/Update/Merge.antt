-- ===== src/Cache/Update/Merge.antt =====
-- The merge into the first cache, against the abstract cache.
use kwd_server.Base.{
  ℕ, ◌≡◌, refl, sym, ◌∙◌, ap, false, none, some, List, [], ◌∷◌, ◌++◌, map, All, Option-cases, inl,
  inr, Word, lookup, unguarded,
}
use kwd_server.Cache.{SearchRetPair, Cache}
use kwd_server.Cache.Linked.{IsLinked, Keeps-trans}
use kwd_server.Cache.Pairs.{pairs, ideal_insert, lookup-unmapped, lookup-mapped}
use kwd_server.Cache.Refine.{IsAfter, lru_new}
use kwd_server.Cache.Update.{write_to_first, merge_all}

-- A new pair is inserted unless its word is there.
abbrev pub ideal_write : ℕ → SearchRetPair → List SearchRetPair → List SearchRetPair
ideal_write size p v = elim (lookup p.0 v) [ none ↦ ideal_insert size p v | some _ ↦ v ]

unfoldable pub ideal_merge : ℕ → List SearchRetPair → List SearchRetPair → List SearchRetPair
ideal_merge size [] v = v
ideal_merge size (p ∷ news) v = ideal_merge size news (ideal_write size p v)

ideal_merge-append :
    (size : ℕ) (xs ys v : List SearchRetPair)
    → ideal_merge size (xs ++ ys) v ≡ ideal_merge size ys (ideal_merge size xs v)
unfolding ideal_merge
ideal_merge-append size [] ys v = refl
ideal_merge-append size (p ∷ xs) ys v = ideal_merge-append size xs ys (ideal_write size p v)

ideal_write_new :
    (size : ℕ) (p : SearchRetPair) (v : List SearchRetPair)
    → lookup p.0 v ≡ none
    → ideal_write size p v ≡ ideal_insert size p v
ideal_write_new size p v h = rw (h, ideal_write)

ideal_write_old :
    (size : ℕ) (p : SearchRetPair) (words : List Word) (v : List SearchRetPair)
    → lookup p.0 v ≡ some words
    → ideal_write size p v ≡ v
ideal_write_old size p words v h = rw (h, ideal_write)

write_to_first-IsAfter :
    (news : List SearchRetPair) (m : Cache)
    → IsLinked m
    → (d : Cache) × (write_to_first news m ≡ some d)
      × IsAfter m d (ideal_merge m.cache_size news (pairs m.lru_list))
unfolding write_to_first ideal_merge
write_to_first-IsAfter [] m k = (m, refl, record { linked = k; keeps = refl; view = refl })
write_to_first-IsAfter (p ∷ news) m k = elim (Option-cases (lookup p.0 m.updater_map)) [
  | inl absent ↦
      let (d, run, after) = lru_new p.0 p.1 m k absent in
      let (e, run', after') = write_to_first-IsAfter news d after.linked in
      (
        e,
        rw (absent, run) run',
        record {
          linked = after'.linked;
          keeps = Keeps-trans m d e after.keeps after'.keeps;
          view =
              after'.view
              ∙ ap (λ x. ideal_merge x.cache_size news (pairs d.lru_list)) after.keeps
              ∙ ap (ideal_merge m.cache_size news) (
                  after.view
                  ∙ sym (ideal_write_new m.cache_size p _ (lookup-unmapped p.0 m k absent)));
        },
      )
  | inr (iter, there) ↦
      let (e, run, after) = write_to_first-IsAfter news m k in
      let (words, found) = lookup-mapped p.0 m iter k there in
      (
        e,
        rw there run,
        record {
          linked = after.linked;
          keeps = after.keeps;
          view =
              after.view
              ∙ ap (ideal_merge m.cache_size news)
                  (sym (ideal_write_old m.cache_size p words (pairs m.lru_list) found));
        },
      )
]

-- What the caches found since the last update, in the order in which it is merged.
unfoldable pub all_news : List Cache → List SearchRetPair
all_news [] = []
all_news (c ∷ rest) = c.new_search_list ++ all_news rest

abbrev pub clear_news : Cache → Cache
clear_news c = record c { new_search_list = [] }

-- With no cache being read, the merge ends; the first cache is what the abstract merge of all news
-- makes of it, and the other caches lose their news.
pub merge_all-IsAfter :
    (others : List Cache) (m : Cache)
    → IsLinked m
    → All (λ c. c.is_reading ≡ false) others
    → (d : Cache) × (merge_all others m ≡ some (d, map clear_news others))
      × IsAfter m d (ideal_merge m.cache_size (all_news others) (pairs m.lru_list))
unfolding merge_all all_news ideal_merge
merge_all-IsAfter [] m k quiet = (m, refl, record { linked = k; keeps = refl; view = refl })
merge_all-IsAfter (c ∷ rest) m k quiet =
    let (d, run, after) = write_to_first-IsAfter c.new_search_list m k in
    let (e, run', after') = merge_all-IsAfter rest d after.linked quiet.1 in
    (
      e,
      unguarded _ quiet.0 ∙ (rw (run, run')),
      record {
        linked = after'.linked;
        keeps = Keeps-trans m d e after.keeps after'.keeps;
        view =
            after'.view
            ∙ ap (λ x. ideal_merge x.cache_size (all_news rest) (pairs d.lru_list)) after.keeps
            ∙ ap (ideal_merge m.cache_size (all_news rest)) after.view
            ∙ sym (
                ideal_merge-append m.cache_size c.new_search_list (all_news rest)
                  (pairs m.lru_list));
      },
    )
