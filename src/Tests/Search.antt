-- ===== src/Tests/Search.antt =====
-- The search module at concrete inputs (src/search_module.cc).
use kwd_server.Base.{
  ℕ, ◌+◌, ◌≤◌, ◌≡◌, refl, ◌↔◌, inl, inr, some, [], ◌∷◌, map, arith, Bool-cases, Word, word_eq,
  lookup, In, loop, subst, sym,
}
use kwd_server.Search.Edit.{load, store, min3, substitution, fill_cell, fill_grid, min_edit}
use kwd_server.Search.Edit.Script.{Script}
use kwd_server.Search.Edit.Metric.{min_edit_least, min_edit_metric}
use kwd_server.Search.Rank.{SearchResult, result_gt, push, pop_words}
use kwd_server.Search.Handle.{
  Index, is_english, to_lower, char_key, too_far_eng, too_far_ch, collect_eng, collect_ch, keys_ch,
  chars_key, rank_positions, best_words, handle_eng, handle_ch, search_word,
}
use kwd_server.Search.Handle.Sets.{insert, insert_all}
use kwd_server.Search.Handle.Hits.{IsIndexed}
use kwd_server.Search.Handle.Best.{IsBest, FoundByKeys, handle_eng-IsBest, handle_ch-IsBest}

abbrev cache : Word
cache = b'c' ∷ b'a' ∷ b'c' ∷ b'h' ∷ b'e' ∷ []

abbrev catches : Word
catches = b'c' ∷ b'a' ∷ b't' ∷ b'c' ∷ b'h' ∷ b'e' ∷ b's' ∷ []

cache_to_other : (min_edit cache catches ≡ some 2) × (min_edit catches cache ≡ some 2)
unfolding min_edit fill_grid fill_cell load store loop min3 substitution
cache_to_other = (refl, refl)

cache_to_itself : min_edit cache cache ≡ some 0
unfolding min_edit fill_grid fill_cell load store loop min3 substitution
cache_to_itself = refl

min_edit_least_example :
    (d : ℕ) × (min_edit cache catches ≡ some d)
    × Script cache catches d
    × ((n : ℕ) → Script cache catches n → d ≤ n)
min_edit_least_example = min_edit_least cache catches

min_edit_metric_example :
    (◌≡◌ {A = ℕ} 2 0 ↔ (cache ≡ catches)) × (min_edit catches cache ≡ some 2) × (0 ≤ 2 + 2)
min_edit_metric_example =
    min_edit_metric cache catches cache 2 2 0 cache_to_other.0 cache_to_other.1 cache_to_itself

abbrev result : ℕ → ℕ → Word → SearchResult
result dis times word = record { min_edit_dis = dis; occur_times = times; word = word }

-- "to" with 3 occurrences and "tot" with 5, both listed under "t"
abbrev to : Word
to = b't' ∷ b'o' ∷ []

abbrev tot : Word
tot = b't' ∷ b'o' ∷ b't' ∷ []

abbrev small : Index
small = record { dict = (to, 3) ∷ (tot, 5) ∷ []; refs = (b't' ∷ [], 0 ∷ 1 ∷ []) ∷ []; limit = 5 }

small-IsIndexed : IsIndexed small
unfolding lookup
small-IsIndexed key positions h i m = elim (Bool-cases (word_eq (b't' ∷ []) key)) [
  | inl same ↦
      let e : 0 ∷ 1 ∷ [] ≡ positions = ground arith in
      let m' : In i (0 ∷ 1 ∷ []) = subst (In i) (sym e) m in ground arith
  | inr other ↦ absurd (ground arith)
]

search : Unit {0}
unfolding search_word handle_eng handle_ch best_words rank_positions collect_eng collect_ch keys_ch
    chars_key char_key too_far_eng too_far_ch is_english to_lower insert insert_all push pop_words
    result_gt lookup word_eq min_edit fill_grid fill_cell load store loop min3 substitution
search = tt

search_tat :
    search_word [] small (b'T' ∷ b'a' ∷ b't' ∷ []) ≡ some (b't' ∷ b'a' ∷ b't' ∷ [], tot ∷ to ∷ [])
unfolding search
search_tat = refl

handle_eng-IsBest_example :
    IsBest (FoundByKeys small (map char_key to)) small too_far_eng to (handle_eng small to)
handle_eng-IsBest_example = handle_eng-IsBest small to small-IsIndexed

-- three bytes of a Chinese character
abbrev character : Word
character = 228 ∷ 184 ∷ 128 ∷ []

handle_ch-IsBest_example :
    IsBest
      (FoundByKeys small (keys_ch character []))
      small
      too_far_ch
      character
      (handle_ch [] small character)
handle_ch-IsBest_example = handle_ch-IsBest [] small character small-IsIndexed
