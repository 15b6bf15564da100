-- ===== src/Search/Handle/View.antt =====
-- An index as what its map gives: the order of the entries in the map is forgotten.
use kwd_server.Base.{
  ℕ, ◌≡◌, refl, Bool, Option, List, [], ◌∷◌, Word, lookup, map, Bool-cases, inl, inr, Option-cases,
  get_elem?,
}
use mathlib.Core.Quot
use mathlib.Core.Quot.{Quot}
use kwd_server.Search.Edit.{min_edit}
use kwd_server.Search.Rank.{SearchResult}
use kwd_server.Search.Handle.{
  Index, is_english, to_lower, char_key, keys_ch, too_far_eng, too_far_ch, collect_eng, collect_ch,
  rank_positions, best_words, handle_eng, handle_ch, search_word,
}

-- Two indices over one dictionary that list the same positions under each key give the same answers.
module _ (dict : List (Word × ℕ)) (limit : ℕ) (refs refs' : List (Word × List ℕ))
    (same : (key : Word) → lookup key refs ≡ lookup key refs') where
  abbrev one : Index
  one = record { dict = dict; refs = refs; limit = limit }

  abbrev other : Index
  other = record { dict = dict; refs = refs'; limit = limit }

  collect_eng-eq : (word : Word) (s : List ℕ) → collect_eng one word s ≡ collect_eng other word s
  unfolding collect_eng
  collect_eng-eq [] s = refl
  collect_eng-eq (i ∷ word) s = rw (same (char_key i)) (collect_eng-eq word _)

  collect_ch-eq : (keys : List Word) (s : List ℕ) → collect_ch one keys s ≡ collect_ch other keys s
  unfolding collect_ch
  collect_ch-eq [] s = refl
  collect_ch-eq (key ∷ keys) s = rw (same key) (collect_ch-eq keys _)

  rank_positions-eq :
      (too_far : ℕ → Bool) (word : Word) (positions : List ℕ) (que : List SearchResult)
      → rank_positions one too_far word positions que
        ≡ rank_positions other too_far word positions que
  unfolding rank_positions
  rank_positions-eq too_far word [] que = refl
  rank_positions-eq too_far word (i ∷ positions) que = elim (Option-cases (get_elem? dict i)) [
    | inl missing ↦ rw missing
    | inr ((found, n), entry) ↦ elim (Option-cases (min_edit word found)) [
      | inl fails ↦ rw (entry, fails)
      | inr (dis, edit) ↦ rw (entry, edit) (rank_positions-eq too_far word positions _)
    ]
  ]

  best_words-eq :
      (too_far : ℕ → Bool) (word : Word) (positions : List ℕ)
      → best_words one too_far word positions ≡ best_words other too_far word positions
  unfolding best_words
  best_words-eq too_far word positions = rw (rank_positions-eq too_far word positions [])

  pub search_word-eq :
      (overrun : List Word) (word : Word)
      → search_word overrun one word ≡ search_word overrun other word
  unfolding search_word handle_eng handle_ch
  search_word-eq overrun word = elim (Bool-cases (is_english word)) [
    | inl english ↦
        rw (english, collect_eng-eq (map to_lower word) [])
          (best_words-eq too_far_eng (map to_lower word) _)
    | inr chinese ↦
        rw (chinese, collect_ch-eq (keys_ch word overrun) []) (best_words-eq too_far_ch word _)
  ]

-- Two maps that give the same under each key.
abbrev pub SameMap : List (Word × List ℕ) → List (Word × List ℕ) → Type 0
SameMap refs refs' = (key : Word) → lookup key refs ≡ lookup key refs'

-- The dictionary, the map and the limit of an index.
abbrev pub IndexView : Type 0
IndexView = List (Word × ℕ) × Quot SameMap × ℕ

abbrev pub view : Index → IndexView
view index = (index.dict, Quot.mk index.refs, index.limit)

-- `SearchWord` depends on the view only.
unfoldable pub search_view : List Word → Word → IndexView → Option (Word × List Word)
search_view overrun word (dict, refs, limit) =
    Quot.lift (hlevel)
      (λ r. search_word overrun (record { dict = dict; refs = r; limit = limit }) word)
      (λ r r' same. search_word-eq dict limit r r' same overrun word) refs
