-- ===== src/Tests/Reference.antt =====
-- The inverted index at a concrete dictionary (src/reference_creator.cc).
use kwd_server.Base.{ℕ, ◌≡◌, refl, ◌↔◌, List, [], ◌∷◌, Word, word_eq, lookup, assign}
use kwd_server.Search.Handle.{Index, is_english, char_key, keys_ch, chars_key}
use kwd_server.Search.Handle.Sets.{insert}
use kwd_server.Search.Handle.Hits.{IsIndexed}
use kwd_server.Search.Handle.Best.{FoundBy}
use kwd_server.Reference.{positions_of, add_ref, word_keys, add_refs, set_ref_from, set_ref}
use kwd_server.Reference.Complete.{WordHasKey, set_ref_complete}

abbrev dict : List (Word × ℕ)
dict = (b'a' ∷ b't' ∷ [], 3) ∷ (228 ∷ 184 ∷ 128 ∷ [], 1) ∷ (b't' ∷ [], 2) ∷ []

-- nothing is read behind the keys
abbrev nothing_behind : ℕ → List Word
nothing_behind i = []

built :
    set_ref nothing_behind dict
    ≡ (b'a' ∷ [], 0 ∷ []) ∷ (b't' ∷ [], 0 ∷ 2 ∷ []) ∷ (228 ∷ 184 ∷ 128 ∷ [], 1 ∷ []) ∷ []
unfolding set_ref set_ref_from add_refs add_ref positions_of word_keys is_english char_key keys_ch
    chars_key insert lookup assign word_eq
built = refl

set_ref_complete_example :
    ((k : Word) (j : ℕ)
      → FoundBy (record { dict = dict; refs = set_ref nothing_behind dict; limit = 5 }) k j
        ↔ WordHasKey nothing_behind dict k j)
    × IsIndexed (record { dict = dict; refs = set_ref nothing_behind dict; limit = 5 })
set_ref_complete_example = set_ref_complete nothing_behind dict 5

abbrev index : Index
index = record { dict = dict; refs = set_ref nothing_behind dict; limit = 5 }
