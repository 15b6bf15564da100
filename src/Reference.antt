-- ===== src/Reference.antt =====
-- `RefFileCreator` (src/reference_creator.cc): the inverted index from keys to the positions of the
-- dictionary words that have them.
pub mod Complete
pub mod Search
pub mod Files
pub mod DictFile
pub mod RefFile
pub mod Restart
use kwd_server.Base.{
  ℕ, suc, Option, none, some, List, [], ◌∷◌, map, if◌then◌else◌, Word, lookup, assign,
}
use kwd_server.Search.Handle.{is_english, char_key, keys_ch}
use kwd_server.Search.Handle.Sets.{insert}

-- `ref_[key]`, where a key that is missing gets the empty set
unfoldable pub positions_of : Word → List (Word × List ℕ) → List ℕ
positions_of key refs = elim (lookup key refs) [ none ↦ [] | some positions ↦ positions ]

-- `ref_[key].insert(i)`
unfoldable pub add_ref : Word → ℕ → List (Word × List ℕ) → List (Word × List ℕ)
add_ref key i refs = assign key (insert i (positions_of key refs)) refs

-- The keys that the body of `SetRef` makes of a word: its bytes, or three bytes for each character.
-- As in `HandleCH`, `tmp` has no terminator, and `overrun` is what is read behind it.
unfoldable pub word_keys : List Word → Word → List Word
word_keys overrun word = if is_english word then map char_key word else keys_ch word overrun

unfoldable pub add_refs : List Word → ℕ → List (Word × List ℕ) → List (Word × List ℕ)
add_refs [] i refs = refs
add_refs (key ∷ keys) i refs = add_refs keys i (add_ref key i refs)

-- `SetRef` from position `i` on; `overrun` gives what is read for each position.
unfoldable pub set_ref_from :
    (ℕ → List Word) → ℕ → List (Word × ℕ) → List (Word × List ℕ) → List (Word × List ℕ)
set_ref_from overrun i [] refs = refs
set_ref_from overrun i ((word, word_cnt) ∷ dict) refs =
    set_ref_from overrun (suc i) dict (add_refs (word_keys (overrun i) word) i refs)

unfoldable pub set_ref : (ℕ → List Word) → List (Word × ℕ) → List (Word × List ℕ)
set_ref overrun dict = set_ref_from overrun 0 dict []
