-- ===== src/Tests/Files.antt =====
-- The files at concrete inputs (src/reference_creator.cc, src/dict_creator.cc).
use kwd_server.Base.{ℕ, ◌≡◌, refl, some, List, [], ◌∷◌, Word, word_eq, lookup, assign, arith, All}
use kwd_server.Text.{
  blank, get_lines, skip_space, to_other, got, refused, below_zero, ended, found_int, negated,
  signed_int, read_int, digits, decimal,
}
use kwd_server.Text.Lines.{IsToken}
use kwd_server.Search.Handle.{is_english, char_key, keys_ch, chars_key}
use kwd_server.Search.Handle.Sets.{insert}
use kwd_server.DictCreator.{write_file}
use kwd_server.Reference.{positions_of, add_ref, word_keys, add_refs, set_ref_from, set_ref}
use kwd_server.Reference.Files.{set_dict, write_ref, read_ref}
use kwd_server.Base.{◌++◌}
use kwd_server.Reference.DictFile.{IsEntry, set_dict-blank}
use kwd_server.Reference.RefFile.{Refs, IsListed, OnceEach, read_ref-write_ref}
use kwd_server.Reference.Restart.{IsWalk, KeysAreTokens}

abbrev at : Word
at = b'a' ∷ b't' ∷ []

abbrev entries : List (Word × ℕ)
entries = (at, 30) ∷ (228 ∷ 184 ∷ 128 ∷ [], 1) ∷ (b't' ∷ [], 2) ∷ []

entries_text : write_file ((at, 30) ∷ []) ≡ b'a' ∷ b't' ∷ b' ' ∷ b'3' ∷ b'0' ∷ b'\n' ∷ []
unfolding write_file decimal digits
entries_text = refl

numbers :
    (read_int (b' ' ∷ b'+' ∷ b'7' ∷ b'x' ∷ []) ≡ got 7 (b'x' ∷ []))
    × (read_int (b'x' ∷ []) ≡ refused 0)
    × (read_int (b'-' ∷ b'1' ∷ []) ≡ below_zero)
    × (read_int (b' ' ∷ []) ≡ ended)
unfolding read_int skip_space signed_int to_other found_int negated
numbers = (refl, refl, refl, refl)

at-IsToken : IsToken at
at-IsToken = ((λ p. cc p), (refl, (refl, tt)))

entries-IsEntry : All IsEntry entries
entries-IsEntry = (
  (at-IsToken, omega arith),
  (
    (((λ p. cc p), (refl, (refl, (refl, tt)))), omega arith),
    ((((λ p. cc p), (refl, tt)), omega arith), tt),
  ),
)

-- The blank and its count 5, between "at" with 30 and the other entries, come back as "5" with 30.
set_dict-blank_example :
    set_dict 77 (some (write_file (entries ++ ((at, 30) ∷ (blank ∷ [], 5) ∷ entries))))
    ≡ some (entries ++ ((at, 30) ∷ (decimal 5, 30) ∷ entries))
set_dict-blank_example =
    set_dict-blank 77 entries entries at 30 5 entries-IsEntry entries-IsEntry.0 entries-IsEntry

abbrev refs : Refs
refs = (b'a' ∷ [], 0 ∷ []) ∷ (b't' ∷ [], 0 ∷ 2 ∷ []) ∷ (228 ∷ 184 ∷ 128 ∷ [], 1 ∷ []) ∷ []

refs-IsListed : All IsListed refs
refs-IsListed = (
  (((λ p. cc p), (refl, tt)), (λ p. cc p), (tt, tt), (omega arith, tt)),
  (
    (
      ((λ p. cc p), (refl, tt)),
      (λ p. cc p),
      ((omega arith, tt), (tt, tt)),
      (omega arith, (omega arith, tt)),
    ),
    ((((λ p. cc p), (refl, (refl, (refl, tt)))), (λ p. cc p), (tt, tt), (omega arith, tt)), tt),
  ),
)

refs-OnceEach : OnceEach refs
unfolding lookup word_eq
refs-OnceEach = (refl, (refl, (refl, tt)))

read_ref-write_ref_example : read_ref (get_lines (write_ref refs)) [] ≡ some refs
read_ref-write_ref_example = read_ref-write_ref refs refs-IsListed refs-OnceEach

abbrev nothing_behind : ℕ → List Word
nothing_behind i = []

built : set_ref nothing_behind entries ≡ refs
unfolding set_ref set_ref_from add_refs add_ref positions_of word_keys is_english char_key keys_ch
    chars_key insert lookup assign word_eq
built = refl

same-IsWalk : IsWalk (λ r. r) (set_ref nothing_behind entries)
unfolding set_ref set_ref_from add_refs add_ref positions_of word_keys is_english char_key keys_ch
    chars_key insert lookup assign word_eq
same-IsWalk = (refs-OnceEach, λ key. refl)

entries-KeysAreTokens : KeysAreTokens nothing_behind 0 entries
unfolding word_keys is_english char_key keys_ch chars_key
entries-KeysAreTokens = (
  (((λ p. cc p), (refl, tt)), (((λ p. cc p), (refl, tt)), tt)),
  (((((λ p. cc p), (refl, (refl, (refl, tt)))), tt)), (((((λ p. cc p), (refl, tt)), tt)), tt)),
)
