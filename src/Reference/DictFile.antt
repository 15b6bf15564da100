-- ===== src/Reference/DictFile.antt =====
-- The dictionary that `WriteFile` writes and `SetDict` reads.
use kwd_server.Base.{
  ℕ, ◌≤◌, ◌≡◌, refl, sym, ap, ◌∙◌, some, List, [], ◌∷◌, ◌++◌, All, All-append, Word, ◌==◌, false,
}
use mathlib.Core.List.{append-nil}
use kwd_server.Text.{
  blank, newline, get_lines, lines_of, read_word, read_int, got, int_max, decimal,
}
use kwd_server.Text.Lines.{
  IsToken, get_lines-append, read_word-append, read_word-token, read_word-blank, IsToken-line,
}
use kwd_server.Text.Decimal.{read_int-decimal, decimal-line, decimal-IsToken, read_int_nil}
use kwd_server.DictCreator.{write_file}
use kwd_server.Reference.Files.{read_count, read_entry, read_entries, set_dict}

-- A word that `>>` reads whole, with a count of type `int`.
abbrev pub IsEntry : Word × ℕ → Type 0
IsEntry entry = IsToken entry.0 × (entry.1 ≤ int_max)

read_count-decimal : (n last : ℕ) → n ≤ int_max → read_count last (blank ∷ decimal n) ≡ some n
unfolding read_count
read_count-decimal n last h =
    let e : read_int (blank ∷ decimal n) ≡ got n [] =
      ap (λ s. read_int (blank ∷ s)) (sym (append-nil (decimal n))) ∙ read_int-decimal n [] h tt in
    rw (e, read_count)

read_entry_lem :
    (last : Word × ℕ) (word : Word) (n : ℕ)
    → IsEntry (word, n)
    → read_entry last (word ++ (blank ∷ decimal n)) ≡ some (word, n)
unfolding read_entry
read_entry_lem (w, m) word n (token, small) =
    rw
      (read_word-append word blank (decimal n) token refl, read_entry, read_count-decimal n m small)

read_entries-write_file :
    (last : Word × ℕ) (entries : List (Word × ℕ))
    → All IsEntry entries
    → read_entries last (get_lines (write_file entries)) ≡ some entries
unfolding read_entries write_file get_lines
read_entries-write_file last [] h = refl
read_entries-write_file last ((word, n) ∷ entries) h =
    let line =
      All-append (λ c. (c == newline) ≡ false) word (blank ∷ decimal n) (IsToken-line word h.0.0)
        (refl, decimal-line n) in
    rw (
      get_lines-append (word ++ (blank ∷ decimal n)) (write_file entries) line,
      read_entry_lem last word n h.0,
      read_entries-write_file (word, n) entries h.1,
    )

-- `SetDict` reads back every dictionary that `WriteFile` writes in some order, if its words are not
-- empty and hold no space, and its counts are of type `int`; whatever the count held before.
pub set_dict-write_file :
    (garbage : ℕ) (entries : List (Word × ℕ))
    → All IsEntry entries
    → set_dict garbage (some (write_file entries)) ≡ some entries
unfolding set_dict lines_of
set_dict-write_file garbage entries h = read_entries-write_file ([], garbage) entries h

read_entry-blank :
    (last : Word × ℕ) (n : ℕ)
    → read_entry last (blank ∷ (blank ∷ decimal n)) ≡ some (decimal n, last.1)
unfolding read_entry read_count
read_entry-blank (w, m) n =
    let word : read_word (blank ∷ (blank ∷ decimal n)) ≡ some (decimal n, []) =
      read_word-blank (blank ∷ decimal n)
      ∙ read_word-blank (decimal n)
      ∙ read_word-token (decimal n) (decimal-IsToken n) in
    rw (word, read_entry, read_int_nil, read_count)

get_lines-entry :
    (word : Word) (m : ℕ) (rest : Word)
    → IsEntry (word, m)
    → get_lines ((word ++ (blank ∷ decimal m)) ++ (newline ∷ rest))
      ≡ (word ++ (blank ∷ decimal m)) ∷ get_lines rest
get_lines-entry word m rest h = get_lines-append (word ++ (blank ∷ decimal m)) rest (
    All-append (λ c. (c == newline) ≡ false) word (blank ∷ decimal m) (IsToken-line word h.0)
      (refl, decimal-line m))

read_entries-blank :
    (last : Word × ℕ) (before after : List (Word × ℕ)) (word : Word) (m n : ℕ)
    → All IsEntry before
    → IsEntry (word, m)
    → All IsEntry after
    → read_entries last (get_lines (write_file (before ++ ((word, m) ∷ (blank ∷ [], n) ∷ after))))
      ≡ some (before ++ ((word, m) ∷ (decimal n, m) ∷ after))
unfolding read_entries write_file
read_entries-blank last [] after word m n all h others =
    let blank_line : All (λ c. (c == newline) ≡ false) (blank ∷ (blank ∷ decimal n)) =
      (refl, (refl, decimal-line n)) in
    rw (
      get_lines-entry word m _ h,
      read_entry_lem last word m h,
      get_lines-append (blank ∷ (blank ∷ decimal n)) (write_file after) blank_line,
      read_entry-blank (word, m) n,
      read_entries-write_file (decimal n, m) after others,
    )
read_entries-blank last ((first, l) ∷ before) after word m n all h others = rw (
  get_lines-entry first l _ all.0,
  read_entry_lem last first l all.0,
  read_entries-blank (first, l) before after word m n all.1 h others,
)

-- A dictionary word that is one blank, behind another entry and with any entries before and after these
-- two, is read back as a word that is its count, with the count of the entry before it; all other
-- entries are read back as they are, if their words are not empty and hold no space and their counts
-- are of type `int`.
pub set_dict-blank :
    (garbage : ℕ) (before after : List (Word × ℕ)) (word : Word) (m n : ℕ)
    → All IsEntry before
    → IsEntry (word, m)
    → All IsEntry after
    → set_dict garbage (some (write_file (before ++ ((word, m) ∷ (blank ∷ [], n) ∷ after))))
      ≡ some (before ++ ((word, m) ∷ (decimal n, m) ∷ after))
unfolding set_dict lines_of
set_dict-blank garbage before after word m n all h others =
    read_entries-blank ([], garbage) before after word m n all h others
