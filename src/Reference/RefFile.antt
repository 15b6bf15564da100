-- ===== src/Reference/RefFile.antt =====
-- The index that `WriteRef` writes and `ReadRef` reads.
use kwd_server.Base.{
  ℕ, zero, suc, ◌≤◌, ◌<◌, ◌≡◌, ◌≢◌, refl, sym, ap, ◌∙◌, subst, none, some, List, [], ◌∷◌, ◌++◌,
  arith, All, All-append, Word, ◌==◌, false, Bool-cases, inl, inr, length, length-append, lookup,
  assign, word_eq, word_eq_iff,
}
use mathlib.Core.List.{append_assoc, append-nil}
use kwd_server.Text.{blank, newline, get_lines, int_max, decimal}
use kwd_server.Text.Lines.{IsToken, get_lines-append, read_word-append, IsToken-line}
use kwd_server.Text.Decimal.{StopsDigits, read_int-decimal, decimal-line, read_int_nil}
use kwd_server.Search.Handle.Sets.{insert}
use kwd_server.Reference.{positions_of, add_ref}
use kwd_server.Reference.Files.{positions_text, write_ref, read_positions, read_ref_line, read_ref}

abbrev pub Refs : Type 0
Refs = List (Word × List ℕ)

-- A set of positions of type `int`, as a list in ascending order.
abbrev pub Ascending : List ℕ → Type 0
Ascending [] = Unit
Ascending (i ∷ s) = All (λ j. i < j) s × Ascending s

-- An index that the file can hold: each key is a token that stands once, with an ascending list of
-- positions of type `int` that is not empty.
abbrev pub IsListed : Word × List ℕ → Type 0
IsListed (key, positions) =
    IsToken key × (positions ≢ []) × Ascending positions × All (λ i. i ≤ int_max) positions

abbrev pub IsNew : Word → Refs → Type 0
IsNew key refs = lookup key refs ≡ none

abbrev pub OnceEach : Refs → Type 0
OnceEach [] = Unit
OnceEach ((key, positions) ∷ refs) = IsNew key refs × OnceEach refs

module _ (key : Word) where
  lookup-append :
      (refs : Refs) (positions : List ℕ)
      → IsNew key refs
      → lookup key (refs ++ (key, positions) ∷ []) ≡ some positions
  unfolding lookup
  lookup-append [] positions h = rw ((word_eq_iff key key).1 refl)
  lookup-append ((k, s) ∷ refs) positions h = elim (Bool-cases (word_eq k key)) [
    | inl same ↦ absurd (cc (rw same at h))
    | inr other ↦ rw other (lookup-append refs positions (rw other at h))
  ]

  assign-new :
      (refs : Refs) (positions : List ℕ)
      → IsNew key refs
      → assign key positions refs ≡ refs ++ (key, positions) ∷ []
  unfolding lookup assign
  assign-new [] positions h = refl
  assign-new ((k, s) ∷ refs) positions h = elim (Bool-cases (word_eq k key)) [
    | inl same ↦ absurd (cc (rw same at h))
    | inr other ↦ rw other (ap (λ l. (k, s) ∷ l) (assign-new refs positions (rw other at h)))
  ]

  assign-append :
      (refs : Refs) (before positions : List ℕ)
      → IsNew key refs
      → assign key positions (refs ++ (key, before) ∷ []) ≡ refs ++ (key, positions) ∷ []
  unfolding lookup assign
  assign-append [] before positions h = rw ((word_eq_iff key key).1 refl)
  assign-append ((k, s) ∷ refs) before positions h = elim (Bool-cases (word_eq k key)) [
    | inl same ↦ absurd (cc (rw same at h))
    | inr other ↦
        rw other (ap (λ l. (k, s) ∷ l) (assign-append refs before positions (rw other at h)))
  ]

-- A greater number goes to the end of a set.
insert-greatest : (i : ℕ) (s : List ℕ) → All (λ j. j < i) s → insert i s ≡ s ++ i ∷ []
unfolding insert
insert-greatest i [] h = refl
insert-greatest i (j ∷ s) h = ground (arith, insert-greatest i s)

positions_text-stops : (positions : List ℕ) → StopsDigits (positions_text positions)
unfolding positions_text
positions_text-stops [] = tt
positions_text-stops (i ∷ positions) = refl

-- The first position of a key makes its entry.
add_ref-new :
    (key : Word) (i : ℕ) (refs : Refs)
    → IsNew key refs
    → add_ref key i refs ≡ refs ++ (key, i ∷ []) ∷ []
unfolding add_ref positions_of insert
add_ref-new key i refs h = rw (h, positions_of) (assign-new key refs (i ∷ []) h)

add_ref-next :
    (key : Word) (i : ℕ) (refs : Refs) (s : List ℕ)
    → IsNew key refs
    → All (λ j. j < i) s
    → add_ref key i (refs ++ (key, s) ∷ []) ≡ refs ++ (key, s ++ i ∷ []) ∷ []
unfolding add_ref positions_of
add_ref-next key i refs s h below =
    let there : positions_of key (refs ++ (key, s) ∷ []) ≡ s =
      rw (lookup-append key refs s h, positions_of) in
    rw (there, insert-greatest i s below) (assign-append key refs s (s ++ i ∷ []) h)

All-lt : (j i : ℕ) (s rest : List ℕ) → All (λ k. j < k) (s ++ (i ∷ rest)) → j < i
All-lt j i [] rest h = h.0
All-lt j i (k ∷ s) rest h = All-lt j i s rest h.1

Ascending-below : (i : ℕ) (s rest : List ℕ) → Ascending (s ++ (i ∷ rest)) → All (λ j. j < i) s
Ascending-below i [] rest h = tt
Ascending-below i (j ∷ s) rest h = (All-lt j i s rest h.0, Ascending-below i s rest h.1)

-- `ReadRef` collects the positions of a line behind those that the key has.
read_positions_lem :
    (rounds : ℕ) (key : Word) (s positions : List ℕ) (refs : Refs)
    → IsNew key refs
    → length (positions_text positions) ≤ rounds
    → Ascending (s ++ positions)
    → All (λ i. i ≤ int_max) positions
    → read_positions rounds key (positions_text positions) (refs ++ (key, s) ∷ [])
      ≡ some (refs ++ (key, s ++ positions) ∷ [])
unfolding read_positions positions_text
read_positions_lem zero key s [] refs h room up small = rw (append-nil s) refl
read_positions_lem (suc rounds) key s [] refs h room up small =
    rw (read_int_nil, read_positions, append-nil s) refl
read_positions_lem zero key s (i ∷ positions) refs h room up small = absurd (omega arith)
read_positions_lem (suc rounds) key s (i ∷ positions) refs h room up small =
    let longer = length-append (decimal i) (positions_text positions) in
    let assoc : (s ++ i ∷ []) ++ positions ≡ s ++ (i ∷ positions) =
      append_assoc s (i ∷ []) positions in
    rw
      (
        read_int-decimal i (positions_text positions) small.0 (positions_text-stops positions),
        read_positions,
        add_ref-next key i refs s h (Ascending-below i s positions up),
      )
      (read_positions_lem rounds key (s ++ i ∷ []) positions refs h (omega (arith, longer))
          (subst Ascending (sym assoc) up) small.1
        ∙ ap (λ l. some (refs ++ (key, l) ∷ [])) assoc)

-- A line of the file gives its entry back.
read_ref_line_lem :
    (key : Word) (positions : List ℕ) (refs : Refs)
    → IsListed (key, positions)
    → IsNew key refs
    → read_ref_line (key ++ positions_text positions) refs ≡ some (refs ++ (key, positions) ∷ [])
unfolding read_ref_line read_positions positions_text
read_ref_line_lem key [] refs listed h = absurd (listed.1 refl)
read_ref_line_lem key (i ∷ positions) refs (token, _, up, small) h =
    let text = decimal i ++ positions_text positions in
    let longer = length-append (decimal i) (positions_text positions) in
    rw
      (
        read_word-append key blank text token refl,
        read_ref_line,
        read_int-decimal i (positions_text positions) small.0 (positions_text-stops positions),
        read_positions,
        add_ref-new key i refs h,
      )
      (read_positions_lem (length text) key (i ∷ []) positions refs h (omega (arith, longer)) up
        small.1)

positions_text-line :
    (positions : List ℕ) → All (λ c. (c == newline) ≡ false) (positions_text positions)
unfolding positions_text
positions_text-line [] = tt
positions_text-line (i ∷ positions) = (
  refl,
  All-append (λ c. (c == newline) ≡ false) (decimal i) (positions_text positions) (decimal-line i)
      (positions_text-line positions),
)

-- None of the keys stands in the index.
abbrev pub AllNew : Refs → Refs → Type 0
AllNew keys refs = All (λ (entry : Word × List ℕ). IsNew entry.0 refs) keys

IsNew-append :
    (key other : Word) (s : List ℕ) (refs : Refs)
    → IsNew key refs
    → word_eq other key ≡ false
    → IsNew key (refs ++ (other, s) ∷ [])
unfolding lookup
IsNew-append key other s [] h differ = rw differ refl
IsNew-append key other s ((k, l) ∷ refs) h differ = elim (Bool-cases (word_eq k key)) [
  | inl same ↦ absurd (cc (rw same at h))
  | inr apart ↦ rw apart (IsNew-append key other s refs (rw apart at h) differ)
]

AllNew-append :
    (keys refs : Refs) (key : Word) (s : List ℕ)
    → AllNew keys refs
    → IsNew key keys
    → AllNew keys (refs ++ (key, s) ∷ [])
unfolding lookup
AllNew-append [] refs key s h new = tt
AllNew-append ((k, l) ∷ keys) refs key s h new = elim (Bool-cases (word_eq k key)) [
  | inl same ↦ absurd (cc (rw same at new))
  | inr apart ↦
      let differ : word_eq key k ≡ false = ground (arith, word_eq_iff key k, word_eq_iff k key) in
      (IsNew-append k key s refs h.0 differ, AllNew-append keys refs key s h.1 (rw apart at new))
]

read_ref_lem :
    (refs before : Refs)
    → All IsListed refs
    → OnceEach refs
    → AllNew refs before
    → read_ref (get_lines (write_ref refs)) before ≡ some (before ++ refs)
unfolding read_ref write_ref get_lines
read_ref_lem [] before listed once new = rw (append-nil before) refl
read_ref_lem ((key, s) ∷ refs) before listed once new =
    let line =
      All-append (λ c. (c == newline) ≡ false) key (positions_text s) (IsToken-line key listed.0.0)
        (positions_text-line s) in
    rw (
      get_lines-append (key ++ positions_text s) (write_ref refs) line,
      read_ref_line_lem key s before listed.0 new.0,
      read_ref_lem refs (before ++ (key, s) ∷ []) listed.1 once.1
          (AllNew-append refs before key s new.1 once.0),
      append_assoc before ((key, s) ∷ []) refs,
    )

AllNew-nil : (refs : Refs) → AllNew refs []
unfolding lookup
AllNew-nil [] = tt
AllNew-nil (entry ∷ refs) = (refl, AllNew-nil refs)

-- `ReadRef` reads back every index that `WriteRef` writes in some order, if each key stands once, is
-- not empty and holds no space, and has an ascending, not empty list of positions of type `int`.
pub read_ref-write_ref :
    (refs : Refs)
    → All IsListed refs
    → OnceEach refs
    → read_ref (get_lines (write_ref refs)) [] ≡ some refs
read_ref-write_ref refs listed once = read_ref_lem refs [] listed once (AllNew-nil refs)
