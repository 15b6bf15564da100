-- ===== src/Reference/Restart.antt =====
-- A second start of `RefFileCreator` over the files of the first.
use kwd_server.Base.{
  ℕ, suc, ◌+◌, ◌≤◌, ◌<◌, ◌≡◌, ◌≢◌, refl, sym, ap, ◌∙◌, subst, none, some, List, [], ◌∷◌, arith, All,
  All-map, Word, ◌==◌, false, Bool-cases, Option-cases, inl, inr, length, lookup, assign, word_eq,
  word_eq_iff, ltb, lookup-assign,
}
use kwd_server.Text.{int_max}
use kwd_server.Text.Lines.{IsToken}
use kwd_server.Search.Handle.Sets.{insert}
use kwd_server.DictCreator.{write_file}
use kwd_server.Reference.{positions_of, add_ref, word_keys, add_refs, set_ref_from, set_ref}
use kwd_server.Reference.Files.{write_ref, init}
use kwd_server.Reference.DictFile.{IsEntry, set_dict-write_file}
use kwd_server.Reference.RefFile.{Refs, Ascending, IsListed, IsNew, OnceEach, read_ref-write_ref}

insert-All : (P : ℕ → Type 0) (i : ℕ) (s : List ℕ) → P i → All P s → All P (insert i s)
unfolding insert
insert-All P i [] p h = (p, tt)
insert-All P i (j ∷ s) p h = elim (Bool-cases (i == j)) [
  | inl same ↦ rw same h
  | inr apart ↦ elim (Bool-cases (ltb i j)) [
    | inl before ↦ rw (apart, before) (p, h)
    | inr behind ↦ rw (apart, behind) (h.0, insert-All P i s p h.1)
  ]
]

insert-Ascending : (i : ℕ) (s : List ℕ) → Ascending s → Ascending (insert i s)
unfolding insert
insert-Ascending i [] h = (tt, tt)
insert-Ascending i (j ∷ s) h = elim (Bool-cases (i == j)) [
  | inl same ↦ rw same h
  | inr apart ↦ elim (Bool-cases (ltb i j)) [
    | inl before ↦
        rw (apart, before)
          ((ground arith, All-map (λ k. j < k) (λ k. i < k) s (λ k lt. ground arith) h.0), h)
    | inr behind ↦
        rw (apart, behind)
          (insert-All (λ k. j < k) i s (ground arith) h.0, insert-Ascending i s h.1)
  ]
]

insert-ne-nil : (i : ℕ) (s : List ℕ) → insert i s ≢ []
unfolding insert
insert-ne-nil i [] = λ p. cc p
insert-ne-nil i (j ∷ s) = ground arith

module _ (P : Word × List ℕ → Type 0) where
  assign-All :
      (key : Word) (s : List ℕ) (refs : Refs) → P (key, s) → All P refs → All P (assign key s refs)
  unfolding assign
  assign-All key s [] p h = (p, tt)
  assign-All key s ((k, l) ∷ refs) p h = elim (Bool-cases (word_eq k key)) [
    | inl same ↦ rw same (p, h.1)
    | inr apart ↦ rw apart (h.0, assign-All key s refs p h.1)
  ]

  lookup-All :
      (key : Word) (s : List ℕ) (refs : Refs) → lookup key refs ≡ some s → All P refs → P (key, s)
  unfolding lookup
  lookup-All key s [] e h = absurd (cc e)
  lookup-All key s ((k, l) ∷ refs) e h = elim (Bool-cases (word_eq k key)) [
    | inl same ↦ subst P (cc (rw same at e, (word_eq_iff k key).0 same)) h.0
    | inr apart ↦ lookup-All key s refs (rw apart at e) h.1
  ]

assign-OnceEach :
    (key : Word) (s : List ℕ) (refs : Refs) → OnceEach refs → OnceEach (assign key s refs)
unfolding assign lookup
assign-OnceEach key s [] h = (refl, tt)
assign-OnceEach key s ((k, l) ∷ refs) h = elim (Bool-cases (word_eq k key)) [
  | inl same ↦ rw same (subst (λ w. IsNew w refs) ((word_eq_iff k key).0 same) h.0, h.1)
  | inr apart ↦
      let differ : word_eq key k ≡ false = ground (arith, word_eq_iff key k, word_eq_iff k key) in
      rw apart (lookup-assign key k s refs ∙ rw differ h.0, assign-OnceEach key s refs h.1)
]

-- What `SetRef` keeps of the index.
abbrev pub IsWritable : Refs → Type 0
IsWritable refs = All IsListed refs × OnceEach refs

add_ref-IsWritable :
    (key : Word) (i : ℕ) (refs : Refs)
    → IsToken key
    → i ≤ int_max
    → IsWritable refs
    → IsWritable (add_ref key i refs)
unfolding add_ref positions_of lookup
add_ref-IsWritable key i refs token small (listed, once) = elim (Option-cases (lookup key refs)) [
  | inl fresh ↦
      let e : positions_of key refs ≡ [] = rw (fresh, positions_of) in rw e (grow [] tt tt)
  | inr (s, there) ↦
      let e : positions_of key refs ≡ s = rw (there, positions_of) in
      let (_, _, up, low) = lookup-All IsListed key s refs there listed in rw e (grow s up low)
]
  where
    grow :
        (s : List ℕ)
        → Ascending s
        → All (λ j. j ≤ int_max) s
        → IsWritable (assign key (insert i s) refs)
    grow s up low = (
      assign-All IsListed key (insert i s) refs
          (
            token,
            insert-ne-nil i s,
            insert-Ascending i s up,
            insert-All (λ j. j ≤ int_max) i s small low,
          )
          listed,
      assign-OnceEach key (insert i s) refs once,
    )

add_refs-IsWritable :
    (keys : List Word) (i : ℕ) (refs : Refs)
    → All IsToken keys
    → i ≤ int_max
    → IsWritable refs
    → IsWritable (add_refs keys i refs)
unfolding add_refs
add_refs-IsWritable [] i refs tokens small h = h
add_refs-IsWritable (key ∷ keys) i refs tokens small h =
    add_refs-IsWritable keys i (add_ref key i refs) tokens.1 small
      (add_ref-IsWritable key i refs tokens.0 small h)

-- The keys of all words are tokens, with what is read behind them.
abbrev pub KeysAreTokens : (ℕ → List Word) → ℕ → List (Word × ℕ) → Type 0
KeysAreTokens overrun i [] = Unit
KeysAreTokens overrun i ((word, word_cnt) ∷ dict) =
    All IsToken (word_keys (overrun i) word) × KeysAreTokens overrun (suc i) dict

set_ref_from-IsWritable :
    (overrun : ℕ → List Word) (i : ℕ) (dict : List (Word × ℕ)) (refs : Refs)
    → KeysAreTokens overrun i dict
    → i + length dict ≤ suc int_max
    → IsWritable refs
    → IsWritable (set_ref_from overrun i dict refs)
unfolding set_ref_from
set_ref_from-IsWritable overrun i [] refs tokens small h = h
set_ref_from-IsWritable overrun i ((word, word_cnt) ∷ dict) refs tokens small h =
    set_ref_from-IsWritable overrun (suc i) dict _ tokens.1 (omega arith)
      (add_refs-IsWritable (word_keys (overrun i) word) i refs tokens.0 (omega arith) h)

-- An entry of a map with each key once is what its key is mapped to.
All-of_lookup :
    (P : Word × List ℕ → Type 0) (refs : Refs)
    → OnceEach refs
    → ((key : Word) (s : List ℕ) → lookup key refs ≡ some s → P (key, s))
    → All P refs
unfolding lookup
All-of_lookup P [] once f = tt
All-of_lookup P ((k, l) ∷ refs) once f = (
  f k l (rw ((word_eq_iff k k).1 refl)),
  All-of_lookup P refs once.1 λ key s e. f key s (elim (Bool-cases (word_eq k key)) [
    | inl same ↦ absurd (cc (e, once.0, ap (λ w. lookup w refs) ((word_eq_iff k key).0 same)))
    | inr apart ↦ rw apart e
  ]),
)

-- A walk through a map passes each key once, with what it is mapped to.
abbrev pub IsWalk : (Refs → Refs) → Refs → Type 0
IsWalk walk refs = OnceEach (walk refs) × ((key : Word) → lookup key (walk refs) ≡ lookup key refs)

set_ref-IsWritable :
    (overrun : ℕ → List Word) (dict : List (Word × ℕ))
    → KeysAreTokens overrun 0 dict
    → length dict ≤ suc int_max
    → IsWritable (set_ref overrun dict)
unfolding set_ref
set_ref-IsWritable overrun dict tokens small =
    set_ref_from-IsWritable overrun 0 dict [] tokens (omega arith) (tt, tt)

-- Over a dictionary file of entries that can be read, with at most 2^31 words whose keys are not
-- empty and hold no space: the first start, without a file of the index, builds the index of the
-- dictionary and writes it in the order of a walk through the map; and a start over both files,
-- whatever is read behind the keys then, has the same dictionary and an index that maps each key
-- to the same positions, and leaves the file as it is.
pub init_again :
    (walk : Refs → Refs) (garbage garbage' : ℕ) (overrun overrun' : ℕ → List Word)
    → (entries : List (Word × ℕ)) → All IsEntry entries
    → KeysAreTokens overrun 0 entries
    → length entries ≤ suc int_max
    → IsWalk walk (set_ref overrun entries)
    → (again : Refs) × (ref_file : Word) × (init walk garbage overrun
          (some (write_file entries))
          none
        ≡ some (entries, set_ref overrun entries, ref_file))
      × (init walk garbage' overrun' (some (write_file entries)) (some ref_file)
          ≡ some (entries, again, ref_file))
      × ((key : Word) → lookup key again ≡ lookup key (set_ref overrun entries))
unfolding init
init_again walk garbage garbage' overrun overrun' entries readable tokens small (once, same) =
    let refs = set_ref overrun entries in
    let (listed, _) = set_ref-IsWritable overrun entries tokens small in
    let walked : All IsListed (walk refs) =
      All-of_lookup IsListed (walk refs) once
        λ key s e. lookup-All IsListed key s refs (sym (same key) ∙ e) listed in
    (
      walk refs,
      write_ref (walk refs),
      rw (set_dict-write_file garbage entries readable),
      rw (
        set_dict-write_file garbage' entries readable,
        read_ref-write_ref (walk refs) walked once,
      ),
      same,
    )
