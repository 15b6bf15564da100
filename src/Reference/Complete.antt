-- ===== src/Reference/Complete.antt =====
-- The index lists a position under a key exactly when the dictionary word there has the key.
use kwd_server.Base.{
  ℕ, zero, suc, ◌+◌, ◌<◌, ◌≡◌, refl, sym, ap, subst, subst₂, ◌⊎◌, inl, inr, ◌↔◌, Bool-cases, Option,
  none, some, List, [], ◌∷◌, length, get_elem?, arith, Word, word_eq, word_eq_iff, lookup,
  lookup-assign, In, if◌then◌else◌,
}
use kwd_server.Search.Handle.{Index}
use kwd_server.Search.Handle.Sets.{insert, In-insert, In-of_insert}
use kwd_server.Search.Handle.Hits.{IsIndexed}
use kwd_server.Search.Handle.Best.{FoundBy}
use kwd_server.Reference.{positions_of, add_ref, word_keys, add_refs, set_ref_from, set_ref}

positions_of-add_ref :
    (key k : Word) (i : ℕ) (refs : List (Word × List ℕ))
    → positions_of k (add_ref key i refs)
      ≡ (if word_eq key k then insert i (positions_of k refs) else positions_of k refs)
unfolding positions_of add_ref
positions_of-add_ref key k i refs = elim (Bool-cases (word_eq key k)) [
  | inl same ↦
      let e : key ≡ k = (word_eq_iff key k).0 same in
      rw (lookup-assign, same, positions_of) (ap (λ q. insert i (positions_of q refs)) e)
  | inr other ↦ rw (lookup-assign, other, positions_of)
]

In-add_ref :
    (key k : Word) (i j : ℕ) (refs : List (Word × List ℕ))
    → In j (positions_of k (add_ref key i refs))
      ↔ (((k ≡ key) × (j ≡ i)) ⊎ In j (positions_of k refs))
In-add_ref key k i j refs = elim (Bool-cases (word_eq key k)) [
  | inl same ↦
      let e : key ≡ k = (word_eq_iff key k).0 same in
      rw (positions_of-add_ref, same)
        (
          (λ h. elim (In-of_insert j i (positions_of k refs) h) [
            | inl at ↦ inl (sym e, at)
            | inr old ↦ inr old
          ]),
          elim [
            | inl (_, at) ↦ In-insert j i (positions_of k refs) (inl at)
            | inr old ↦ In-insert j i (positions_of k refs) (inr old)
          ],
        )
  | inr other ↦
      rw (positions_of-add_ref, other)
        (
          (λ h. inr h),
          elim [ inl (e, _) ↦ absurd (cc (other, (word_eq_iff key k).1 (sym e))) | inr old ↦ old ],
        )
]

In-add_refs :
    (keys : List Word) (k : Word) (i j : ℕ) (refs : List (Word × List ℕ))
    → In j (positions_of k (add_refs keys i refs))
      ↔ ((In k keys × (j ≡ i)) ⊎ In j (positions_of k refs))
unfolding add_refs
In-add_refs [] k i j refs = ((λ h. inr h), elim [ inl h ↦ absurd h.0 | inr h ↦ h ])
In-add_refs (key ∷ keys) k i j refs =
    let rest = In-add_refs keys k i j (add_ref key i refs) in
    let here = In-add_ref key k i j refs in
    (
      (λ h. elim (rest.0 h) [
        | inl (m, e) ↦ inl (inr m, e)
        | inr g ↦ elim (here.0 g) [ inl (m, e) ↦ inl (inl m, e) | inr f ↦ inr f ]
      ]),
      elim [
        | inl (inl m, e) ↦ rest.1 (inr (here.1 (inl (m, e))))
        | inl (inr m, e) ↦ rest.1 (inl (m, e))
        | inr g ↦ rest.1 (inr (here.1 (inr g)))
      ],
    )

-- The dictionary word at position `j`, counted from `i`, has the key.
abbrev HasKey : (ℕ → List Word) → ℕ → List (Word × ℕ) → Word → ℕ → Type 0
HasKey overrun i [] k j = ⊥
HasKey overrun i ((word, cnt) ∷ dict) k j =
    (In k (word_keys (overrun i) word) × (j ≡ i)) ⊎ HasKey overrun (suc i) dict k j

In-set_ref_from :
    (overrun : ℕ → List Word) (i : ℕ) (dict : List (Word × ℕ)) (refs : List (Word × List ℕ))
    (k : Word) (j : ℕ)
    → In j (positions_of k (set_ref_from overrun i dict refs))
      ↔ (HasKey overrun i dict k j ⊎ In j (positions_of k refs))
unfolding set_ref_from
In-set_ref_from overrun i [] refs k j = ((λ h. inr h), elim [ inl h ↦ absurd h | inr h ↦ h ])
In-set_ref_from overrun i ((word, cnt) ∷ dict) refs k j =
    let keys = word_keys (overrun i) word in
    let rest = In-set_ref_from overrun (suc i) dict (add_refs keys i refs) k j in
    let here = In-add_refs keys k i j refs in
    (
      (λ h. elim (rest.0 h) [
        | inl m ↦ inl (inr m)
        | inr g ↦ elim (here.0 g) [ inl m ↦ inl (inl m) | inr f ↦ inr f ]
      ]),
      elim [
        | inl (inl m) ↦ rest.1 (inr (here.1 (inl m)))
        | inl (inr m) ↦ rest.1 (inl m)
        | inr g ↦ rest.1 (inr (here.1 (inr g)))
      ],
    )

-- The dictionary word at a position has the key.
pub record WordHasKey (overrun : ℕ → List Word) (dict : List (Word × ℕ)) (k : Word) (j : ℕ)
    : Type 0 where
  pub word : Word
  pub count : ℕ
  pub entry : get_elem? dict j ≡ some (word, count)
  pub has_key : In k (word_keys (overrun j) word)

HasKey-to :
    (overrun : ℕ → List Word) (i : ℕ) (dict : List (Word × ℕ)) (k : Word) (j : ℕ)
    → HasKey overrun i dict k j
    → (p : ℕ) × (word : Word) × (cnt : ℕ) × (j ≡ i + p)
      × (get_elem? dict p ≡ some (word, cnt))
      × In k (word_keys (overrun j) word)
HasKey-to overrun i [] k j h = absurd h
HasKey-to overrun i ((word, cnt) ∷ dict) k j (inl h) = (
  0,
  word,
  cnt,
  omega (arith, h.1),
  refl,
  subst (λ n. In k (word_keys (overrun n) word)) (sym h.1) h.0,
)
HasKey-to overrun i ((word, cnt) ∷ dict) k j (inr h) =
    let (p, w, c, e, entry, m) = HasKey-to overrun (suc i) dict k j h in
    (suc p, w, c, omega (arith, e), entry, m)

HasKey-from :
    (overrun : ℕ → List Word) (i : ℕ) (dict : List (Word × ℕ)) (k : Word) (j p : ℕ) (word : Word)
    (cnt : ℕ)
    → j ≡ i + p
    → get_elem? dict p ≡ some (word, cnt)
    → In k (word_keys (overrun j) word)
    → HasKey overrun i dict k j
HasKey-from overrun i [] k j p word cnt e entry m = cc
HasKey-from overrun i ((w, c) ∷ dict) k j zero word cnt e entry m =
    let at : j ≡ i = omega arith in
    let same : word ≡ w = ground arith in
    inl (subst₂ (λ n v. In k (word_keys (overrun n) v)) at same m, at)
HasKey-from overrun i ((w, c) ∷ dict) k j (suc p) word cnt e entry m =
    inr (HasKey-from overrun (suc i) dict k j p word cnt (omega arith) entry m)

HasKey-iff :
    (overrun : ℕ → List Word) (dict : List (Word × ℕ)) (k : Word) (j : ℕ)
    → HasKey overrun 0 dict k j ↔ WordHasKey overrun dict k j
HasKey-iff overrun dict k j = (
  (λ h.
      let (p, w, c, e, entry, m) = HasKey-to overrun 0 dict k j h in
      let at : p ≡ j = omega arith in
      record {
        word = w;
        count = c;
        entry = subst (λ n. get_elem? dict n ≡ some (w, c)) at entry;
        has_key = m;
      }),
  (λ h. HasKey-from overrun 0 dict k j j h.word h.count (omega arith) h.entry h.has_key),
)

get_elem?-some-lt {ℓ} :
    {A : Type ℓ} (xs : List A) (i : ℕ) {a : A} → get_elem? xs i ≡ some a → i < length xs
get_elem?-some-lt [] i h = cc
get_elem?-some-lt (x ∷ xs) zero h = omega arith
get_elem?-some-lt (x ∷ xs) (suc i) h = omega (arith, get_elem?-some-lt xs i h)

listed : Option (List ℕ) → List ℕ
listed o = elim o [ none ↦ [] | some positions ↦ positions ]

FoundBy-positions_of :
    (index : Index) (k : Word) (j : ℕ) → FoundBy index k j ↔ In j (positions_of k index.refs)
unfolding positions_of listed
FoundBy-positions_of index k j =
    ((λ f. subst (λ o. In j (listed o)) (sym f.1) f.2), from (lookup k index.refs) refl)
  where
    from : (o : Option (List ℕ)) → lookup k index.refs ≡ o → In j (listed o) → FoundBy index k j
    from none e h = absurd h
    from (some positions) e h = (positions, e, h)

-- The index that `SetRef` builds from a dictionary lists a position under a key exactly when the
-- dictionary word at that position has the key, and so lists positions of the dictionary only.
pub set_ref_complete :
    (overrun : ℕ → List Word) (dict : List (Word × ℕ)) (limit : ℕ)
    → ((k : Word) (j : ℕ)
        → FoundBy (record { dict = dict; refs = set_ref overrun dict; limit = limit }) k j
          ↔ WordHasKey overrun dict k j)
      × IsIndexed (record { dict = dict; refs = set_ref overrun dict; limit = limit })
unfolding set_ref
set_ref_complete overrun dict limit = (
  exactly,
  λ key positions e i m. get_elem?-some-lt dict i ((exactly key i).0 (positions, e, m)).entry,
)
  where
    index : Index
    index = record { dict = dict; refs = set_ref_from overrun 0 dict []; limit = limit }

    exactly : (k : Word) (j : ℕ) → FoundBy index k j ↔ WordHasKey overrun dict k j
    exactly k j =
        let found = FoundBy-positions_of index k j in
        let set = In-set_ref_from overrun 0 dict [] k j in
        let iff = HasKey-iff overrun dict k j in
        (
          (λ f. iff.0 (elim (set.0 (found.0 f)) [
            | inl h ↦ h
            | inr g ↦ absurd (unfold positions_of lookup in g)
          ])),
          (λ h. found.1 (set.1 (inl (iff.1 h)))),
        )
