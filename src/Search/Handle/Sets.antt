-- ===== src/Search/Handle/Sets.antt =====
-- `std::set<int>` as the list of its elements in ascending order.
use kwd_server.Base.{
  ℕ, ◌<◌, ◌≡◌, ◌⊎◌, inl, inr, List, [], ◌∷◌, arith, ltb, ◌==◌, if◌then◌else◌, In, All, All-map,
  Bool-cases,
}

unfoldable pub insert : ℕ → List ℕ → List ℕ
insert i [] = i ∷ []
insert i (j ∷ s) = if i == j then j ∷ s else (if ltb i j then i ∷ j ∷ s else j ∷ insert i s)

-- for (auto i : positions) s.insert(i)
unfoldable pub insert_all : List ℕ → List ℕ → List ℕ
insert_all [] s = s
insert_all (i ∷ positions) s = insert_all positions (insert i s)

pub In-insert : (k i : ℕ) (s : List ℕ) → (k ≡ i) ⊎ In k s → In k (insert i s)
unfolding insert
In-insert k i [] h = h
In-insert k i (j ∷ s) h = ground (arith, In-insert k i s)

pub In-of_insert : (k i : ℕ) (s : List ℕ) → In k (insert i s) → (k ≡ i) ⊎ In k s
unfolding insert
In-of_insert k i [] h = h
In-of_insert k i (j ∷ s) h = ground (arith, In-of_insert k i s)

pub In-insert_all :
    (k : ℕ) (positions s : List ℕ) → In k positions ⊎ In k s → In k (insert_all positions s)
unfolding insert_all
In-insert_all k [] s (inr h) = h
In-insert_all k [] s (inl h) = absurd h
In-insert_all k (i ∷ positions) s h = In-insert_all k positions (insert i s) (regroup h)
  where
    regroup : In k (i ∷ positions) ⊎ In k s → In k positions ⊎ In k (insert i s)
    regroup (inl (inl e)) = inr (In-insert k i s (inl e))
    regroup (inl (inr g)) = inl g
    regroup (inr g) = inr (In-insert k i s (inr g))

pub In-of_insert_all :
    (k : ℕ) (positions s : List ℕ) → In k (insert_all positions s) → In k positions ⊎ In k s
unfolding insert_all
In-of_insert_all k [] s h = inr h
In-of_insert_all k (i ∷ positions) s h = regroup (In-of_insert_all k positions (insert i s) h)
  where
    regroup : In k positions ⊎ In k (insert i s) → In k (i ∷ positions) ⊎ In k s
    regroup (inl g) = inl (inr g)
    regroup (inr g) = grind (arith, In-of_insert k i s g)

-- A set has each of its elements once, in ascending order.
abbrev pub Ascending : List ℕ → Type 0
Ascending [] = Unit
Ascending (i ∷ s) = All (λ j. i < j) s × Ascending s

All-insert : (P : ℕ → Type 0) (i : ℕ) (s : List ℕ) → P i → All P s → All P (insert i s)
unfolding insert
All-insert P i [] h k = (h, tt)
All-insert P i (j ∷ s) h k = elim (Bool-cases (i == j)) [
  | inl same ↦ rw same k
  | inr other ↦ elim (Bool-cases (ltb i j)) [
    | inl less ↦ rw (other, less) (h, k)
    | inr more ↦ rw (other, more) (k.0, All-insert P i s h k.1)
  ]
]

insert-Ascending : (i : ℕ) (s : List ℕ) → Ascending s → Ascending (insert i s)
unfolding insert
insert-Ascending i [] h = (tt, tt)
insert-Ascending i (j ∷ s) h = elim (Bool-cases (i == j)) [
  | inl same ↦ rw same h
  | inr other ↦ elim (Bool-cases (ltb i j)) [
    | inl less ↦
        let below : i < j = ground (arith, less) in
        rw (other, less) ((below, All-map (λ k. j < k) (λ k. i < k) s (λ k g. omega arith) h.0), h)
    | inr more ↦
        let above : j < i = ground (arith, other, more) in
        rw (other, more) (All-insert (λ k. j < k) i s above h.0, insert-Ascending i s h.1)
  ]
]

pub insert_all-Ascending : (positions s : List ℕ) → Ascending s → Ascending (insert_all positions s)
unfolding insert_all
insert_all-Ascending [] s h = h
insert_all-Ascending (i ∷ positions) s h =
    insert_all-Ascending positions (insert i s) (insert-Ascending i s h)
