-- ===== src/Search/Edit/Table.antt =====
-- The table of `MinEdit` is never accessed outside its bounds, every cell is written before it is
-- read, and the corner holds the least number of edits.
use kwd_server.Base.{
  ℕ, zero, suc, ◌+◌, ◌≤◌, ◌<◌, ◌≡◌, refl, ap, sym, ◌⊎◌, ◌∙◌, some, List, [], ◌∷◌, true, inl, inr,
  ltb, ◌==◌, ◌&&◌, if◌then◌else◌, false, Bool-cases, arith, length, get_elem?, get_elem?-lt, loop,
  Ends, ends, Ends->>=, Ends-map, Ends-loop, Ends-eq,
}
use kwd_server.Search.Edit.{
  Grid, allocate, load, store, min3, substitution, fill_cell, fill_grid, min_edit,
}
use native.Mathlib.Numerals.{sub-one}
use kwd_server.Search.Edit.Script.{lev, lev-nil, lev-cons, lev-turn, turn}

-- The first `n` items of a string, the last one first.
abbrev back : ℕ → List ℕ → List ℕ → List ℕ
back zero a c = c
back (suc n) [] c = c
back (suc n) (x ∷ a) c = back n a (x ∷ c)

back-suc :
    (n : ℕ) (a c : List ℕ) (x : ℕ) → get_elem? a n ≡ some x → back (suc n) a c ≡ x ∷ back n a c
back-suc n [] c x h = cc
back-suc zero (y ∷ a) c x h = ground arith
back-suc (suc n) (y ∷ a) c x h = back-suc n a (y ∷ c) x h

back-length : (a c : List ℕ) → back (length a) a c ≡ turn a c
unfolding turn
back-length [] c = refl
back-length (x ∷ a) c = back-length a (x ∷ c)

length-back : (n : ℕ) (a c : List ℕ) → n ≤ length a → length (back n a c) ≡ n + length c
length-back zero a c h = omega arith
length-back (suc n) [] c h = absurd (omega arith)
length-back (suc n) (x ∷ a) c h = omega (arith, length-back n a (x ∷ c))

both : (k i l j : ℕ) → (k == i && l == j) ≡ true → (k ≡ i) × (l ≡ j)
both k i l j h = ground arith

not_both : (k i l j : ℕ) → (k == i && l == j) ≡ false → ¬ ((k ≡ i) × (l ≡ j))
not_both k i l j h same = ground arith

module _ (a b : List ℕ) where
  abbrev dist : ℕ → ℕ → ℕ
  dist i j = lev (back i a []) (back j b [])

  dist-zero_left : (j : ℕ) → j ≤ length b → dist 0 j ≡ j
  unfolding lev
  dist-zero_left j h = omega (arith, length-back j b [])

  dist-zero_right : (i : ℕ) → i ≤ length a → dist i 0 ≡ i
  dist-zero_right i h = lev-nil (back i a []) ∙ omega (arith, length-back i a [])

  dist-suc :
      (i j x y : ℕ)
      → get_elem? a i ≡ some x
      → get_elem? b j ≡ some y
      → dist (suc i) (suc j)
        ≡ min3 (dist i (suc j) + 1) (dist (suc i) j + 1) (dist i j + substitution x y)
  unfolding min3 substitution
  dist-suc i j x y hx hy = rw (back-suc i a [] x hx, back-suc j b [] y hy, lev-cons) (ground arith)

  -- The table has its bounds, and its cells in `F` are written and hold distances.
  record Holds (F : ℕ → ℕ → Type 0) (t : Grid) : Type 0 where
    height : t.height ≡ length a + 1
    width : t.width ≡ length b + 1
    cells : (k l : ℕ) → F k l → t.cell k l ≡ some (dist k l)

  load-Holds :
      {F : ℕ → ℕ → Type 0} {t : Grid} (i j : ℕ)
      → Holds F t
      → i ≤ length a
      → j ≤ length b
      → F i j
      → load t i j ≡ some (dist i j)
  unfolding load
  load-Holds i j h hi hj f = ground (arith, h.cells i j f)

  store-Holds :
      {F G : ℕ → ℕ → Type 0} {t : Grid} (i j v : ℕ)
      → Holds F t
      → i ≤ length a
      → j ≤ length b
      → v ≡ dist i j
      → ((k l : ℕ) → G k l → ¬ ((k ≡ i) × (l ≡ j)) → F k l)
      → Ends (Holds G) (store t i j v)
  unfolding store
  store-Holds {F} {G} {t} i j v h hi hj e keep =
      rw inside (ends _ (record { height = h.height; width = h.width; cells = cells }))
    where
      inside : (ltb i t.height && ltb j t.width) ≡ true
      inside = ground arith

      cells :
          (k l : ℕ) → G k l → (if k == i && l == j then some v else t.cell k l) ≡ some (dist k l)
      cells k l g = elim (Bool-cases (k == i && l == j)) [
        | inl here ↦ let same = both k i l j here in rw (here, same.0, same.1) (ap some e)
        | inr other ↦ rw other (h.cells k l (keep k l g (not_both k i l j other)))
      ]

  -- The cells that are written when the loops reach `(i, j)`: the left column, the top row, the
  -- rows above `i`, and in row `i` the cells to the left of `j`.
  abbrev Before : ℕ → ℕ → ℕ → ℕ → Type 0
  Before i j k l = (k ≤ length a) × (l ≤ length b) × ((l ≡ 0) ⊎ (k < i) ⊎ ((k ≡ i) × (l < j)))

  abbrev Column : ℕ → ℕ → ℕ → Type 0
  Column i k l = (l ≡ 0) × (k < i)

  abbrev Row : ℕ → ℕ → ℕ → Type 0
  Row j k l = (k ≤ length a) × (l ≤ length b) × ((l ≡ 0) ⊎ ((k ≡ 0) × (l < j)))

  Holds-weaken :
      {F G : ℕ → ℕ → Type 0} {t : Grid} → ((k l : ℕ) → G k l → F k l) → Holds F t → Holds G t
  Holds-weaken g h = record {
    height = h.height;
    width = h.width;
    cells = λ k l q. h.cells k l (g k l q);
  }

  fill_cell-Holds :
      (i j : ℕ) (t : Grid)
      → i < length a
      → j < length b
      → Holds (Before (suc i) (suc j)) t
      → Ends (Holds (Before (suc i) (suc (suc j)))) (fill_cell a b (suc i) (suc j) t)
  unfolding fill_cell
  fill_cell-Holds i j t hi hj h =
      let (x, hx) = get_elem?-lt a i hi in
      let (y, hy) = get_elem?-lt b j hj in
      simp
        (
          sub-one,
          load-Holds i (suc j) h (omega arith) (omega arith) (omega arith),
          load-Holds (suc i) j h (omega arith) (omega arith) (omega arith),
          load-Holds i j h (omega arith) (omega arith) (omega arith),
          hx,
          hy,
        )
        (store-Holds (suc i) (suc j) _ h (omega arith) (omega arith) (sym (dist-suc i j x y hx hy))
          (λ k l g other. grind arith))

  fill_row-Holds :
      (i : ℕ) (t : Grid)
      → i < length a
      → Holds (Before (suc i) 1) t
      → Ends (Holds (Before (suc (suc i)) 1)) (loop (length b) 1 (fill_cell a b (suc i)) t)
  fill_row-Holds i t hi h =
      Ends-map
        (Ends-loop (λ j. Holds (Before (suc i) j)) (fill_cell a b (suc i)) (length b) 1
          (1 + length b) t refl step h)
        λ u done. Holds-weaken (λ k l g. grind arith) done
    where
      step :
          (j : ℕ) (u : Grid)
          → 1 ≤ j
          → j < 1 + length b
          → Holds (Before (suc i) j) u
          → Ends (Holds (Before (suc i) (suc j))) (fill_cell a b (suc i) j u)
      step zero u lo hj p = absurd (omega arith)
      step (suc j) u lo hj p = fill_cell-Holds i j u hi (omega arith) p

  fill_rows-Holds :
      (t : Grid)
      → Holds (Row (length b + 1)) t
      → Ends
          (Holds (Before (suc (length a)) 1))
          (loop (length a) 1 (λ i ptr. loop (length b) 1 (fill_cell a b i) ptr) t)
  fill_rows-Holds t h =
      Ends-loop (λ i. Holds (Before i 1)) _ (length a) 1 (suc (length a)) t (omega arith) step
        (Holds-weaken (λ k l g. grind arith) h)
    where
      step :
          (i : ℕ) (u : Grid)
          → 1 ≤ i
          → i < suc (length a)
          → Holds (Before i 1) u
          → Ends (Holds (Before (suc i) 1)) (loop (length b) 1 (fill_cell a b i) u)
      step zero u lo hi p = absurd (omega arith)
      step (suc i) u lo hi p = fill_row-Holds i u (omega arith) p

  Column-Holds :
      Ends
        (Holds (Column (length a + 1)))
        (loop (length a + 1) 0 (λ i ptr. store ptr i 0 i) (allocate (length a + 1) (length b + 1)))
  Column-Holds =
      Ends-loop (λ i. Holds (Column i)) _ (length a + 1) 0 (length a + 1) _ (omega arith)
        (λ i t lo hi h.
          store-Holds i 0 i h (omega arith) (omega arith) (sym (dist-zero_right i (omega arith)))
            (λ k l g other. grind arith))
        (record { height = refl; width = refl; cells = λ k l g. absurd (omega arith) })

  Row-Holds :
      (t : Grid)
      → Holds (Column (length a + 1)) t
      → Ends (Holds (Row (length b + 1))) (loop (length b + 1) 0 (λ i ptr. store ptr 0 i i) t)
  Row-Holds t h =
      Ends-loop (λ i. Holds (Row i)) _ (length b + 1) 0 (length b + 1) t (omega arith)
        (λ j u lo hj p.
          store-Holds 0 j j p (omega arith) (omega arith) (sym (dist-zero_left j (omega arith)))
            (λ k l g other. grind arith))
        (Holds-weaken (λ k l g. grind arith) h)

  fill_grid-Holds : Ends (Holds (Before (suc (length a)) 1)) (fill_grid a b)
  unfolding fill_grid
  fill_grid-Holds = Ends->>= Column-Holds λ t h. Ends->>= (Row-Holds t h) λ u p. fill_rows-Holds u p

  corner : dist (length a) (length b) ≡ lev a b
  corner = rw (back-length a [], back-length b []) (lev-turn a b)

  pub min_edit-eq-lev : min_edit a b ≡ some (lev a b)
  unfolding min_edit
  min_edit-eq-lev = Ends-eq (
      Ends->>= fill_grid-Holds λ t h.
        rw (load-Holds (length a) (length b) h (omega arith) (omega arith) (omega arith))
          (ends _ corner))
