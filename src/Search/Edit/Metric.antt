-- ===== src/Search/Edit/Metric.antt =====
-- What callers of `MinEdit` may rely on: its result is a distance, within the lengths of the words.
use kwd_server.Base.{
  ℕ, ◌-◌, ◌+◌, ◌≤◌, max, ◌≡◌, refl, sym, ap, ◌∙◌, ◌↔◌, some, List, [], ◌∷◌, arith, length,
}
use mathlib.Core.Option.{some-injective}
use kwd_server.Search.Edit.{min_edit}
use kwd_server.Search.Edit.Script.{
  Script, done, keep, replace, delete, insert, lev, lev-le, lev_attained, Script-sym, Script-trans,
}
use kwd_server.Search.Edit.Table.{min_edit-eq-lev}

-- For every two words `MinEdit` has a result, with no access outside its table and no read of a
-- cell that was not written; the result is the length of a script of insertions, deletions and
-- replacements that turns the first word into the second, and no such script is shorter.
pub min_edit_least :
    (a b : List ℕ)
    → (d : ℕ) × (min_edit a b ≡ some d) × Script a b d × ((n : ℕ) → Script a b n → d ≤ n)
min_edit_least a b = (lev a b, min_edit-eq-lev a b, lev_attained a b, λ n s. lev-le s)

lev_comm : (a b : List ℕ) → lev a b ≡ lev b a
lev_comm a b =
    omega (arith, lev-le (Script-sym (lev_attained a b)), lev-le (Script-sym (lev_attained b a)))

Script-zero : {a b : List ℕ} {n : ℕ} → Script a b n → n ≡ 0 → a ≡ b
Script-zero done e = refl
Script-zero (keep x s) e = ap (◌∷◌ x) (Script-zero s e)
Script-zero (replace x y s) e = absurd (omega arith)
Script-zero (delete x s) e = absurd (omega arith)
Script-zero (insert y s) e = absurd (omega arith)

Script-refl : (a : List ℕ) → Script a a 0
Script-refl [] = done
Script-refl (x ∷ a) = keep x (Script-refl a)

-- The results of `MinEdit` are a distance on words: it is 0 exactly between equal words, it does
-- not depend on the order of its arguments, and it obeys the triangle inequality.
pub min_edit_metric :
    (a b c : List ℕ) (d e f : ℕ)
    → min_edit a b ≡ some d
    → min_edit b c ≡ some e
    → min_edit a c ≡ some f
    → ((d ≡ 0) ↔ (a ≡ b)) × (min_edit b a ≡ some d) × (f ≤ d + e)
min_edit_metric a b c d e f hd he hf = (zero_iff, comm, triangle)
  where
    d-lev : d ≡ lev a b
    d-lev = some-injective _ _ (sym hd ∙ min_edit-eq-lev a b)

    zero_iff : (d ≡ 0) ↔ (a ≡ b)
    zero_iff = (
      (λ h. Script-zero (lev_attained a b) (sym d-lev ∙ h)),
      (λ h. let z : lev a b ≤ 0 = rw h (lev-le (Script-refl b)) in omega (arith, d-lev, z)),
    )

    comm : min_edit b a ≡ some d
    comm = min_edit-eq-lev b a ∙ ap some (lev_comm b a ∙ sym d-lev)

    triangle : f ≤ d + e
    triangle =
        let (k, h, s) = Script-trans (lev_attained a b) (lev_attained b c) in
        let e-lev : e ≡ lev b c = some-injective _ _ (sym he ∙ min_edit-eq-lev b c) in
        let f-lev : f ≡ lev a c = some-injective _ _ (sym hf ∙ min_edit-eq-lev a c) in
        omega (arith, d-lev, lev-le s)

Script-bounds :
    {a b : List ℕ} {n : ℕ} → Script a b n → (length a ≤ length b + n) × (length b ≤ length a + n)
Script-bounds done = omega arith
Script-bounds (keep x s) = omega (arith, Script-bounds s)
Script-bounds (replace x y s) = omega (arith, Script-bounds s)
Script-bounds (delete x s) = omega (arith, Script-bounds s)
Script-bounds (insert y s) = omega (arith, Script-bounds s)

lev-le-max : (a b : List ℕ) → lev a b ≤ max (length a) (length b)
unfolding lev
lev-le-max [] b = omega arith
lev-le-max (x ∷ a) [] = omega arith
lev-le-max (x ∷ a) (y ∷ b) = ground (arith, lev-le-max a b)

-- The result is at least the difference of the lengths of the words, and at most the greater
-- length: words whose lengths fit an `int` have a distance that fits.
min_edit_bounds :
    (a b : List ℕ) (d : ℕ)
    → min_edit a b ≡ some d
    → (length a - length b ≤ d) × (length b - length a ≤ d) × (d ≤ max (length a) (length b))
min_edit_bounds a b d h =
    let e : d ≡ lev a b = some-injective _ _ (sym h ∙ min_edit-eq-lev a b) in
    omega (arith, e, Script-bounds (lev_attained a b), lev-le-max a b)
