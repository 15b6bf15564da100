-- ===== src/Base/Words.antt =====
-- Strings of the source as lists of bytes: equality and the order of `std::string`, and maps and
-- sets keyed by them.
use Prim.Native.Char.{code}
use Prim.Native.String.{String}
use Prim.Native.Nat.{ℕ}
use mathlib.Core.Path.{◌≡◌, refl}
use mathlib.Core.Logic.{◌↔◌, ◌⊎◌, inl, inr}
use mathlib.Core.Bool.{Bool, true, false, ◌&&◌}
use mathlib.Core.Option.{Option, none, some}
use mathlib.Core.List.{List, [], ◌∷◌}
use native.Mathlib.Omega.{arith}
use kwd_server.Base.Tests.{Bool-cases, ltb, ◌==◌, if◌then◌else◌}

abbrev pub Word : Type 0
Word = List ℕ

-- The bytes of a literal.
abbrev pub codes : String → Word
codes String.[] = []
codes (String.◌∷◌ c s) = code c ∷ codes s

unfoldable pub word_eq : Word → Word → Bool
word_eq [] [] = true
word_eq (x ∷ a) (y ∷ b) = x == y && word_eq a b
word_eq _ _ = false

word_eq_sound : (a b : Word) → word_eq a b ≡ true → a ≡ b
unfolding word_eq
word_eq_sound [] [] h = refl
word_eq_sound [] (y ∷ b) h = cc
word_eq_sound (x ∷ a) [] h = cc
word_eq_sound (x ∷ a) (y ∷ b) h = ground (arith, word_eq_sound a b)

word_eq_refl : (a : Word) → word_eq a a ≡ true
unfolding word_eq
word_eq_refl [] = refl
word_eq_refl (x ∷ a) = ground (arith, word_eq_refl a)

pub word_eq_iff : (a b : Word) → (word_eq a b ≡ true) ↔ (a ≡ b)
word_eq_iff a b = (word_eq_sound a b, λ e. rw e (word_eq_refl b))

pub word_eq_ne : (a b : Word) → ¬ (a ≡ b) → word_eq a b ≡ false
word_eq_ne a b h = elim (Bool-cases (word_eq a b)) [
  | inl same ↦ absurd (h (word_eq_sound a b same))
  | inr other ↦ other
]

-- a > b, by unsigned bytes from the left; a proper prefix is the smaller
unfoldable pub word_gt : Word → Word → Bool
word_gt [] b = false
word_gt (x ∷ a) [] = true
word_gt (x ∷ a) (y ∷ b) = if x == y then word_gt a b else ltb y x

pub word_gt_irrefl : (a : Word) → word_gt a a ≡ false
unfolding word_gt
word_gt_irrefl [] = refl
word_gt_irrefl (x ∷ a) = ground (arith, word_gt_irrefl a)

pub word_gt_trans : (a b c : Word) → word_gt a b ≡ true → word_gt b c ≡ true → word_gt a c ≡ true
unfolding word_gt
word_gt_trans [] b c h k = cc
word_gt_trans (x ∷ a) [] c h k = cc
word_gt_trans (x ∷ a) (y ∷ b) [] h k = refl
word_gt_trans (x ∷ a) (y ∷ b) (z ∷ c) h k = ground (arith, word_gt_trans a b c)

pub word_gt_connected : (a b : Word) → word_gt a b ≡ false → word_gt b a ≡ false → a ≡ b
unfolding word_gt
word_gt_connected [] [] h k = refl
word_gt_connected [] (y ∷ b) h k = cc
word_gt_connected (x ∷ a) [] h k = cc
word_gt_connected (x ∷ a) (y ∷ b) h k = ground (arith, word_gt_connected a b)

-- `a` occurs in the list.
abbrev pub In : {A : Type 0} → A → List A → Type 0
In a [] = ⊥
In a (x ∷ xs) = (a ≡ x) ⊎ In a xs

-- std::unordered_map<string, V> as an association list.
module _ {ℓ} {V : Type ℓ} where
  unfoldable pub lookup : Word → List (Word × V) → Option V
  lookup k [] = none
  lookup k ((j, v) ∷ m) = if word_eq j k then some v else lookup k m

  -- m[k] = v
  unfoldable pub assign : Word → V → List (Word × V) → List (Word × V)
  assign k v [] = (k, v) ∷ []
  assign k v ((j, w) ∷ m) = if word_eq j k then (k, v) ∷ m else (j, w) ∷ assign k v m

  unfoldable pub erase : Word → List (Word × V) → List (Word × V)
  erase k [] = []
  erase k ((j, w) ∷ m) = if word_eq j k then erase k m else (j, w) ∷ erase k m

  pub lookup-assign :
      (k j : Word) (v : V) (m : List (Word × V))
      → lookup j (assign k v m) ≡ (if word_eq k j then some v else lookup j m)
  unfolding lookup assign
  lookup-assign k j v [] = refl
  lookup-assign k j v ((i, w) ∷ m) =
      ground (arith, word_eq_iff k j, word_eq_iff i k, word_eq_iff i j, lookup-assign k j v m)

  pub lookup-erase :
      (k j : Word) (m : List (Word × V))
      → lookup j (erase k m) ≡ (if word_eq k j then none else lookup j m)
  unfolding lookup erase
  lookup-erase k j [] = ground arith
  lookup-erase k j ((i, w) ∷ m) =
      ground (arith, word_eq_iff k j, word_eq_iff i k, word_eq_iff i j, lookup-erase k j m)
