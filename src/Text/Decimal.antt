-- ===== src/Text/Decimal.antt =====
-- Numbers that are written come back.
use kwd_server.Base.{
  ℕ, zero, suc, ◌+◌, ◌/◌, ◌%◌, ◌≤◌, ◌≡◌, ◌≢◌, refl, ap, ◌∙◌, true, false, [], ◌∷◌, ◌++◌, arith, All,
  All-map, Word, ◌==◌, Bool-cases, inl, inr,
}
use kwd_server.Text.Lines.{IsToken}
use kwd_server.Text.{
  blank, newline, is_space, skip_space, is_digit, to_other, value, ended, got, int_max, found_int,
  signed_int, read_int, digits, decimal,
}

-- What follows a number does not go on with a digit.
abbrev pub StopsDigits : Word → Type 0
StopsDigits [] = Unit
StopsDigits (c ∷ rest) = is_digit c ≡ false

abbrev pub AllDigits : Word → Type 0
AllDigits = All (λ c. is_digit c ≡ true)

to_other-append :
    (w rest : Word) → AllDigits w → StopsDigits rest → to_other (w ++ rest) ≡ (w, rest)
unfolding to_other
to_other-append [] [] h stop = refl
to_other-append [] (c ∷ rest) h stop = rw stop refl
to_other-append (d ∷ w) rest h stop = rw (h.0, to_other-append w rest h.1 stop)

digits-AllDigits : (fuel n : ℕ) (out : Word) → AllDigits out → AllDigits (digits fuel n out)
unfolding digits
digits-AllDigits zero n out h = h
digits-AllDigits (suc fuel) n out h = elim (Bool-cases (n == 0)) [
  | inl e ↦ rw e h
  | inr e ↦ rw e (digits-AllDigits fuel (n / 10) _ (ground arith, h))
]

-- The digits of `n` before some others, as a number.
value-digits : (fuel n : ℕ) (out : Word) → n ≤ fuel → value 0 (digits fuel n out) ≡ value n out
unfolding digits
value-digits zero n out h = ap (λ k. value k out) (omega arith)
value-digits (suc fuel) n out h = elim (Bool-cases (n == 0)) [
  | inl e ↦ rw e (ap (λ k. value k out) (ground arith))
  | inr e ↦ rw e (
      value-digits fuel (n / 10) ((b'0' + n % 10) ∷ out) (ground arith)
      ∙ ap (λ k. value k out) (ground arith))
]

digits-ne-nil : (fuel n : ℕ) (out : Word) → out ≢ [] → digits fuel n out ≢ []
unfolding digits
digits-ne-nil zero n out h = h
digits-ne-nil (suc fuel) n out h = elim (Bool-cases (n == 0)) [
  | inl e ↦ rw e h
  | inr e ↦ rw e (digits-ne-nil fuel (n / 10) _ (λ p. cc p))
]

decimal-AllDigits : (n : ℕ) → AllDigits (decimal n)
unfolding decimal
decimal-AllDigits n = elim (Bool-cases (n == 0)) [
  | inl e ↦ rw e (refl, tt)
  | inr e ↦ rw e (digits-AllDigits n n [] tt)
]

value-decimal : (n : ℕ) → value 0 (decimal n) ≡ n
unfolding decimal
value-decimal n = elim (Bool-cases (n == 0)) [
  | inl e ↦ rw e (ground arith)
  | inr e ↦ rw e (value-digits n n [] (omega arith))
]

decimal-ne-nil : (n : ℕ) → decimal n ≢ []
unfolding decimal digits
decimal-ne-nil zero = λ p. cc p
decimal-ne-nil (suc n) = elim (Bool-cases (suc n == 0)) [
  | inl e ↦ absurd (ground arith)
  | inr e ↦ rw e (digits-ne-nil n (suc n / 10) _ (λ p. cc p))
]

found_int-value :
    (w rest : Word) → w ≢ [] → value 0 w ≤ int_max → found_int (w, rest) ≡ got (value 0 w) rest
unfolding found_int
found_int-value [] rest h small = absurd (h refl)
found_int-value (c ∷ w) rest h small = ground arith

signed_int-digit :
    (w rest : Word)
    → w ≢ []
    → AllDigits w
    → signed_int (w ++ rest) ≡ found_int (to_other (w ++ rest))
unfolding signed_int
signed_int-digit [] rest h g = absurd (h refl)
signed_int-digit (c ∷ w) rest h g = ground (arith, g.0)

skip_space-digit : (w rest : Word) → w ≢ [] → AllDigits w → skip_space (w ++ rest) ≡ w ++ rest
unfolding skip_space
skip_space-digit [] rest h g = absurd (h refl)
skip_space-digit (c ∷ w) rest h g = ground (arith, g.0)

-- A number of type `int` behind a blank is read back, whatever follows but a digit.
pub read_int-decimal :
    (n : ℕ) (rest : Word)
    → n ≤ int_max
    → StopsDigits rest
    → read_int (blank ∷ (decimal n ++ rest)) ≡ got n rest
unfolding read_int skip_space
read_int-decimal n rest small stop =
    let some_digit = decimal-ne-nil n in
    let all_digits = decimal-AllDigits n in
    let same = value-decimal n in
    ap signed_int (skip_space-digit (decimal n) rest some_digit all_digits)
    ∙ signed_int-digit (decimal n) rest some_digit all_digits
    ∙ ap found_int (to_other-append (decimal n) rest all_digits stop)
    ∙ found_int-value (decimal n) rest some_digit (omega (arith, same))
    ∙ ap (λ k. got k rest) same

-- A printed number holds no newline.
pub decimal-line : (n : ℕ) → All (λ c. (c == newline) ≡ false) (decimal n)
decimal-line n =
    All-map (λ c. is_digit c ≡ true) (λ c. (c == newline) ≡ false) (decimal n) (λ c e. ground arith)
      (decimal-AllDigits n)

pub decimal-IsToken : (n : ℕ) → IsToken (decimal n)
decimal-IsToken n = (
  decimal-ne-nil n,
  All-map (λ c. is_digit c ≡ true) (λ c. is_space c ≡ false) (decimal n) (λ c e. ground arith)
      (decimal-AllDigits n),
)

pub read_int_nil : read_int [] ≡ ended
unfolding read_int skip_space signed_int
read_int_nil = refl
