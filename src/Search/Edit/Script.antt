-- ===== src/Search/Edit/Script.antt =====
-- What the edit distance of two strings is, apart from any table: the least number of edits in a
-- script that turns one into the other.
use kwd_server.Base.{
  ℕ, suc, ◌+◌, ◌≤◌, min, ◌≡◌, refl, subst, ◌∙◌, List, [], ◌∷◌, ◌++◌, ◌==◌, ==_iff, Bool-cases, inl,
  inr, arith, if◌then◌else◌, length,
}
use mathlib.Core.List.{append-nil}
use mathlib.Core.Path.{subst₂}
use native.Mathlib.Nat.{suc-add, add-suc}
use native.Mathlib.Decide.{dec_le}

-- `Script a b n`: `n` insertions, deletions and replacements turn `a` into `b`.
pub data Script : List ℕ → List ℕ → ℕ → Type 0 where
  done : Script [] [] 0
  keep : {a b : List ℕ} {n : ℕ} (x : ℕ) → Script a b n → Script (x ∷ a) (x ∷ b) n
  replace : {a b : List ℕ} {n : ℕ} (x y : ℕ) → Script a b n → Script (x ∷ a) (y ∷ b) (suc n)
  delete : {a b : List ℕ} {n : ℕ} (x : ℕ) → Script a b n → Script (x ∷ a) b (suc n)
  insert : {a b : List ℕ} {n : ℕ} (y : ℕ) → Script a b n → Script a (y ∷ b) (suc n)

abbrev pub cost : ℕ → ℕ → ℕ
cost x y = if x == y then 0 else 1

-- The least number, by recursion on the two strings.
unfoldable pub lev : List ℕ → List ℕ → ℕ
lev [] b = length b
lev (x ∷ a) [] = suc (length a)
lev (x ∷ a) (y ∷ b) = min (min (suc (lev a (y ∷ b))) (suc (lev (x ∷ a) b))) (lev a b + cost x y)

pub lev-nil : (a : List ℕ) → lev a [] ≡ length a
unfolding lev
lev-nil [] = refl
lev-nil (x ∷ a) = refl

pub lev-cons :
    (x y : ℕ) (a b : List ℕ)
    → lev (x ∷ a) (y ∷ b)
      ≡ min (min (suc (lev a (y ∷ b))) (suc (lev (x ∷ a) b))) (lev a b + cost x y)
unfolding lev
lev-cons x y a b = refl

lev-le-insert : (a b : List ℕ) (y : ℕ) → lev a (y ∷ b) ≤ suc (lev a b)
unfolding lev
lev-le-insert [] b y = omega arith
lev-le-insert (x ∷ a) b y = omega arith

lev-le-delete : (a b : List ℕ) (x : ℕ) → lev (x ∷ a) b ≤ suc (lev a b)
unfolding lev
lev-le-delete a [] x = omega (arith, lev-nil a)
lev-le-delete a (y ∷ b) x = omega arith

lev-le-replace : (a b : List ℕ) (x y : ℕ) → lev (x ∷ a) (y ∷ b) ≤ lev a b + cost x y
unfolding lev
lev-le-replace a b x y = omega arith

-- No script is shorter than `lev`.
pub lev-le : {a b : List ℕ} {n : ℕ} → Script a b n → lev a b ≤ n
lev-le done = unfold lev in omega arith
lev-le (keep {a} {b} x s) = ground (arith, lev-le s, lev-le-replace a b x x)
lev-le (replace {a} {b} x y s) = ground (arith, lev-le s, lev-le-replace a b x y)
lev-le (delete {a} {b} x s) = omega (arith, lev-le s, lev-le-delete a b x)
lev-le (insert {a} {b} y s) = omega (arith, lev-le s, lev-le-insert a b y)

Script-min : {a b : List ℕ} (m n : ℕ) → Script a b m → Script a b n → Script a b (min m n)
Script-min {a} {b} m n s t = elim (dec_le m n) [
  | yes h ↦ subst (Script a b) (omega arith) s
  | no h ↦ subst (Script a b) (omega arith) t
]

Script-cost : {a b : List ℕ} (x y n : ℕ) → Script a b n → Script (x ∷ a) (y ∷ b) (n + cost x y)
Script-cost {a} {b} x y n s = elim (Bool-cases (x == y)) [
  | inl same ↦
      let equal : x ≡ y = (==_iff x y).0 same in
      rw same (
        subst (λ z. Script (x ∷ a) (z ∷ b) (n + 0)) equal
          (subst (Script (x ∷ a) (x ∷ b)) (omega arith) (keep x s)))
  | inr differ ↦ rw differ (subst (Script (x ∷ a) (y ∷ b)) (omega arith) (replace x y s))
]

-- Some script has exactly that length.
pub lev_attained : (a b : List ℕ) → Script a b (lev a b)
unfolding lev
lev_attained [] [] = done
lev_attained [] (y ∷ b) = insert y (lev_attained [] b)
lev_attained (x ∷ a) [] = delete x (subst (Script a []) (lev-nil a) (lev_attained a []))
lev_attained (x ∷ a) (y ∷ b) =
    Script-min _ _
      (Script-min _ _ (delete x (lev_attained a (y ∷ b))) (insert y (lev_attained (x ∷ a) b)))
      (Script-cost x y (lev a b) (lev_attained a b))

pub Script-sym : {a b : List ℕ} {n : ℕ} → Script a b n → Script b a n
Script-sym done = done
Script-sym (keep x s) = keep x (Script-sym s)
Script-sym (replace x y s) = replace y x (Script-sym s)
Script-sym (delete x s) = insert x (Script-sym s)
Script-sym (insert y s) = delete y (Script-sym s)

-- Two scripts in a row make one, of no more edits.
pub Script-trans :
    {a b c : List ℕ} {m n : ℕ} → Script a b m → Script b c n → (k : ℕ) × (k ≤ m + n) × Script a c k
Script-trans done done = (0, omega arith, done)
Script-trans done (insert z t) =
    let (k, h, u) = Script-trans done t in (suc k, omega arith, insert z u)
Script-trans (keep x s) (keep _ t) = let (k, h, u) = Script-trans s t in (k, omega arith, keep x u)
Script-trans (keep x s) (replace _ z t) =
    let (k, h, u) = Script-trans s t in (suc k, omega arith, replace x z u)
Script-trans (keep x s) (delete _ t) =
    let (k, h, u) = Script-trans s t in (suc k, omega arith, delete x u)
Script-trans (keep x s) (insert z t) =
    let (k, h, u) = Script-trans (keep x s) t in (suc k, omega arith, insert z u)
Script-trans (replace x y s) (keep _ t) =
    let (k, h, u) = Script-trans s t in (suc k, omega arith, replace x y u)
Script-trans (replace x y s) (replace _ z t) =
    let (k, h, u) = Script-trans s t in (suc k, omega arith, replace x z u)
Script-trans (replace x y s) (delete _ t) =
    let (k, h, u) = Script-trans s t in (suc k, omega arith, delete x u)
Script-trans (replace x y s) (insert z t) =
    let (k, h, u) = Script-trans (replace x y s) t in (suc k, omega arith, insert z u)
Script-trans (delete x s) t = let (k, h, u) = Script-trans s t in (suc k, omega arith, delete x u)
Script-trans (insert y s) (keep _ t) =
    let (k, h, u) = Script-trans s t in (suc k, omega arith, insert y u)
Script-trans (insert y s) (replace _ z t) =
    let (k, h, u) = Script-trans s t in (suc k, omega arith, insert z u)
Script-trans (insert y s) (delete _ t) = let (k, h, u) = Script-trans s t in (k, omega arith, u)
Script-trans (insert y s) (insert z t) =
    let (k, h, u) = Script-trans (insert y s) t in (suc k, omega arith, insert z u)

-- `turn a c` is `a` backwards, and then `c`.
unfoldable pub turn : List ℕ → List ℕ → List ℕ
turn [] c = c
turn (x ∷ a) c = turn a (x ∷ c)

Script-turn :
    {a b c d : List ℕ} {m n : ℕ}
    → Script a b m
    → Script c d n
    → Script (turn a c) (turn b d) (m + n)
unfolding turn
Script-turn {c} {d} done t = subst (Script c d) (omega arith) t
Script-turn (keep x s) t = Script-turn s (keep x t)
Script-turn (replace x y s) t = rw (suc-add, ← add-suc) (Script-turn s (replace x y t))
Script-turn (delete x s) t = rw (suc-add, ← add-suc) (Script-turn s (delete x t))
Script-turn (insert y s) t = rw (suc-add, ← add-suc) (Script-turn s (insert y t))

turn-turn : (a c d : List ℕ) → turn (turn a c) d ≡ turn c (a ++ d)
unfolding turn
turn-turn [] c d = refl
turn-turn (x ∷ a) c d = turn-turn a (x ∷ c) d

turn_twice : (a : List ℕ) → turn (turn a []) [] ≡ a
unfolding turn
turn_twice a = turn-turn a [] [] ∙ append-nil a

lev-turn-le : (a b : List ℕ) → lev (turn a []) (turn b []) ≤ lev a b
lev-turn-le a b = omega (arith, lev-le (Script-turn (lev_attained a b) done))

-- Read backwards, two strings are as far apart.
pub lev-turn : (a b : List ℕ) → lev (turn a []) (turn b []) ≡ lev a b
lev-turn a b = omega (
  arith,
  lev-turn-le a b,
  subst₂ (λ c d. lev c d ≤ lev (turn a []) (turn b [])) (turn_twice a) (turn_twice b)
      (lev-turn-le (turn a []) (turn b [])),
)
