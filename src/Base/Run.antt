-- ===== src/Base/Run.antt =====
-- Runs that may fail (an access outside an object, a read of memory that was never written), and
-- the counted `for` loop with its rule of total correctness.
use Prim.Native.Nat.{ℕ, zero, suc, ◌+◌, ◌≤◌, ◌<◌}
use mathlib.Core.Path.{◌≡◌, refl, ap, subst}
use mathlib.Core.Option.{Option, none, some}
use mathlib.Core.Bool.{Bool, false}
use kwd_server.Base.Tests.{if◌then◌else◌}
use native.Mathlib.Omega.{arith}

infixl 5 ◌>>=◌
abbrev pub ◌>>=◌ {ℓ κ} : {A : Type ℓ} {B : Type κ} → Option A → (A → Option B) → Option B
none >>= f = none
some a >>= f = f a

-- A guard that does not fail.
pub unguarded {ℓ} : {A : Type ℓ} {b : Bool} (r : Option A) → b ≡ false → (if b then none else r) ≡ r
unguarded r h = rw h

-- for (i = from; i < from + rounds; i++) body
unfoldable pub loop {ℓ} : {S : Type ℓ} → ℕ → ℕ → (ℕ → S → Option S) → S → Option S
loop zero from body s = some s
loop (suc rounds) from body s = body from s >>= loop rounds (suc from) body

-- The run has a result, and `P` holds of it.
pub data Ends {ℓ κ} {A : Type ℓ} (P : A → Type κ) : Option A → Type (ℓ ⊔ κ) where
  ends : (a : A) → P a → Ends P (some a)

module _ {ℓ κ} {A : Type ℓ} {P : A → Type κ} where
  pub Ends->>= {ℓ' κ'} :
      {B : Type ℓ'} {Q : B → Type κ'} {r : Option A} {f : A → Option B}
      → Ends P r
      → ((a : A) → P a → Ends Q (f a))
      → Ends Q (r >>= f)
  Ends->>= (ends a p) k = k a p

  pub Ends-map {κ'} : {Q : A → Type κ'} {r : Option A} → Ends P r → ((a : A) → P a → Q a) → Ends Q r
  Ends-map (ends a p) k = ends a (k a p)

  pub Ends-result : {r : Option A} → Ends P r → (a : A) × (r ≡ some a) × P a
  Ends-result (ends a p) = (a, refl, p)

pub Ends-eq {ℓ} : {A : Type ℓ} {x : A} {r : Option A} → Ends (λ y. y ≡ x) r → r ≡ some x
Ends-eq (ends a e) = ap some e

-- An invariant that every round keeps holds at the end, and no round fails.
pub Ends-loop {ℓ κ} :
    {S : Type ℓ} (Inv : ℕ → S → Type κ) (body : ℕ → S → Option S) (rounds from stop : ℕ) (s : S)
    → from + rounds ≡ stop
    → ((i : ℕ) (t : S) → from ≤ i → i < stop → Inv i t → Ends (Inv (suc i)) (body i t))
    → Inv from s
    → Ends (Inv stop) (loop rounds from body s)
unfolding loop
Ends-loop Inv body zero from stop s e keep start = ends s (subst (λ k. Inv k s) (omega arith) start)
Ends-loop Inv body (suc rounds) from stop s e keep start =
    Ends->>= (keep from s (omega arith) (omega arith) start) λ t here.
      Ends-loop Inv body rounds (suc from) stop t (omega arith) (λ i u lo. keep i u (omega arith))
        here
