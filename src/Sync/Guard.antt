-- ===== src/Sync/Guard.antt =====
-- What a guard keeps.
use kwd_server.Base.{
  ℕ, ◌≡◌, ◌==◌, refl, ap, Bool, true, false, Option, none, some, List, [], ◌∷◌, if◌then◌else◌, Word,
  codes,
}
use kwd_server.Sync.{
  Pthreads, checked, mutex_lock_on, mutex_lock_off, condition_wait, notify, with_guard, wait_turn,
  after_test,
}

checked-fine :
    {S : Type 0} (str : Word) (result : ℕ × S) → result.0 ≡ 0 → checked str result ≡ (result.1, [])
unfolding checked
checked-fine str (ret, s) h = ap (λ n. (s, if n == 0 then [] else str ∷ [])) h

abbrev pub or_later : {A : Type 0} → Option (A × Bool) → Option A → Option A
or_later none later = later
or_later (some (a, notified)) later = some a

-- The first turn that the data allow.
abbrev pub first_turn : {Q A : Type 0} → (Q → Option (A × Bool)) → List Q → Option A
first_turn turn [] = none
first_turn turn (q ∷ later) = or_later (turn q) (first_turn turn later)

module _ (pthreads : Pthreads) where
  open pthreads use {
    State, lock, unlock, wait, signal, IsFree, IsHeld, lock-IsHeld, unlock-IsFree, wait-IsHeld,
    signal-IsHeld,
  }

  -- What a block that holds the mutex gives: nothing printed, and the mutex still held.
  abbrev Keeps : {A : Type 0} → Option A → Option (A × State × List Word) → Type 0
  Keeps none result = result ≡ none
  Keeps (some a) result = (s : State) × (result ≡ some (a, s, [])) × IsHeld s

  after_test-Keeps :
      {A : Type 0} (t : Option (A × Bool)) (rest : Option A)
      (again : State → Option (A × State × List Word))
      → ((s : State) → IsHeld s → Keeps rest (again s))
      → (s : State) → IsHeld s
      → Keeps (or_later t rest) (after_test pthreads t again s)
  unfolding after_test condition_wait notify
  after_test-Keeps none none again keeps s held = rw (
    checked-fine (codes "condition_wait: ") (wait s) (wait-IsHeld s held).0,
    keeps (wait s).1 (wait-IsHeld s held).1,
  )
  after_test-Keeps none (some a) again keeps s held =
      let (after, gives, kept) = keeps (wait s).1 (wait-IsHeld s held).1 in
      (
        after,
        rw (checked-fine (codes "condition_wait: ") (wait s) (wait-IsHeld s held).0, gives),
        kept,
      )
  after_test-Keeps (some (a, true)) rest again keeps s held = (_, refl, signal-IsHeld s held)
  after_test-Keeps (some (a, false)) rest again keeps s held = (s, refl, held)

  wait_turn-Keeps :
      {Q A : Type 0} (turn : Q → Option (A × Bool)) (found : List Q) (s : State)
      → IsHeld s
      → Keeps (first_turn turn found) (wait_turn pthreads turn found s)
  unfolding wait_turn
  wait_turn-Keeps turn [] s held = refl
  wait_turn-Keeps turn (q ∷ later) s held =
      after_test-Keeps (turn q) (first_turn turn later) (wait_turn pthreads turn later)
        (wait_turn-Keeps turn later) s held

  -- What a guarded block gives to a thread that does not hold the mutex: it stays in the block, or
  -- returns with nothing printed and the mutex free again.
  abbrev pub Releases : {A : Type 0} → Option A → Option (A × State × List Word) → Type 0
  Releases none result = result ≡ none
  Releases (some a) result = (s : State) × (result ≡ some (a, s, [])) × IsFree s

  with_guard-Releases :
      {A : Type 0} (value : Option A) (block : State → Option (A × State × List Word)) (s : State)
      → ((t : State) → IsHeld t → Keeps value (block t))
      → IsFree s
      → Releases value (with_guard pthreads block s)
  unfolding with_guard mutex_lock_on mutex_lock_off
  with_guard-Releases none block s keeps free =
      let (fine, held) = lock-IsHeld s free in
      rw (checked-fine (codes "Mutex_lock_on: ") (lock s) fine, keeps (lock s).1 held)
  with_guard-Releases (some a) block s keeps free =
      let (fine, held) = lock-IsHeld s free in
      let (after, gives, kept) = keeps (lock s).1 held in
      let (off, left) = unlock-IsFree after kept in
      (
        (unlock after).1,
        rw (
          checked-fine (codes "Mutex_lock_on: ") (lock s) fine,
          gives,
          checked-fine (codes "mutex_lock_off: ") (unlock after) off,
        ),
        left,
      )

  pub guarded_turn :
      {Q A : Type 0} (turn : Q → Option (A × Bool)) (found : List Q) (s : State)
      → IsFree s
      → Releases (first_turn turn found) (with_guard pthreads (wait_turn pthreads turn found) s)
  guarded_turn turn found s free =
      with_guard-Releases (first_turn turn found) (wait_turn pthreads turn found) s
        (wait_turn-Keeps turn found) free
