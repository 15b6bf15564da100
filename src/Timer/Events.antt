-- ===== src/Timer/Events.antt =====
-- The events of a timer, and what a read and a stop make of it (src/timer.cc).
use kwd_server.Base.{
  ℕ, zero, suc, ◌≡◌, ◌≢◌, refl, ap, ◌⊎◌, inl, inr, true, false, Option, none, some, List, [], ◌∷◌,
  arith, All, ◌==◌, if◌then◌else◌, Bool-cases,
}
use kwd_server.Timer.{Timer, set_timer, stop, read_fd, failed, readable, Event, polled, stopped}

-- How many calls of `poll` find the timer readable, whatever `read` gives then.
abbrev pub readable_polls : List Event → ℕ
readable_polls [] = 0
readable_polls (polled (readable num) ∷ events) = suc (readable_polls events)
readable_polls (event ∷ events) = readable_polls events

abbrev pub iterate {ℓ} : {A : Type ℓ} → ℕ → (A → A) → A → A
iterate zero f a = a
iterate (suc n) f a = iterate n f (f a)

-- No call of `poll` fails.
abbrev pub Polls : List Event → Type 0
Polls = All (λ event. event ≢ polled failed)

-- A timer that has been stopped is not armed.
abbrev pub IsDisarmed : Timer → Type 0
IsDisarmed t = (t.is_stop ≡ true) × (t.armed ≡ (0, 0))

-- Neither another thread stops the timer, nor a read gives ten, nor `poll` fails.
abbrev pub IsCalm : Event → Type 0
IsCalm event = (event ≢ stopped) × (event ≢ polled failed) × (event ≢ polled (readable (some 10)))

-- Another thread stops the timer, and `poll` returns after that.
abbrev pub Returns : List Event → Type 0
Returns [] = ⊥
Returns (stopped ∷ events) = Returns events
Returns (polled p ∷ events) = Unit

abbrev pub IsStopped : List Event → Type 0
IsStopped [] = ⊥
IsStopped (stopped ∷ events) = Returns events
IsStopped (polled p ∷ events) = IsStopped events

pub stop-IsDisarmed : (t : Timer) → t.is_stop ≡ false → IsDisarmed (stop t)
unfolding stop set_timer
stop-IsDisarmed t h = (
  ap (λ b. (if b then t else record t { is_stop = true; armed = (0, 0) }).is_stop) h,
  ap (λ b. (if b then t else record t { is_stop = true; armed = (0, 0) }).armed) h,
)

pub stop_twice : (t : Timer) → t.is_stop ≡ true → stop t ≡ t
unfolding stop
stop_twice t h = ap (λ b. if b then t else set_timer 0 0 (record t { is_stop = true })) h

pub read_fd_stopped : (num : Option ℕ) (t : Timer) → t.is_stop ≡ true → read_fd num t ≡ t
unfolding read_fd
read_fd_stopped none t h = refl
read_fd_stopped (some num) t h = elim (Bool-cases (num == 10)) [
  | inl ten ↦ rw ten (stop_twice t h)
  | inr less ↦ rw less refl
]

pub read_fd-calm : (num : Option ℕ) (t : Timer) → num ≢ some 10 → read_fd num t ≡ t
unfolding read_fd
read_fd-calm none t h = refl
read_fd-calm (some num) t h = elim (Bool-cases (num == 10)) [
  | inl ten ↦ absurd (h (ap some (ground arith)))
  | inr less ↦ rw less refl
]

-- A read leaves a timer as it is, or stops it.
pub read_fd-cases :
    (num : Option ℕ) (t : Timer)
    → t.is_stop ≡ false
    → (read_fd num t ≡ t) ⊎ IsDisarmed (read_fd num t)
unfolding read_fd
read_fd-cases none t h = inl refl
read_fd-cases (some num) t h = elim (Bool-cases (num == 10)) [
  | inl ten ↦ inr (rw ten (stop-IsDisarmed t h))
  | inr less ↦ inl (rw less refl)
]
