-- ===== src/Sync.antt =====
-- `MutexLock`, `Condition` (src/mutex_lock.cc, src/condition.cc) and `MutexGuard`
-- (include/mutex_guard.hpp) over the calls of the thread library, as one thread sees them.
pub mod Guard
use kwd_server.Base.{
  ℕ, ◌≡◌, ◌==◌, Bool, true, false, Option, none, some, List, [], ◌∷◌, ◌++◌, ◌>>=◌, if◌then◌else◌,
  Word, codes,
}

-- What the program uses of the library, each call with its result, which is 0 if it has succeeded,
-- and what the library documents of them: `State` is a mutex with its conditions, which is free, or
-- held by this thread. `lock` returns when the thread has got the mutex, and `wait` when it has got
-- it back.
pub record Pthreads : Type 1 where
  pub State : Type 0
  pub mutex_init : State → ℕ × State
  pub cond_init : State → ℕ × State
  pub lock : State → ℕ × State
  pub unlock : State → ℕ × State
  pub wait : State → ℕ × State
  pub signal : State → ℕ × State
  pub broadcast : State → ℕ × State
  pub mutex_destroy : State → ℕ × State
  pub cond_destroy : State → ℕ × State
  pub IsFree : State → Type 0
  pub IsHeld : State → Type 0
  pub lock-IsHeld : (s : State) → IsFree s → ((lock s).0 ≡ 0) × IsHeld (lock s).1
  pub unlock-IsFree : (s : State) → IsHeld s → ((unlock s).0 ≡ 0) × IsFree (unlock s).1
  pub wait-IsHeld : (s : State) → IsHeld s → ((wait s).0 ≡ 0) × IsHeld (wait s).1
  pub signal-IsHeld : (s : State) → IsHeld s → IsHeld (signal s).1

-- `if (call) perror(str);`: the state afterwards, and what is printed.
unfoldable pub checked : {S : Type 0} → Word → ℕ × S → S × List Word
checked str (ret, s) = (s, if ret == 0 then [] else str ∷ [])

module _ (pthreads : Pthreads) where
  open pthreads use {
    State, mutex_init, cond_init, lock, unlock, wait, signal, broadcast, mutex_destroy,
    cond_destroy,
  }

  -- The constructors
  unfoldable new_mutex_lock : State → State × List Word
  new_mutex_lock s = checked (codes "Mutex_init: ") (mutex_init s)

  unfoldable new_condition : State → State × List Word
  new_condition s = checked (codes "condition_init: ") (cond_init s)

  unfoldable pub mutex_lock_on : State → State × List Word
  mutex_lock_on s = checked (codes "Mutex_lock_on: ") (lock s)

  unfoldable pub mutex_lock_off : State → State × List Word
  mutex_lock_off s = checked (codes "mutex_lock_off: ") (unlock s)

  unfoldable pub condition_wait : State → State × List Word
  condition_wait s = checked (codes "condition_wait: ") (wait s)

  unfoldable pub notify : State → State
  notify s = (signal s).1

  unfoldable notify_all : State → State
  notify_all s = (broadcast s).1

  -- The destructors
  unfoldable mutex_lock_out : State → State × List Word
  mutex_lock_out s = checked (codes "Mutex_destroy: ") (mutex_destroy s)

  unfoldable condition_out : State → State × List Word
  condition_out s = checked (codes "condition_destroy: ") (cond_destroy s)

  -- A block with a `MutexGuard` at its head: the constructor, the block, and the destructor on the way
  -- out. A block that does not return keeps the mutex.
  unfoldable pub with_guard :
      {A : Type 0}
      → (State → Option (A × State × List Word))
      → State
      → Option (A × State × List Word)
  with_guard block s = do
    let (held, printed1) = mutex_lock_on s
    (a, after, printed2) ← block held
    let (left, printed3) = mutex_lock_off after
    some (a, left, printed1 ++ (printed2 ++ printed3))

  -- `while (test) cond.Wait();` with what comes behind it, once the test has been made.
  unfoldable pub after_test :
      {A : Type 0}
      → Option (A × Bool)
      → (State → Option (A × State × List Word))
      → State
      → Option (A × State × List Word)
  after_test none again s = do
    let (woken, printed) = condition_wait s
    (a, after, more) ← again woken
    some (a, after, printed ++ more)
  after_test (some (a, notified)) again s = some (a, if notified then notify s else s, [])

  -- A block of this form. `turn` is the test and the rest on the shared data, with whether a condition
  -- is notified: none if the test holds. The data are given as the thread finds them each time that
  -- it has the mutex.
  unfoldable pub wait_turn :
      {Q A : Type 0} → (Q → Option (A × Bool)) → List Q → State → Option (A × State × List Word)
  wait_turn turn [] s = none
  wait_turn turn (q ∷ later) s = after_test (turn q) (wait_turn turn later) s
