-- ===== src/TaskQue/Guarded.antt =====
-- `Push` and `Pop` as a whole: the guard, the waits and the turn (src/task_que.cc). The queue is given
-- as the thread finds it each time that it has the mutex.
use kwd_server.Base.{
  ℕ, ◌≡◌, refl, subst, Bool, true, false, Option, none, some, List, [], ◌∷◌, ◌++◌, All, Word,
}
use kwd_server.Sync.{Pthreads, with_guard, wait_turn}
use kwd_server.Sync.Guard.{first_turn, Releases, guarded_turn}
use kwd_server.TaskQue.{TaskQue, is_full, push_turn, PopTurn, sleeps, took, null, fault, pop_turn}

-- The test of `Pop`, and what comes behind its loop.
unfoldable pub pop_test : PopTurn → Option (PopTurn × Bool)
pop_test sleeps = none
pop_test (took elem rest notified) = some (took elem rest notified, notified)
pop_test null = some (null, false)
pop_test fault = some (fault, false)

module _ (pthreads : Pthreads) where
  open pthreads use {State, IsFree}

  unfoldable pub push : ℕ → List TaskQue → State → Option (TaskQue × State × List Word)
  push elem found s = with_guard pthreads (wait_turn pthreads (push_turn elem) found) s

  unfoldable pub pop : List TaskQue → State → Option (PopTurn × State × List Word)
  pop found s = with_guard pthreads (wait_turn pthreads (λ q. pop_test (pop_turn q)) found) s

  first_push :
      (elem : ℕ) (full later : List TaskQue) (q : TaskQue)
      → All (λ p. is_full p ≡ true) full
      → is_full q ≡ false
      → first_turn (push_turn elem) (full ++ q ∷ later)
        ≡ some (record q { que = q.que ++ elem ∷ [] })
  unfolding push_turn
  first_push elem [] later q waits room = rw room refl
  first_push elem (p ∷ full) later q waits room =
      rw (waits.0) (first_push elem full later q waits.1 room)

  first_pop :
      (asleep later : List TaskQue) (q rest : TaskQue) (elem : ℕ) (notified : Bool)
      → All (λ p. pop_turn p ≡ sleeps) asleep
      → pop_turn q ≡ took elem rest notified
      → first_turn (λ p. pop_test (pop_turn p)) (asleep ++ q ∷ later)
        ≡ some (took elem rest notified)
  unfolding pop_test
  first_pop [] later q rest elem notified waits takes = rw takes refl
  first_pop (p ∷ asleep) later q rest elem notified waits takes =
      rw (waits.0) (first_pop asleep later q rest elem notified waits.1 takes)

  -- A thread that does not hold the mutex, and finds the queue full any number of times but then with
  -- room, returns from `Push` with the element at the end of that queue; no call has failed, and the
  -- mutex is free.
  pub push_returns :
      (elem : ℕ) (full later : List TaskQue) (q : TaskQue) (s : State)
      → All (λ p. is_full p ≡ true) full
      → is_full q ≡ false
      → IsFree s
      → (after : State) × (push elem (full ++ q ∷ later) s
          ≡ some (record q { que = q.que ++ elem ∷ [] }, after, []))
        × IsFree after
  unfolding push
  push_returns elem full later q s waits room free =
      subst (λ value. Releases pthreads value (push elem (full ++ q ∷ later) s))
        (first_push elem full later q waits room)
        (guarded_turn pthreads (push_turn elem) (full ++ q ∷ later) s free)

  -- The same for `Pop`, which returns the element that its turn has taken.
  pop_returns :
      (asleep later : List TaskQue) (q rest : TaskQue) (elem : ℕ) (notified : Bool) (s : State)
      → All (λ p. pop_turn p ≡ sleeps) asleep
      → pop_turn q ≡ took elem rest notified
      → IsFree s
      → (after : State) × (pop (asleep ++ q ∷ later) s ≡ some (took elem rest notified, after, []))
        × IsFree after
  unfolding pop
  pop_returns asleep later q rest elem notified s waits takes free =
      subst (λ value. Releases pthreads value (pop (asleep ++ q ∷ later) s))
        (first_pop asleep later q rest elem notified waits takes)
        (guarded_turn pthreads (λ p. pop_test (pop_turn p)) (asleep ++ q ∷ later) s free)
