-- ===== src/Tests/Sync.antt =====
-- `Push` under a concrete mutex.
use kwd_server.Base.{ℕ, ◌≡◌, refl, Bool, true, false, some, [], ◌∷◌}
use kwd_server.Sync.{Pthreads}
use kwd_server.TaskQue.{TaskQue, new_que, is_full}
use kwd_server.TaskQue.Guarded.{push, push_returns}

-- The state tells whether this thread holds the mutex; a call out of order fails with 1.
abbrev release : Bool → ℕ × Bool
release true = (0, false)
release false = (1, false)

abbrev acquire : Bool → ℕ × Bool
acquire false = (0, true)
acquire true = (1, true)

abbrev hold : Bool → ℕ × Bool
hold true = (0, true)
hold false = (1, false)

abbrev one_mutex : Pthreads
one_mutex = record {
  State = Bool;
  mutex_init = λ s. (0, false);
  cond_init = λ s. (0, s);
  lock = acquire;
  unlock = release;
  wait = hold;
  signal = λ s. (0, s);
  broadcast = λ s. (0, s);
  mutex_destroy = λ s. (0, s);
  cond_destroy = λ s. (0, s);
  IsFree = λ s. s ≡ false;
  IsHeld = λ s. s ≡ true;
  lock-IsHeld = λ s free. rw free (refl, refl);
  unlock-IsFree = λ s held. rw held (refl, refl);
  wait-IsHeld = λ s held. rw held (refl, refl);
  signal-IsHeld = λ s held. held;
}

abbrev full_que : TaskQue
full_que = record (new_que 1) { que = 7 ∷ [] }

push_returns_example :
    (after : Bool) × (push one_mutex 8 (full_que ∷ full_que ∷ new_que 1 ∷ []) false
      ≡ some (record (new_que 1) { que = 8 ∷ [] }, after, []))
    × (after ≡ false)
unfolding is_full
push_returns_example =
    push_returns one_mutex 8 (full_que ∷ full_que ∷ []) [] (new_que 1) false (refl, (refl, tt)) refl
      refl
