-- ===== src/TaskQue.antt =====
-- `TaskQue` (src/task_que.cc, include/task_que.hpp): the bounded queue between the event loop, which
-- pushes, and the workers of the thread pool, which pop. A turn is what a thread does under the lock
-- from the time it has the lock until it waits or returns; turns exclude one another. Tasks are
-- pointers, here numbers.
pub mod Threads
pub mod Turns
pub mod Safe
pub mod Guarded
use kwd_server.Base.{
  ℕ, ◌+◌, ◌-◌, ◌%◌, ◌^◌, Bool, true, false, ◌&&◌, Option, none, some, List, [], ◌∷◌, ◌++◌, length,
  ◌==◌, if◌then◌else◌,
}

pub record TaskQue : Type 0 where
  pub que_size : ℕ
  pub que : List ℕ
  pub flag : Bool

abbrev pub new_que : ℕ → TaskQue
new_que que_size = record { que_size = que_size; que = []; flag = true }

unfoldable pub is_full : TaskQue → Bool
is_full q = length q.que == q.que_size

unfoldable pub is_empty : TaskQue → Bool
is_empty q = 0 == length q.que

-- One turn of `Push`: `none` is a wait for `cond_full_`; otherwise the element is in the queue, and
-- the flag tells whether `cond_empty_` is notified.
unfoldable pub push_turn : ℕ → TaskQue → Option (TaskQue × Bool)
unfolding is_full
push_turn elem q =
    if is_full q
    then none
    else some (record q { que = q.que ++ elem ∷ [] }, 1 == length (q.que ++ elem ∷ []))

-- One turn of `Pop`: a wait for `cond_empty_`, an element with the queue that is left and whether
-- `cond_full_` is notified, or the null pointer. `front()` of an empty queue would be a fault.
pub data PopTurn : Type 0 where
  sleeps : PopTurn
  took : ℕ → TaskQue → Bool → PopTurn
  null : PopTurn
  fault : PopTurn

abbrev pub size_mod : ℕ
size_mod = 2 ^ 64

unfoldable pub take_front : TaskQue → List ℕ → PopTurn
take_front q [] = fault
take_front q (front ∷ rest) =
    took front (record q { que = rest }) ((q.que_size + size_mod - 1) % size_mod == length rest)

unfoldable pub pop_turn : TaskQue → PopTurn
unfolding is_empty take_front
pop_turn q = if q.flag && is_empty q then sleeps else (if q.flag then take_front q q.que else null)

-- `WakeUp`, without the lock; it also wakes every thread that waits for `cond_empty_`.
unfoldable pub wake_up : TaskQue → TaskQue
wake_up q = record q { flag = false }
