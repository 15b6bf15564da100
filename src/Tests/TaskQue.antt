-- ===== src/Tests/TaskQue.antt =====
-- The task queue at concrete inputs.
use kwd_server.Base.{◌≡◌, refl, true, none, [], ◌∷◌, arith}
use kwd_server.TaskQue.{push_turn, null, pop_turn, wake_up, new_que}
use kwd_server.TaskQue.Threads.{
  asleep, popping, Threads, woken, call_push, push_notifies, call_pop, pop_sleeps, start, Reach,
  here, next, update,
}
use kwd_server.TaskQue.Safe.{IsSafe, Reach-IsSafe}

-- One worker sleeps, and the first element wakes it.
abbrev woken_up : Threads
woken_up = record (start 2) {
  queue = record { que_size = 2; que = 7 ∷ []; flag = true };
  worker = update (update (update (start 2).worker 0 popping) 0 asleep) 0 popping;
  pushed = 7 ∷ [];
}

woken_up_run : Reach 1 2 woken_up
unfolding push_turn pop_turn
woken_up_run =
    next
      (next
        (next (next here (call_pop 0 (omega arith) refl refl))
          (pop_sleeps 0 (omega arith) refl refl refl))
        (call_push 7 refl refl))
      (push_notifies 7 _ _ refl refl (woken 0 (omega arith) refl refl) refl)

Reach-IsSafe_example : IsSafe 1 2 woken_up
Reach-IsSafe_example = Reach-IsSafe (omega arith) (omega arith) (omega arith) woken_up_run

push_full : push_turn 9 (record { que_size = 1; que = 7 ∷ []; flag = true }) ≡ none
unfolding push_turn
push_full = refl

pop_after_wake_up : pop_turn (wake_up (new_que 2)) ≡ null
unfolding pop_turn wake_up
pop_after_wake_up = refl
