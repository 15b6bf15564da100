-- ===== src/Timer.antt =====
-- `Timer` (src/timer.cc): a loop that polls a timer descriptor and calls a function each time it
-- expires. The state that the function works on is `S`; a call without a result is a call that
-- does not return.
pub mod Events
pub mod Runs
use kwd_server.Base.{
  ℕ, Bool, true, false, Option, none, some, List, [], ◌∷◌, ◌==◌, ◌-◌, ◌^◌, if◌then◌else◌, Word,
  codes,
}

-- `armed` are the times that `SetTimer` has set last.
pub record Timer : Type 0 where
  pub init_time : ℕ
  pub inter_time : ℕ
  pub is_stop : Bool
  pub armed : ℕ × ℕ

abbrev pub new_timer : ℕ → ℕ → Timer
new_timer init_time inter_time = record {
  init_time = init_time;
  inter_time = inter_time;
  is_stop = false;
  armed = (0, 0);
}

unfoldable pub set_timer : ℕ → ℕ → Timer → Timer
set_timer init_time inter_time t = record t { armed = (init_time, inter_time) }

unfoldable pub stop : Timer → Timer
stop t = if t.is_stop then t else set_timer 0 0 (record t { is_stop = true })

-- The destructor
unfoldable pub timer_out : Timer → Timer
timer_out t = if t.is_stop then t else stop t

-- `CreateTimer` with what `timerfd_create` gives: the descriptor, which is -1 after a failure, and what
-- is printed.
unfoldable create_timer : Option ℕ → ℕ × List Word
create_timer none = (2 ^ 32 - 1, codes "timerfd_create: " ∷ [])
create_timer (some timer_fd) = (timer_fd, [])

-- `read` of eight bytes: the number of expirations since the last one, or less than eight bytes.
unfoldable pub read_fd : Option ℕ → Timer → Timer
read_fd none t = t
read_fd (some num) t = if num == 10 then stop t else t

-- What a call of `poll` gives; `readable` with what `read` gives then, `other` without `POLLIN`.
pub data Poll : Type 0 where
  interrupted failed timed_out other : Poll
  readable : Option ℕ → Poll

-- What the loop meets while it is in `poll`: its result, or a call of `Stop` by another thread.
pub data Event : Type 0 where
  polled : Poll → Event
  stopped : Event

-- How `Start` ends: by its test, by a failure of `poll`, not yet, or never, in the function.
pub data Run (S : Type 0) : Type 0 where
  ended : Timer → S → Run S
  poll_failed : Timer → S → Run S
  polling : Timer → S → Run S
  hangs : Run S

module _ {S : Type 0} where
  -- `if (func_) func_();`
  unfoldable pub call : Option (S → Option S) → S → Option S
  call none s = some s
  call (some func) s = func s

  -- From the return of `poll` to the test of the loop.
  unfoldable pub test_stop : Timer → S → Run S → Run S
  test_stop t s again = if t.is_stop then ended t s else again

  unfoldable pub loop : Option (S → Option S) → List Event → Timer → S → Run S
  loop func [] t s = polling t s
  loop func (stopped ∷ events) t s = loop func events (stop t) s
  loop func (polled interrupted ∷ events) t s = test_stop t s (loop func events t s)
  loop func (polled failed ∷ events) t s = poll_failed t s
  loop func (polled timed_out ∷ events) t s = test_stop t s (loop func events t s)
  loop func (polled other ∷ events) t s = test_stop t s (loop func events t s)
  loop func (polled (readable num) ∷ events) t s = elim (call func s) [
    | none ↦ hangs
    | some s' ↦ test_stop (read_fd num t) s' (loop func events (read_fd num t) s')
  ]

  -- `Start`
  unfoldable pub start : Option (S → Option S) → List Event → Timer → S → Run S
  start func events t s =
      let set = set_timer t.init_time t.inter_time t in test_stop set s (loop func events set s)
