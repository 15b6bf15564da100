-- ===== src/Timer/Runs.antt =====
-- How often a timer calls its function, and when it stops.
use kwd_server.Base.{
  ℕ, ◌≡◌, refl, sym, ap, ◌∙◌, inl, inr, true, false, Option, some, List, [], ◌∷◌, ◌++◌, All,
  if◌then◌else◌,
}
use kwd_server.Timer.{
  Timer, set_timer, stop, read_fd, interrupted, failed, timed_out, other, readable, Event, polled,
  stopped, Run, ended, polling, call, test_stop, loop, start, new_timer,
}
use kwd_server.Timer.Events.{
  readable_polls, iterate, Polls, IsDisarmed, IsCalm, Returns, IsStopped, stop-IsDisarmed,
  stop_twice, read_fd_stopped, read_fd-calm, read_fd-cases,
}

module _ {S : Type 0} where
  test_stop-running :
      (t : Timer) (s : S) (again : Run S) → t.is_stop ≡ false → test_stop t s again ≡ again
  unfolding test_stop
  test_stop-running t s again h = ap (λ b. if b then ended t s else again) h

  test_stop-stopped :
      (t : Timer) (s : S) (again : Run S) → t.is_stop ≡ true → test_stop t s again ≡ ended t s
  unfolding test_stop
  test_stop-stopped t s again h = ap (λ b. if b then ended t s else again) h

module _ {S : Type 0} (f : S → S) where
  abbrev tick : Option (S → Option S)
  tick = some (λ s. some (f s))

  loop_calm :
      (events : List Event) (t : Timer) (s : S)
      → All IsCalm events
      → t.is_stop ≡ false
      → loop tick events t s ≡ polling t (iterate (readable_polls events) f s)
  unfolding loop call
  loop_calm [] t s calm runs = refl
  loop_calm (stopped ∷ events) t s calm runs = absurd (calm.0.0 refl)
  loop_calm (polled failed ∷ events) t s calm runs = absurd (calm.0.1 refl)
  loop_calm (polled interrupted ∷ events) t s calm runs =
      test_stop-running t s _ runs ∙ loop_calm events t s calm.1 runs
  loop_calm (polled timed_out ∷ events) t s calm runs =
      test_stop-running t s _ runs ∙ loop_calm events t s calm.1 runs
  loop_calm (polled other ∷ events) t s calm runs =
      test_stop-running t s _ runs ∙ loop_calm events t s calm.1 runs
  loop_calm (polled (readable num) ∷ events) t s calm runs =
      ap (λ u. test_stop u (f s) (loop tick events u (f s)))
        (read_fd-calm num t (λ e. calm.0.2 (ap (λ n. polled (readable n)) e)))
      ∙ test_stop-running t (f s) _ runs
      ∙ loop_calm events t (f s) calm.1 runs

  -- The run ends by its test after some of the events, with a call for each poll among them
  -- that finds the timer readable, and a timer that is not armed.
  abbrev pub EndsWithin : List Event → S → Run S → Type 0
  EndsWithin events s r =
      (before after : List Event) × (t : Timer) × (events ≡ before ++ after)
      × (r ≡ ended t (iterate (readable_polls before) f s))
      × IsDisarmed t

  loop-Returns :
      (events : List Event) (t : Timer) (s : S)
      → Polls events
      → Returns events
      → IsDisarmed t
      → EndsWithin events s (loop tick events t s)
  unfolding loop call
  loop-Returns [] t s polls waits off = absurd waits
  loop-Returns (stopped ∷ events) t s polls waits off =
      let (before, after, u, e, run, off') = loop-Returns events t s polls.1 waits off in
      (
        stopped ∷ before,
        after,
        u,
        ap (λ l. stopped ∷ l) e,
        ap (λ v. loop tick events v s) (stop_twice t off.0) ∙ run,
        off',
      )
  loop-Returns (polled failed ∷ events) t s polls waits off = absurd (polls.0 refl)
  loop-Returns (polled interrupted ∷ events) t s polls waits off =
      (polled interrupted ∷ [], events, t, refl, test_stop-stopped t s _ off.0, off)
  loop-Returns (polled timed_out ∷ events) t s polls waits off =
      (polled timed_out ∷ [], events, t, refl, test_stop-stopped t s _ off.0, off)
  loop-Returns (polled other ∷ events) t s polls waits off =
      (polled other ∷ [], events, t, refl, test_stop-stopped t s _ off.0, off)
  loop-Returns (polled (readable num) ∷ events) t s polls waits off = (
    polled (readable num) ∷ [],
    events,
    t,
    refl,
    ap (λ u. test_stop u (f s) (loop tick events u (f s))) (read_fd_stopped num t off.0)
        ∙ test_stop-stopped t (f s) _ off.0,
    off,
  )

  -- An event that does not find the timer readable, before events that end the run.
  later :
      (event : Event) (events : List Event) (t : Timer) (s : S)
      → t.is_stop ≡ false
      → EndsWithin events s (loop tick events t s)
      → ((l : List Event) → readable_polls (event ∷ l) ≡ readable_polls l)
      → EndsWithin (event ∷ events) s (test_stop t s (loop tick events t s))
  later event events t s runs (before, after, u, e, run, off) none_here = (
    event ∷ before,
    after,
    u,
    ap (λ l. event ∷ l) e,
    test_stop-running t s _ runs ∙ run ∙ ap (λ n. ended u (iterate n f s)) (sym (none_here before)),
    off,
  )

  loop_stops :
      (events : List Event) (t : Timer) (s : S)
      → Polls events
      → IsStopped events
      → t.is_stop ≡ false
      → EndsWithin events s (loop tick events t s)
  unfolding loop call
  loop_stops [] t s polls ends runs = absurd ends
  loop_stops (stopped ∷ events) t s polls ends runs =
      let (before, after, u, e, run, off) =
        loop-Returns events (stop t) s polls.1 ends (stop-IsDisarmed t runs) in
      (stopped ∷ before, after, u, ap (λ l. stopped ∷ l) e, run, off)
  loop_stops (polled failed ∷ events) t s polls ends runs = absurd (polls.0 refl)
  loop_stops (polled interrupted ∷ events) t s polls ends runs =
      later (polled interrupted) events t s runs (loop_stops events t s polls.1 ends runs)
        (λ l. refl)
  loop_stops (polled timed_out ∷ events) t s polls ends runs =
      later (polled timed_out) events t s runs (loop_stops events t s polls.1 ends runs) (λ l. refl)
  loop_stops (polled other ∷ events) t s polls ends runs =
      later (polled other) events t s runs (loop_stops events t s polls.1 ends runs) (λ l. refl)
  loop_stops (polled (readable num) ∷ events) t s polls ends runs =
      elim (read_fd-cases num t runs) [
        | inl same ↦
            let (before, after, u, e, run, off) = loop_stops events t (f s) polls.1 ends runs in
            (
              polled (readable num) ∷ before,
              after,
              u,
              ap (λ l. polled (readable num) ∷ l) e,
              ap (λ v. test_stop v (f s) (loop tick events v (f s))) same
                  ∙ test_stop-running t (f s) _ runs
                  ∙ run,
              off,
            )
        | inr off ↦ (
          polled (readable num) ∷ [],
          events,
          read_fd num t,
          refl,
          test_stop-stopped (read_fd num t) (f s) _ off.0,
          off,
        )
      ]

-- As long as nobody stops the timer, no read gives ten expirations at once and `poll` does not fail,
-- `Start` of a new timer arms it and goes on, with one call of the function for each
-- `poll` that finds the timer readable, whatever `read` gives then.
pub start_calm :
    {S : Type 0} (f : S → S) (events : List Event) (init_time inter_time : ℕ) (s : S)
    → All IsCalm events
    → start (some (λ x. some (f x))) events (new_timer init_time inter_time) s
      ≡ polling
          (record (new_timer init_time inter_time) { armed = (init_time, inter_time) })
          (iterate (readable_polls events) f s)
unfolding start set_timer test_stop
start_calm f events init_time inter_time s calm = loop_calm f events _ s calm refl

-- `Start` of a new timer returns, if `poll` does not fail, another thread calls `Stop` and `poll`
-- returns once more: at that time or before, with a timer that is not armed, and with one call of
-- the function for each `poll` that has found the timer readable until then, whatever `read` gave.
pub start_stops :
    {S : Type 0} (f : S → S) (events : List Event) (init_time inter_time : ℕ) (s : S)
    → Polls events
    → IsStopped events
    → EndsWithin f events s
        (start (some (λ x. some (f x))) events (new_timer init_time inter_time) s)
unfolding start set_timer test_stop
start_stops f events init_time inter_time s polls ends = loop_stops f events _ s polls ends refl
