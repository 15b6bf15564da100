-- ===== src/Tests/Timer.antt =====
-- A timer that counts how often it was readable (src/timer.cc).
use kwd_server.Base.{suc, ◌≡◌, refl, some, List, [], ◌∷◌, arith, true}
use kwd_server.Timer.{
  new_timer, set_timer, stop, read_fd, interrupted, timed_out, readable, Event, polled, stopped,
  ended, polling, call, test_stop, loop, start,
}
use kwd_server.Timer.Events.{readable_polls, iterate}
use kwd_server.Timer.Runs.{EndsWithin, start_calm, start_stops}

abbrev tick : Event
tick = polled (readable (some 1))

abbrev calm_events : List Event
calm_events = tick ∷ polled timed_out ∷ polled interrupted ∷ polled (readable (some 3)) ∷ []

start_calm_example :
    start (some (λ x. some (suc x))) calm_events (new_timer 60 20) 0
    ≡ polling
        (record (new_timer 60 20) { armed = (60, 20) })
        (iterate (readable_polls calm_events) suc 0)
start_calm_example = start_calm suc calm_events 60 20 0 (
  ((λ e. cc e), (λ e. cc e), (λ e. absurd (ground arith))),
  (
    ((λ e. cc e), (λ e. cc e), (λ e. cc e)),
    (
      ((λ e. cc e), (λ e. cc e), (λ e. cc e)),
      (((λ e. cc e), (λ e. cc e), (λ e. absurd (ground arith))), tt),
    ),
  ),
)

abbrev stopped_events : List Event
stopped_events = tick ∷ stopped ∷ polled timed_out ∷ tick ∷ []

start_stops_example :
    EndsWithin suc stopped_events 0
      (start (some (λ x. some (suc x))) stopped_events (new_timer 60 20) 0)
start_stops_example =
    start_stops suc stopped_events 60 20 0
      ((λ e. cc e), ((λ e. cc e), ((λ e. cc e), ((λ e. cc e), tt)))) tt

-- Ten expirations in one read stop the timer for good, after one more call.
stopped_by_ten :
    start (some (λ x. some (suc x))) (polled (readable (some 10)) ∷ tick ∷ []) (new_timer 60 20) 0
    ≡ ended (record (new_timer 60 20) { is_stop = true; armed = (0, 0) }) 1
unfolding start loop call test_stop read_fd stop set_timer
stopped_by_ten = refl
