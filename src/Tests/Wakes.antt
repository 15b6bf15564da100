-- ===== src/Tests/Wakes.antt =====
-- A worker that sends to a connection, and the epoll set of the loop.
use kwd_server.Base.{◌<◌, ◌≡◌, refl, true, false, none, some, [], ◌∷◌, arith, codes}
use kwd_server.EventLoop.{
  EventLoop, Ready, connected, sends, add_pending_work, handle_ready, handle_connect, insert_conn,
  handle_close, handle_conn, new_loop, epoll_wait,
}
use kwd_server.EventLoop.Wakes.{
  Wakes, Step, Reach, begun as wakes_begun, then_by, handles, adds, wakes, event_wake_up,
  Reach-Sends,
}
use kwd_server.EventLoop.Watch.{
  Watched, epoll_conn, epoll_del, new_watched, watched_ready, epoll_ready, waited, unlooped, unloop,
  loop_rounds, run_loop,
}
use kwd_server.EventLoop.Served.{IsWatched, begun, then_ready, Reach-IsWatched}

abbrev asleep : Wakes
asleep = record { looper = new_loop 3 4; counter = 0; waking = 0; has_read = false }

abbrev coming : Ready
coming = record { ready_fd = 3; new_fd = 7; at_end = false }

abbrev after : EventLoop
after = handle_connect 7 (new_loop 3 4)

accepted : handle_ready coming (new_loop 3 4) ≡ some after
unfolding handle_ready
accepted = refl

abbrev met : Wakes
met = record asleep { looper = after }

abbrev adding : Wakes
adding = record met { looper = add_pending_work 0 (codes "to") after; waking = 1 }

abbrev awake : Wakes
awake = record adding { counter = event_wake_up true 0; waking = 0 }

awake-Reach : Reach 3 4 awake
awake-Reach =
    then_by
      (then_by
        (then_by wakes_begun
          (handles coming asleep after refl (λ e. absurd (omega (arith, e))) accepted))
        (adds 0 (codes "to") met))
      (wakes 0 adding refl)

Reach-Sends_example :
    (0 < awake.counter)
    × (t u : Wakes) × Step awake t
    × Step t u
    × (u.looper.pending_list ≡ [])
    × (u.looper.calls ≡ sends 0 (codes "to") ∷ connected 0 ∷ [])
unfolding add_pending_work handle_connect insert_conn
Reach-Sends_example = Reach-Sends awake-Reach refl refl (λ e. cc e) (refl, tt)

abbrev watching : Watched
watching = record (new_watched true true 3 4) {
  looper = after;
  epoll = epoll_ready true coming (new_loop 3 4) (new_watched true true 3 4).epoll;
}

met_connection : watched_ready true coming (new_watched true true 3 4) ≡ some watching
unfolding watched_ready handle_ready new_watched
met_connection = refl

-- The connection ends, and its deletion from the set fails.
abbrev ending : Ready
ending = record { ready_fd = 7; new_fd = 0; at_end = true }

abbrev left : Watched
left = record watching { looper = handle_close 7 0 after }

met_end : watched_ready false ending watching ≡ some left
unfolding watched_ready handle_ready handle_conn epoll_conn epoll_del new_watched epoll_ready
    handle_connect insert_conn
met_end = refl

Reach-IsWatched_example : IsWatched left
unfolding handle_connect insert_conn
Reach-IsWatched_example = Reach-IsWatched (
    then_ready false ending (then_ready true coming begun (λ e. refl) met_connection)
      (λ e. absurd (omega (arith, e))) met_end)

-- After `UnLoop` the loop ends before its next round.
ends_by_unloop :
    run_loop (waited none ∷ unlooped ∷ waited none ∷ []) (new_loop 3 4)
    ≡ some (new_loop 3 4, waited none ∷ [])
unfolding run_loop loop_rounds unloop epoll_wait
ends_by_unloop = refl
