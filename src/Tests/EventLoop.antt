-- ===== src/Tests/EventLoop.antt =====
-- The event loop at concrete inputs: 3 is the acceptor's descriptor, 4 that for pending work.
use kwd_server.Base.{◌≡◌, refl, ◌⊎◌, true, false, none, some, [], ◌∷◌}
use kwd_server.EventLoop.{
  EventLoop, Ready, new_loop, insert_conn, handle_connect, handle_close, do_works, do_pending_work,
  handle_conn, handle_ready, handle_all, epoll_wait, add_pending_work,
}
use kwd_server.EventLoop.Proper.{IsProper, HasDead, handle_ready-IsProper}
use kwd_server.EventLoop.Rounds.{Reach, begun, waited, added, Reach-IsProper}

abbrev accept_seven : Ready
accept_seven = record { ready_fd = 3; new_fd = 7; at_end = false }

abbrev seven_ends : Ready
seven_ends = record { ready_fd = 7; new_fd = 0; at_end = true }

abbrev work : Ready
work = record { ready_fd = 4; new_fd = 0; at_end = false }

-- A connection comes.
abbrev one_conn : EventLoop
one_conn = handle_connect 7 (new_loop 3 4)

one_conn_run : Reach 3 4 one_conn
unfolding epoll_wait handle_all handle_ready
one_conn_run = waited (some (accept_seven ∷ [])) begun refl

Reach-IsProper_example : IsProper one_conn
Reach-IsProper_example = Reach-IsProper one_conn_run

-- Its query is answered, and it ends before the answer is sent.
abbrev too_late : EventLoop
too_late = handle_close 7 0 (add_pending_work 0 (b'a' ∷ []) one_conn)

too_late_run : Reach 3 4 too_late
unfolding epoll_wait handle_all handle_ready handle_conn handle_connect insert_conn add_pending_work
too_late_run = waited (some (seven_ends ∷ [])) (added 0 (b'a' ∷ []) one_conn_run) refl

handle_ready-IsProper_example :
    ((t : EventLoop) × (handle_ready work too_late ≡ some t) × IsProper t)
    ⊎ ((handle_ready work too_late ≡ none) × HasDead too_late.pending_list too_late)
handle_ready-IsProper_example = handle_ready-IsProper work too_late (Reach-IsProper too_late_run)

-- The answer goes to a connection that is destroyed.
too_late_fault : handle_ready work too_late ≡ none
unfolding handle_ready do_pending_work do_works handle_close handle_connect insert_conn
    add_pending_work
too_late_fault = refl
