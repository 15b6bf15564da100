-- ===== src/EventLoop/Served.antt =====
-- What the loop serves is in its epoll set.
use kwd_server.Base.{
  ℕ, ◌+◌, ◌≡◌, ◌≢◌, refl, sym, ap, ◌∙◌, subst, inl, inr, Bool, true, false, Option, none, some,
  Option-cases, List, [], ◌∷◌, arith, ◌==◌, Bool-cases, Word,
}
use mathlib.Core.Option.{some-injective}
use kwd_server.EventLoop.{
  EventLoop, Ready, put, connected, insert_conn, handle_connect, handle_close, handle_conn,
  handle_ready, do_works, do_pending_work,
}
use kwd_server.EventLoop.Watch.{
  epoll_add, epoll_del, Watched, new_watched, epoll_conn, epoll_ready, watched_ready,
}

-- All that the loop serves is in its epoll set.
pub record IsWatched (w : Watched) : Type 0 where
  pub of_acceptor : w.epoll w.looper.acceptor_fd ≡ true
  pub of_event : w.epoll w.looper.event_fd ≡ true
  pub of_conn : (fd id : ℕ) → w.looper.conn_list fd ≡ some id → w.epoll fd ≡ true

connect-IsWatched :
    (new_fd id : ℕ) (entry : Option ℕ) (w : Watched)
    → w.looper.conn_list new_fd ≡ entry
    → IsWatched w
    → IsWatched (record w {
      looper = insert_conn new_fd id entry w.looper;
      epoll = put new_fd true w.epoll;
    })
unfolding insert_conn
connect-IsWatched new_fd id none w e k = record {
  of_acceptor = ground (arith, k.of_acceptor);
  of_event = ground (arith, k.of_event);
  of_conn = λ fd i h. ground (arith, k.of_conn fd i, h);
}
connect-IsWatched new_fd id (some there) w e k = record {
  of_acceptor = ground (arith, k.of_acceptor);
  of_event = ground (arith, k.of_event);
  of_conn = λ fd i h. ground (arith, k.of_conn fd i, h);
}

close-IsWatched :
    (fd id : ℕ) (success : Bool) (w : Watched)
    → fd ≢ w.looper.acceptor_fd
    → fd ≢ w.looper.event_fd
    → IsWatched w
    → IsWatched
        (record w { looper = handle_close fd id w.looper; epoll = epoll_del success fd w.epoll })
unfolding handle_close epoll_del
close-IsWatched fd id true w not_acceptor not_event k = record {
  of_acceptor = ground (arith, not_acceptor, k.of_acceptor);
  of_event = ground (arith, not_event, k.of_event);
  of_conn = λ a i h. ground (arith, k.of_conn a i, h);
}
close-IsWatched fd id false w not_acceptor not_event k = record {
  of_acceptor = k.of_acceptor;
  of_event = k.of_event;
  of_conn = λ a i h. ground (arith, k.of_conn a i, h);
}

-- Only these parts of the loop count.
same-IsWatched :
    (w : Watched) (after : EventLoop)
    → after.acceptor_fd ≡ w.looper.acceptor_fd
    → after.event_fd ≡ w.looper.event_fd
    → after.conn_list ≡ w.looper.conn_list
    → IsWatched w
    → IsWatched (record w { looper = after })
same-IsWatched w after same_acceptor same_event same_list k = record {
  of_acceptor = rw same_acceptor k.of_acceptor;
  of_event = rw same_event k.of_event;
  of_conn = λ fd id h. k.of_conn fd id (ap (λ f. f fd) (sym same_list) ∙ h);
}

do_works-same :
    (l : List (ℕ × Word)) (s after : EventLoop)
    → do_works l s ≡ some after
    → (after.acceptor_fd ≡ s.acceptor_fd)
      × (after.event_fd ≡ s.event_fd)
      × (after.conn_list ≡ s.conn_list)
unfolding do_works
do_works-same [] s after h =
    let e = sym (some-injective s after h) in
    (ap (λ t. t.acceptor_fd) e, ap (λ t. t.event_fd) e, ap (λ t. t.conn_list) e)
do_works-same ((id, msg) ∷ l) s after h = elim (Bool-cases (s.alive id)) [
  | inl alive ↦ do_works-same l _ after (rw alive at h)
  | inr dead ↦ absurd (cc (rw dead at h))
]

conn-IsWatched :
    (success : Bool) (r : Ready) (found : Option ℕ) (w : Watched)
    → r.ready_fd ≢ w.looper.acceptor_fd
    → r.ready_fd ≢ w.looper.event_fd
    → IsWatched w
    → IsWatched (record w {
      looper = handle_conn r found w.looper;
      epoll = epoll_conn success r found w.epoll;
    })
unfolding handle_conn epoll_conn
conn-IsWatched success r none w not_acceptor not_event k = k
conn-IsWatched success r (some id) w not_acceptor not_event k = elim (Bool-cases r.at_end) [
  | inl closing ↦ rw closing (close-IsWatched r.ready_fd id success w not_acceptor not_event k)
  | inr more ↦ rw more (same-IsWatched w _ refl refl refl k)
]

watched_ready-IsWatched :
    (success : Bool) (r : Ready) (w after : Watched)
    → (r.ready_fd ≡ w.looper.acceptor_fd → success ≡ true)
    → watched_ready success r w ≡ some after
    → IsWatched w
    → IsWatched after
unfolding watched_ready handle_ready epoll_ready handle_connect epoll_add do_pending_work
watched_ready-IsWatched success r w after adds h k =
    elim (Bool-cases (r.ready_fd == w.looper.acceptor_fd)) [
      | inl new ↦
          let met : EventLoop = record w.looper {
            next_conn = w.looper.next_conn + 1;
            calls = connected w.looper.next_conn ∷ w.looper.calls;
          } in
          let success_eq : success ≡ true = adds (ground (arith, new)) in
          subst IsWatched (some-injective _ after (rw (new, success_eq) at h)) (
            connect-IsWatched r.new_fd w.looper.next_conn (w.looper.conn_list r.new_fd)
              (record w { looper = met }) refl (same-IsWatched w met refl refl refl k))
      | inr old ↦ elim (Bool-cases (r.ready_fd == w.looper.event_fd)) [
        | inl event ↦
            elim (Option-cases
              (do_works w.looper.pending_list (record w.looper { pending_list = [] }))) [
                | inl fails ↦ absurd (cc (rw (old, event, fails) at h))
                | inr (done, run) ↦
                    let (same_acceptor, same_event, same_list) =
                      do_works-same w.looper.pending_list _ done run in
                    subst IsWatched (some-injective _ after (rw (old, event, run) at h))
                      (same-IsWatched w done same_acceptor same_event same_list k)
              ]
        | inr conn ↦ subst IsWatched (some-injective _ after (rw (old, conn) at h)) (
            conn-IsWatched success r (w.looper.conn_list r.ready_fd) w (ground (arith, old))
              (ground (arith, conn)) k)
      ]
    ]

-- The states from the constructor on, where the additions to the set succeed; a deletion may fail.
pub data Reach (acceptor_fd event_fd : ℕ) : Watched → Type 0 where
  begun : Reach acceptor_fd event_fd (new_watched true true acceptor_fd event_fd)
  then_ready :
      {w after : Watched} (success : Bool) (r : Ready)
      → Reach acceptor_fd event_fd w
      → (r.ready_fd ≡ w.looper.acceptor_fd → success ≡ true)
      → watched_ready success r w ≡ some after
      → Reach acceptor_fd event_fd after

-- From the constructor on, while `epoll_ctl` does not fail on an addition, whatever descriptors are
-- ready and whether `epoll_ctl` succeeds on a deletion or not: the loop is told of the acceptor, of its
-- eventfd and of every connection in its table.
pub Reach-IsWatched :
    {acceptor_fd event_fd : ℕ} {w : Watched} → Reach acceptor_fd event_fd w → IsWatched w
unfolding new_watched epoll_add
Reach-IsWatched {acceptor_fd} {event_fd} begun = record {
  of_acceptor = ground arith;
  of_event = ground arith;
  of_conn = λ fd id h. cc h;
}
Reach-IsWatched (then_ready {w} {after} success r reached adds run) =
    watched_ready-IsWatched success r w after adds run (Reach-IsWatched reached)
