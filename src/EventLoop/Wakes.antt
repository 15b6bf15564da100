-- ===== src/EventLoop/Wakes.antt =====
-- `SendToPending` of the workers beside the loop: pending work and the counter of the eventfd
-- (src/event_loop.cc, src/tcp_server.cc).
use kwd_server.Base.{
  ℕ, ◌+◌, ◌<◌, ◌≡◌, ◌≢◌, refl, sym, ap, ◌∙◌, inl, inr, ◌⊎◌, Bool, true, false, Option, none, some,
  List, [], ◌∷◌, All, arith, ◌==◌, if◌then◌else◌, Bool-cases, Word,
}
use mathlib.Core.Option.{some-injective}
use kwd_server.EventLoop.{
  EventLoop, Call, sends, Ready, add_pending_work, do_works, do_pending_work, handle_ready,
  handle_connect, insert_conn, handle_conn, handle_close, new_loop,
}

-- `EventWakeUp` and `ReadEventFD` on the counter of the eventfd, with whether the call succeeds: a
-- write of 1 adds it, and a read takes the whole counter.
unfoldable pub event_wake_up : Bool → ℕ → ℕ
event_wake_up success counter = if success then counter + 1 else counter

unfoldable pub read_event_fd : Bool → ℕ → ℕ
read_event_fd success counter = if success then 0 else counter

-- `waking` counts the workers between the two calls of `SendToPending`, and `has_read` tells whether
-- the loop is between those of its branch for the eventfd.
pub record Wakes : Type 0 where
  pub looper : EventLoop
  pub counter : ℕ
  pub waking : ℕ
  pub has_read : Bool

-- A step of a worker or of the loop. A call on the eventfd succeeds: a write while the counter is not
-- at its limit, a read because `epoll_wait` has found the counter above zero.
pub data Step : Wakes → Wakes → Type 0 where
  adds :
      (id : ℕ) (msg : Word) (s : Wakes)
      → Step s (record s { looper = add_pending_work id msg s.looper; waking = s.waking + 1 })
  wakes :
      (left : ℕ) (s : Wakes)
      → s.waking ≡ left + 1
      → Step s (record s { counter = event_wake_up true s.counter; waking = left })
  reads :
      (s : Wakes)
      → s.has_read ≡ false
      → 0 < s.counter
      → Step s (record s { counter = read_event_fd true s.counter; has_read = true })
  works :
      (s : Wakes) (after : EventLoop)
      → s.has_read ≡ true
      → do_pending_work s.looper ≡ some after
      → Step s (record s { looper = after; has_read = false })
  handles :
      (r : Ready) (s : Wakes) (after : EventLoop)
      → s.has_read ≡ false
      → r.ready_fd ≢ s.looper.event_fd
      → handle_ready r s.looper ≡ some after
      → Step s (record s { looper = after })

pub data Reach (acceptor_fd event_fd : ℕ) : Wakes → Type 0 where
  begun :
      Reach acceptor_fd event_fd (record {
        looper = new_loop acceptor_fd event_fd;
        counter = 0;
        waking = 0;
        has_read = false;
      })
  then_by : {s t : Wakes} → Reach acceptor_fd event_fd s → Step s t → Reach acceptor_fd event_fd t

-- Pending work is on its way to the loop.
abbrev pub IsNoticed : Wakes → Type 0
IsNoticed s = s.looper.pending_list ≢ [] → (0 < s.counter) ⊎ ((0 < s.waking) ⊎ (s.has_read ≡ true))

insert_conn-pending :
    (new_fd id : ℕ) (there : Option ℕ) (s : EventLoop)
    → (insert_conn new_fd id there s).pending_list ≡ s.pending_list
unfolding insert_conn
insert_conn-pending new_fd id none s = refl
insert_conn-pending new_fd id (some other) s = refl

handle_conn-pending :
    (r : Ready) (found : Option ℕ) (s : EventLoop)
    → (handle_conn r found s).pending_list ≡ s.pending_list
unfolding handle_conn handle_close
handle_conn-pending r none s = refl
handle_conn-pending r (some id) s = elim (Bool-cases r.at_end) [
  | inl closing ↦ rw closing refl
  | inr message ↦ rw message refl
]

handle_ready-pending :
    (r : Ready) (s after : EventLoop)
    → r.ready_fd ≢ s.event_fd
    → handle_ready r s ≡ some after
    → after.pending_list ≡ s.pending_list
unfolding handle_ready handle_connect
handle_ready-pending r s after other h = elim (Bool-cases (r.ready_fd == s.acceptor_fd)) [
  | inl new ↦
      ap (λ t. t.pending_list) (sym (some-injective _ after (rw new at h)))
      ∙ insert_conn-pending r.new_fd s.next_conn (s.conn_list r.new_fd) _
  | inr old ↦
      let event : (r.ready_fd == s.event_fd) ≡ false = ground (arith, other) in
      ap (λ t. t.pending_list) (sym (some-injective _ after (rw (old, event) at h)))
      ∙ handle_conn-pending r (s.conn_list r.ready_fd) s
]

do_works-pending :
    (l : List (ℕ × Word)) (s after : EventLoop)
    → do_works l s ≡ some after
    → after.pending_list ≡ s.pending_list
unfolding do_works
do_works-pending [] s after h = ap (λ t. t.pending_list) (sym (some-injective s after h))
do_works-pending ((id, msg) ∷ l) s after h = elim (Bool-cases (s.alive id)) [
  | inl alive ↦ do_works-pending l _ after (rw alive at h)
  | inr dead ↦ absurd (cc (rw dead at h))
]

Step-IsNoticed : {s t : Wakes} → Step s t → IsNoticed s → IsNoticed t
unfolding event_wake_up read_event_fd do_pending_work
Step-IsNoticed (adds id msg s) noticed = λ some_work. inr (inl (omega arith))
Step-IsNoticed (wakes left s e) noticed = λ some_work. inl (omega arith)
Step-IsNoticed (reads s idle ready) noticed = λ some_work. inr (inr refl)
Step-IsNoticed (works s after read run) noticed =
    λ some_work. absurd (some_work (do_works-pending s.looper.pending_list _ after run))
Step-IsNoticed (handles r s after idle other run) noticed =
    λ some_work. noticed λ e. some_work (handle_ready-pending r s.looper after other run ∙ e)

Reach-IsNoticed :
    {acceptor_fd event_fd : ℕ} {s : Wakes} → Reach acceptor_fd event_fd s → IsNoticed s
Reach-IsNoticed begun = λ some_work. absurd (some_work refl)
Reach-IsNoticed (then_by r step) = Step-IsNoticed step (Reach-IsNoticed r)

-- The messages as the calls that send them, in the order of the list, behind the calls so far.
abbrev pub sent : List (ℕ × Word) → List Call → List Call
sent [] calls = calls
sent ((id, msg) ∷ l) calls = sent l (sends id msg ∷ calls)

abbrev pub IsAlive : EventLoop → ℕ × Word → Type 0
IsAlive s (id, msg) = s.alive id ≡ true

pub do_works-sent :
    (l : List (ℕ × Word)) (s : EventLoop)
    → All (IsAlive s) l
    → do_works l s ≡ some (record s { calls = sent l s.calls })
unfolding do_works
do_works-sent [] s h = refl
do_works-sent ((id, msg) ∷ l) s h =
    rw h.0 (do_works-sent l (record s { calls = sends id msg ∷ s.calls }) h.1)

-- In every state that workers and loop reach, in any interleaving: where work is pending, no worker is
-- between the two calls of `SendToPending` and the loop is not in its branch for the eventfd, the
-- eventfd can be read, so the loop is not left asleep. Where the connections of that work are alive,
-- two steps of the loop then leave no work pending and have sent every message, in order.
pub Reach-Sends :
    {acceptor_fd event_fd : ℕ} {s : Wakes}
    → Reach acceptor_fd event_fd s
    → s.waking ≡ 0
    → s.has_read ≡ false
    → s.looper.pending_list ≢ []
    → All (IsAlive s.looper) s.looper.pending_list
    → (0 < s.counter)
      × (t u : Wakes) × Step s t
      × Step t u
      × (u.looper.pending_list ≡ [])
      × (u.looper.calls ≡ sent s.looper.pending_list s.looper.calls)
unfolding do_pending_work
Reach-Sends {s = s} r calm idle some_work alive =
    let ready : 0 < s.counter = elim (Reach-IsNoticed r some_work) [
      | inl counted ↦ counted
      | inr (inl between) ↦ absurd (omega (arith, between, calm))
      | inr (inr read) ↦ absurd (cc (read, idle))
    ] in
    let run = do_works-sent s.looper.pending_list (record s.looper { pending_list = [] }) alive in
    (ready, _, _, reads s idle ready, works _ _ refl run, refl, refl)
