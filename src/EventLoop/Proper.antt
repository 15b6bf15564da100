-- ===== src/EventLoop/Proper.antt =====
-- What each connection sees: `on_connected_`, then messages and sends, then `on_close_` once.
use kwd_server.Base.{
  ℕ, ◌+◌, ◌≤◌, ◌<◌, ◌≡◌, ◌≢◌, refl, ◌⊎◌, inl, inr, true, false, Option, none, some, List, [], ◌∷◌,
  arith, Bool-cases, ◌==◌, if◌then◌else◌, Word, In,
}
use kwd_server.EventLoop.{
  Call, connected, closed, message, sends, EventLoop, Ready, insert_conn, handle_connect,
  handle_close, do_works, do_pending_work, handle_conn, handle_ready,
}

pub data Phase : Type 0 where
  unborn opened ended broken : Phase

-- The call moves a connection from phase to phase.
abbrev pub move : Call → Phase → Phase
move (connected id) unborn = opened
move (closed id) opened = ended
move (message id) opened = opened
move (sends id msg) opened = opened
move call phase = broken

abbrev pub subject : Call → ℕ
subject (connected id) = id
subject (closed id) = id
subject (message id) = id
subject (sends id msg) = id

abbrev pub phase : ℕ → List Call → Phase
phase id [] = unborn
phase id (call ∷ calls) =
    let before = phase id calls in if subject call == id then move call before else before

pub record IsProper (s : EventLoop) : Type 0 where
  pub in_table : (fd id : ℕ) → s.conn_list fd ≡ some id → (id < s.next_conn) × (s.alive id ≡ true)
  pub single : (fd fd' id : ℕ) → s.conn_list fd ≡ some id → s.conn_list fd' ≡ some id → fd ≡ fd'
  pub open_if_alive :
      (id : ℕ) → s.alive id ≡ true → (id < s.next_conn) × (phase id s.calls ≡ opened)
  pub fresh : (id : ℕ) → s.next_conn ≤ id → phase id s.calls ≡ unborn
  pub unbroken : (id : ℕ) → phase id s.calls ≢ broken

insert_conn-IsProper :
    (fd : ℕ) (s : EventLoop) (entry : Option ℕ)
    → s.conn_list fd ≡ entry
    → IsProper s
    → IsProper (
        insert_conn fd s.next_conn entry
          (record s { next_conn = s.next_conn + 1; calls = connected s.next_conn ∷ s.calls }))
unfolding insert_conn
insert_conn-IsProper fd s none e k =
    let new = k.fresh s.next_conn (omega arith) in
    record {
      in_table = λ a i h. ground (arith, k.in_table a i);
      single = λ a b i h g. ground (arith, k.single a b i, k.in_table a i, k.in_table b i);
      open_if_alive = λ i h. ground (arith, k.open_if_alive i, new);
      fresh = λ i h. ground (arith, k.fresh i);
      unbroken = λ i. ground (arith, k.unbroken i, new);
    }
insert_conn-IsProper fd s (some there) e k =
    let new = k.fresh s.next_conn (omega arith) in
    record {
      in_table = λ a i h. ground (arith, k.in_table a i);
      single = k.single;
      open_if_alive = λ i h. ground (arith, k.open_if_alive i, new);
      fresh = λ i h. ground (arith, k.fresh i);
      unbroken = λ i. ground (arith, k.unbroken i, new);
    }

handle_close-IsProper :
    (fd id : ℕ) (s : EventLoop)
    → s.conn_list fd ≡ some id
    → IsProper s
    → IsProper (handle_close fd id s)
unfolding handle_close
handle_close-IsProper fd id s there k =
    let (low, live) = k.in_table fd id there in
    let (_, now) = k.open_if_alive id live in
    record {
      in_table = λ fd' id' h. ground (arith, k.in_table fd' id', k.single fd fd' id there);
      single = λ a b i h g. ground (arith, k.single a b i);
      open_if_alive = λ i h. ground (arith, k.open_if_alive i);
      fresh = λ i h. ground (arith, k.fresh i);
      unbroken = λ i. ground (arith, k.unbroken i, now);
    }

-- A message or a send of a connection that is alive.
called-IsProper :
    (call : Call) (s : EventLoop)
    → move call opened ≡ opened
    → s.alive (subject call) ≡ true
    → IsProper s
    → IsProper (record s { calls = call ∷ s.calls })
called-IsProper call s stays live k =
    let (low, now) = k.open_if_alive (subject call) live in
    record {
      in_table = k.in_table;
      single = k.single;
      open_if_alive = λ i h. ground (arith, k.open_if_alive i, stays, now);
      fresh = λ i h. ground (arith, k.fresh i);
      unbroken = λ i. ground (arith, k.unbroken i, stays, now);
    }

-- A work is of a connection that is destroyed.
abbrev pub HasDead : List (ℕ × Word) → EventLoop → Type 0
HasDead works s = (id : ℕ) × (msg : Word) × In (id, msg) works × (s.alive id ≡ false)

-- The works are all done, or one of them is of a connection that is destroyed.
do_works-IsProper :
    (tmp : List (ℕ × Word)) (s : EventLoop)
    → IsProper s
    → ((t : EventLoop) × (do_works tmp s ≡ some t) × IsProper t)
      ⊎ ((do_works tmp s ≡ none) × HasDead tmp s)
unfolding do_works
do_works-IsProper [] s k = inl (s, refl, k)
do_works-IsProper ((id, msg) ∷ tmp) s k = elim (Bool-cases (s.alive id)) [
  | inl live ↦
      elim (do_works-IsProper tmp (record s { calls = sends id msg ∷ s.calls })
        (called-IsProper (sends id msg) s refl live k)) [
          | inl (t, run, p) ↦ inl (t, rw live run, p)
          | inr (run, (i, m, inside, dead)) ↦ inr (rw live run, (i, m, inr inside, dead))
        ]
  | inr dead ↦ inr (rw dead refl, (id, msg, inl refl, dead))
]

pub pending-IsProper :
    (works : List (ℕ × Word)) (s : EventLoop)
    → IsProper s
    → IsProper (record s { pending_list = works })
pending-IsProper works s k = record {
  in_table = k.in_table;
  single = k.single;
  open_if_alive = k.open_if_alive;
  fresh = k.fresh;
  unbroken = k.unbroken;
}

handle_conn-IsProper :
    (r : Ready) (entry : Option ℕ) (s : EventLoop)
    → s.conn_list r.ready_fd ≡ entry
    → IsProper s
    → IsProper (handle_conn r entry s)
unfolding handle_conn
handle_conn-IsProper r none s e k = k
handle_conn-IsProper r (some id) s e k = elim (Bool-cases r.at_end) [
  | inl end ↦ rw end (handle_close-IsProper r.ready_fd id s e k)
  | inr more ↦ rw more (called-IsProper (message id) s refl ((k.in_table r.ready_fd id e).1) k)
]

-- From a proper state, the handling of a ready descriptor ends in a proper state, unless a pending work
-- is of a connection that is destroyed: then it may use that connection.
pub handle_ready-IsProper :
    (r : Ready) (s : EventLoop)
    → IsProper s
    → ((t : EventLoop) × (handle_ready r s ≡ some t) × IsProper t)
      ⊎ ((handle_ready r s ≡ none) × HasDead s.pending_list s)
unfolding handle_ready do_pending_work handle_connect
handle_ready-IsProper r s k = elim (Bool-cases (r.ready_fd == s.acceptor_fd)) [
  | inl acceptor ↦
      inl (handle_connect r.new_fd s, rw acceptor refl, insert_conn-IsProper r.new_fd s _ refl k)
  | inr other ↦ elim (Bool-cases (r.ready_fd == s.event_fd)) [
    | inl event ↦
        rw (other, event)
          (do_works-IsProper s.pending_list (record s { pending_list = [] })
            (pending-IsProper [] s k))
    | inr conn ↦ inl (
      handle_conn r (s.conn_list r.ready_fd) s,
      rw (other, conn) refl,
      handle_conn-IsProper r (s.conn_list r.ready_fd) s refl k,
    )
  ]
]
