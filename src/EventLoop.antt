-- ===== src/EventLoop.antt =====
-- `EventLoop` (src/event_loop.cc) with the part of `TcpServer` (src/tcp_server.cc) that it calls: the
-- table of connections, the dispatch of ready descriptors and the pending work. A descriptor is the
-- bits of the `int`. A connection has an identity, since pending work keeps `this` of a
-- `TcpServer`; the callbacks of the server keep no pointer to it. The table is a function, as nothing
-- walks through it.
pub mod Proper
pub mod Rounds
pub mod Wakes
pub mod Watch
pub mod Served
use kwd_server.Base.{
  ℕ, suc, ◌+◌, ◌*◌, Bool, true, false, Option, none, some, List, [], ◌∷◌, ◌++◌, length, ◌>>=◌, ◌==◌,
  if◌then◌else◌, Word,
}

-- A call of a callback of a connection, or of its `Send`.
pub data Call : Type 0 where
  connected closed message : ℕ → Call
  sends : ℕ → Word → Call

-- `calls` are the calls so far, the last one first; `next_conn` counts the connections made. A
-- connection that is not `alive` has been destroyed.
pub record EventLoop : Type 0 where
  pub acceptor_fd : ℕ
  pub event_fd : ℕ
  pub list_size : ℕ
  pub pending_list : List (ℕ × Word)
  pub conn_list : ℕ → Option ℕ
  pub alive : ℕ → Bool
  pub next_conn : ℕ
  pub calls : List Call

-- A ready descriptor, with what the system calls of its handler give: the descriptor of the new
-- connection, and whether `recv` of `IsClose` gives 0.
pub record Ready : Type 0 where
  pub ready_fd : ℕ
  pub new_fd : ℕ
  pub at_end : Bool

abbrev pub put {ℓ} : {A : Type ℓ} → ℕ → A → (ℕ → A) → ℕ → A
put k v f j = if j == k then v else f j

-- `conn_list_.insert`, which leaves an entry that is there; the new connection then is destroyed at
-- the end of the call.
unfoldable pub insert_conn : ℕ → ℕ → Option ℕ → EventLoop → EventLoop
insert_conn new_fd id (some there) s = s
insert_conn new_fd id none s = record s {
  conn_list = put new_fd (some id) s.conn_list;
  alive = put id true s.alive;
}

unfoldable pub handle_connect : ℕ → EventLoop → EventLoop
handle_connect new_fd s =
    let id = s.next_conn in
    insert_conn new_fd id (s.conn_list new_fd)
      (record s { next_conn = id + 1; calls = connected id ∷ s.calls })

-- `HandleClose` for the connection that `find` gave
unfoldable pub handle_close : ℕ → ℕ → EventLoop → EventLoop
handle_close fd id s = record s {
  calls = closed id ∷ s.calls;
  conn_list = put fd none s.conn_list;
  alive = put id false s.alive;
}

-- The loop of `DoPendingWork` over `tmp`; a work of a destroyed connection has no result.
unfoldable pub do_works : List (ℕ × Word) → EventLoop → Option EventLoop
do_works [] s = some s
do_works ((id, msg) ∷ tmp) s =
    let rest = do_works tmp (record s { calls = sends id msg ∷ s.calls }) in
    if s.alive id then rest else none

unfoldable pub do_pending_work : EventLoop → Option EventLoop
do_pending_work s = do_works s.pending_list (record s { pending_list = [] })

unfoldable pub handle_conn : Ready → Option ℕ → EventLoop → EventLoop
handle_conn r none s = s
handle_conn r (some id) s =
    if r.at_end then handle_close r.ready_fd id s else record s { calls = message id ∷ s.calls }

-- The body of the loop in `EpollWait`.
unfoldable pub handle_ready : Ready → EventLoop → Option EventLoop
handle_ready r s =
    if r.ready_fd == s.acceptor_fd
    then some (handle_connect r.new_fd s)
    else (if r.ready_fd == s.event_fd
        then do_pending_work s
        else some (handle_conn r (s.conn_list r.ready_fd) s))

unfoldable pub handle_all : List Ready → EventLoop → Option EventLoop
handle_all [] s = some s
handle_all (r ∷ rest) s = do t ← handle_ready r s; handle_all rest t

-- `EpollWait` with what `epoll_wait` gives, `none` for a failure, an interruption or a time-out.
unfoldable pub epoll_wait : Option (List Ready) → EventLoop → Option EventLoop
epoll_wait none s = some s
epoll_wait (some []) s = some s
epoll_wait (some (r ∷ rest)) s =
    handle_all (r ∷ rest)
      (if length (r ∷ rest) == s.list_size then record s { list_size = s.list_size * 2 } else s)

-- `AddPendingWork`, from a worker thread.
unfoldable pub add_pending_work : ℕ → Word → EventLoop → EventLoop
add_pending_work id msg s = record s { pending_list = s.pending_list ++ (id, msg) ∷ [] }

-- `EventLoop`: the two descriptors are watched, and there are no connections.
abbrev pub new_loop : ℕ → ℕ → EventLoop
new_loop acceptor_fd event_fd = record {
  acceptor_fd = acceptor_fd;
  event_fd = event_fd;
  list_size = 1024;
  pending_list = [];
  conn_list = λ fd. none;
  alive = λ id. false;
  next_conn = 0;
  calls = [];
}
