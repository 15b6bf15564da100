-- ===== src/EventLoop/Watch.antt =====
-- The epoll set of the loop and the loop itself (src/event_loop.cc): the constructor, `EpollAdd`,
-- `EpollDel`, `Loop` and `UnLoop`.
use kwd_server.Base.{
  Word, codes, ◌-◌, ◌^◌, ℕ, Bool, true, false, Option, none, some, List, [], ◌∷◌, ◌>>=◌, ◌==◌,
  if◌then◌else◌,
}
use kwd_server.EventLoop.{EventLoop, Ready, put, handle_ready, epoll_wait, new_loop}

-- `EventFdCreate` and `EpollCreate`, with what the system gives: the descriptor, which is -1 after a
-- failure, and what is printed.
unfoldable pub event_fd_create : Option ℕ → ℕ × List Word
event_fd_create none = (2 ^ 32 - 1, codes "eventfd_create: " ∷ [])
event_fd_create (some efd) = (efd, [])

unfoldable pub epoll_create : Option ℕ → ℕ × List Word
epoll_create none = (2 ^ 32 - 1, codes "epoll_create1: " ∷ [])
epoll_create (some efd) = (efd, [])

-- `EpollAdd` and `EpollDel`, with whether `epoll_ctl` succeeds; a failure is only printed.
unfoldable pub epoll_add : Bool → ℕ → (ℕ → Bool) → ℕ → Bool
epoll_add success fd epoll = if success then put fd true epoll else epoll

unfoldable pub epoll_del : Bool → ℕ → (ℕ → Bool) → ℕ → Bool
epoll_del success fd epoll = if success then put fd false epoll else epoll

-- The loop with the descriptors in its epoll set.
pub record Watched : Type 0 where
  pub looper : EventLoop
  pub epoll : ℕ → Bool
  pub is_looping : Bool

-- The constructor, with whether each call of `EpollAdd` succeeds.
unfoldable pub new_watched : Bool → Bool → ℕ → ℕ → Watched
new_watched success1 success2 acceptor_fd event_fd = record {
  looper = new_loop acceptor_fd event_fd;
  epoll = epoll_add success2 event_fd (epoll_add success1 acceptor_fd (λ fd. false));
  is_looping = false;
}

-- What the handler of a connection does to the set.
unfoldable pub epoll_conn : Bool → Ready → Option ℕ → (ℕ → Bool) → ℕ → Bool
epoll_conn success r none epoll = epoll
epoll_conn success r (some id) epoll =
    if r.at_end then epoll_del success r.ready_fd epoll else epoll

-- What the body of the loop in `EpollWait` does to the set.
unfoldable pub epoll_ready : Bool → Ready → EventLoop → (ℕ → Bool) → ℕ → Bool
epoll_ready success r s epoll =
    if r.ready_fd == s.acceptor_fd
    then epoll_add success r.new_fd epoll
    else (if r.ready_fd == s.event_fd
        then epoll
        else epoll_conn success r (s.conn_list r.ready_fd) epoll)

unfoldable pub watched_ready : Bool → Ready → Watched → Option Watched
watched_ready success r w = do
  after ← handle_ready r w.looper
  some (record w { looper = after; epoll = epoll_ready success r w.looper w.epoll })

-- What `Loop` meets: a round of `EpollWait`, with what `epoll_wait` gives, or a call of `UnLoop`.
pub data LoopEvent : Type 0 where
  waited : Option (List Ready) → LoopEvent
  unlooped : LoopEvent

unfoldable pub unloop : Bool → Bool
unloop is_looping = if is_looping then false else is_looping

-- `while (is_looping_) EpollWait();`, with the events that have not been met when it ends.
unfoldable pub loop_rounds : List LoopEvent → Bool → EventLoop → Option (EventLoop × List LoopEvent)
loop_rounds [] is_looping s = some (s, [])
loop_rounds (waited ready ∷ events) false s = some (s, waited ready ∷ events)
loop_rounds (waited ready ∷ events) true s = do
  after ← epoll_wait ready s
  loop_rounds events true after
loop_rounds (unlooped ∷ events) is_looping s = loop_rounds events (unloop is_looping) s

-- `Loop`
unfoldable pub run_loop : List LoopEvent → EventLoop → Option (EventLoop × List LoopEvent)
run_loop events s = loop_rounds events true s
