-- ===== src/EventLoop/Rounds.antt =====
-- The loop over its rounds, with work added in between.
use kwd_server.Base.{
  ℕ, ◌*◌, ◌≡◌, refl, subst, inl, inr, Option, none, some, List, [], ◌∷◌, length, Bool-cases, ◌==◌,
  Word,
}
use mathlib.Core.Option.{some-injective}
use kwd_server.EventLoop.{EventLoop, Ready, handle_all, epoll_wait, add_pending_work, new_loop}
use kwd_server.EventLoop.Proper.{IsProper, handle_ready-IsProper, pending-IsProper}

-- The states of the loop between the rounds of `EpollWait` and the calls of `AddPendingWork`.
pub data Reach (acceptor_fd event_fd : ℕ) : EventLoop → Type 0 where
  begun : Reach acceptor_fd event_fd (new_loop acceptor_fd event_fd)
  waited :
      {s t : EventLoop} (ready : Option (List Ready))
      → Reach acceptor_fd event_fd s
      → epoll_wait ready s ≡ some t
      → Reach acceptor_fd event_fd t
  added :
      {s : EventLoop} (id : ℕ) (msg : Word)
      → Reach acceptor_fd event_fd s
      → Reach acceptor_fd event_fd (add_pending_work id msg s)

handle_all-IsProper :
    (l : List Ready) (s t : EventLoop) → handle_all l s ≡ some t → IsProper s → IsProper t
unfolding handle_all
handle_all-IsProper [] s t h k = subst IsProper (some-injective s t h) k
handle_all-IsProper (r ∷ rest) s t h k = elim (handle_ready-IsProper r s k) [
  | inl (u, run, p) ↦ handle_all-IsProper rest u t (rw run at h) p
  | inr (run, _) ↦ absurd (cc (rw run at h))
]

resized-IsProper :
    (size : ℕ) (s : EventLoop) → IsProper s → IsProper (record s { list_size = size })
resized-IsProper size s k = record {
  in_table = k.in_table;
  single = k.single;
  open_if_alive = k.open_if_alive;
  fresh = k.fresh;
  unbroken = k.unbroken;
}

epoll_wait-IsProper :
    (ready : Option (List Ready)) (s t : EventLoop)
    → epoll_wait ready s ≡ some t
    → IsProper s
    → IsProper t
unfolding epoll_wait
epoll_wait-IsProper none s t h k = subst IsProper (some-injective s t h) k
epoll_wait-IsProper (some []) s t h k = subst IsProper (some-injective s t h) k
epoll_wait-IsProper (some (r ∷ rest)) s t h k =
    elim (Bool-cases (length (r ∷ rest) == s.list_size)) [
      | inl full ↦
          handle_all-IsProper (r ∷ rest) _ t (rw full at h) (resized-IsProper (s.list_size * 2) s k)
      | inr room ↦ handle_all-IsProper (r ∷ rest) s t (rw room at h) k
    ]

-- In every state that the loop reaches, whatever descriptors are ready, whatever their system calls
-- give and whatever work is added: each connection has seen `on_connected_` first, then only messages
-- and sends, then `on_close_` at most once and nothing after it; every entry of the table is a
-- connection that is alive and open, and no connection stands there twice.
pub Reach-IsProper :
    {acceptor_fd event_fd : ℕ} {s : EventLoop} → Reach acceptor_fd event_fd s → IsProper s
unfolding add_pending_work
Reach-IsProper begun = record {
  in_table = λ fd id h. cc;
  single = λ a b i h g. cc;
  open_if_alive = λ i h. cc;
  fresh = λ i h. refl;
  unbroken = λ i h. cc;
}
Reach-IsProper (waited {s} {t} ready r run) = epoll_wait-IsProper ready s t run (Reach-IsProper r)
Reach-IsProper (added {s} id msg r) = pending-IsProper _ s (Reach-IsProper r)
