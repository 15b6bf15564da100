-- ===== src/Net/Close.antt =====
-- What becomes of the descriptor of a connection.
use kwd_server.Base.{
  ℕ, zero, suc, ◌≤◌, ◌<◌, ◌≡◌, ◌≢◌, refl, ap, ◌∙◌, Bool, true, false, Option, List, [], ◌∷◌, ◌++◌,
  arith, if◌then◌else◌, Bool-cases, inl, inr,
}
use native.Mathlib.Decide.{dec_le}
use kwd_server.Net.{Socket, SocketCall, shuts_down, closes, InetAddr, shut_down_write, socket_out}
use kwd_server.Net.Connection.{TcpServer, new_tcp_server, tcp_shut_down_write, tcp_server_out}

-- The descriptors of the process, as the system documents them: a new one has the lowest number that
-- is not open.
pub record Descriptors : Type 1 where
  pub Table : Type 0
  pub is_open : ℕ → Table → Bool
  pub opens : Table → ℕ × Table
  pub closed : ℕ → Table → Table
  pub opens_free : (t : Table) → is_open (opens t).0 t ≡ false
  pub opens_lowest : (t : Table) (fd : ℕ) → is_open fd t ≡ false → (opens t).0 ≤ fd
  pub opens_it : (t : Table) → is_open (opens t).0 (opens t).1 ≡ true
  pub closed_it : (t : Table) (fd : ℕ) → is_open fd (closed fd t) ≡ false
  pub closed_other :
      (t : Table) (fd other : ℕ) → fd ≢ other → is_open other (closed fd t) ≡ is_open other t

module _ (descriptors : Descriptors) where
  open descriptors use {
    Table, is_open, opens, closed, opens_free, opens_lowest, opens_it, closed_it, closed_other,
  }

  -- A call on the table, and the calls of one thread with what the other threads do after each.
  unfoldable pub do_call : SocketCall → Table → Table
  do_call (shuts_down fd) t = t
  do_call (closes fd) t = closed fd t

  unfoldable pub do_calls : List (Table → Table) → List SocketCall → Table → Table
  do_calls others [] t = t
  do_calls [] (c ∷ calls) t = do_calls [] calls (do_call c t)
  do_calls (other ∷ others) (c ∷ calls) t = do_calls others calls (other (do_call c t))

  -- When a connection is destroyed and no other thread comes between, its descriptor is closed, and
  -- every other one is as before.
  tcp_server_out-closes :
      (id fd : ℕ) (local_addr peer_addr : Option InetAddr) (t : Table)
      → (is_open fd (do_calls [] (tcp_server_out (new_tcp_server id fd local_addr peer_addr)) t)
          ≡ false)
        × ((other : ℕ)
            → fd ≢ other
            → is_open other
                (do_calls [] (tcp_server_out (new_tcp_server id fd local_addr peer_addr)) t)
              ≡ is_open other t)
  unfolding do_calls do_call tcp_server_out new_tcp_server socket_out
  tcp_server_out-closes id fd local_addr peer_addr t = (
    closed_it (closed fd t) fd,
    λ other h. closed_other (closed fd t) fd other h ∙ closed_other t fd other h,
  )

  -- Where all lower descriptors are open, and another thread opens one just after the first socket of
  -- the connection has closed its own, that one gets the same number; and the second socket closes it.
  pub tcp_server_out_again :
      (id fd : ℕ) (local_addr peer_addr : Option InetAddr) (t : Table)
      → ((lower : ℕ) → lower < fd → is_open lower t ≡ true)
      → ((opens (closed fd t)).0 ≡ fd)
        × (is_open (opens (closed fd t)).0 (
              do_calls
                ((λ u. (opens u).1) ∷ [])
                (tcp_server_out (new_tcp_server id fd local_addr peer_addr))
                t)
            ≡ false)
  unfolding do_calls do_call tcp_server_out new_tcp_server socket_out
  tcp_server_out_again id fd local_addr peer_addr t lower =
      let new = (opens (closed fd t)).0 in
      let at_most = opens_lowest (closed fd t) fd (closed_it t fd) in
      let same : new ≡ fd = elim (dec_le fd new) [
        | yes above ↦ omega (arith, at_most, above)
        | no below ↦ absurd (
            cc (
              opens_free (closed fd t),
              closed_other t fd new (λ e. ground (arith, e, below)),
              lower new (omega (arith, below)),
            ))
      ] in
      (same, ap (λ n. is_open n (closed fd (opens (closed fd t)).1)) same ∙ closed_it _ fd)

-- Any number of calls of `ShutDownWrite`, from the making of the connection on.
unfoldable shut_downs : ℕ → TcpServer → TcpServer × List SocketCall
shut_downs zero conn = (conn, [])
shut_downs (suc n) conn =
    let (next, calls) = tcp_shut_down_write conn in
    let (last, rest) = shut_downs n next in (last, calls ++ rest)

shut_down-socket : (conn : TcpServer) → (tcp_shut_down_write conn).0.socket ≡ conn.socket
unfolding tcp_shut_down_write
shut_down-socket conn = elim (Bool-cases conn.is_shut_down) [
  | inl down ↦ ap (λ b. (if b then conn else record conn { is_shut_down = true }).socket) down
  | inr up ↦ ap (λ b. (if b then conn else record conn { is_shut_down = true }).socket) up
]

shut_down_write-quiet : (s : Socket) → s.is_close ≡ false → shut_down_write s ≡ []
unfolding shut_down_write
shut_down_write-quiet s up = ap (λ b. if b then shuts_down s.fd ∷ [] else []) up

shut_downs-quiet :
    (n : ℕ) (conn : TcpServer) → conn.socket.is_close ≡ false → (shut_downs n conn).1 ≡ []
unfolding shut_downs tcp_shut_down_write
shut_downs-quiet zero conn up = refl
shut_downs-quiet (suc n) conn up =
    let next = (tcp_shut_down_write conn).0 in
    ap (λ calls. calls ++ (shut_downs n next).1) (shut_down_write-quiet conn.socket up)
    ∙ shut_downs-quiet n next (ap (λ s. s.is_close) (shut_down-socket conn) ∙ up)

-- However often `ShutDownWrite` of a connection is called, nothing is shut down; the connection is
-- marked as shut down all the same, after the first call.
shut_downs_nothing :
    (id fd n : ℕ) (local_addr peer_addr : Option InetAddr)
    → ((shut_downs n (new_tcp_server id fd local_addr peer_addr)).1 ≡ [])
      × ((tcp_shut_down_write (new_tcp_server id fd local_addr peer_addr)).0.is_shut_down ≡ true)
unfolding new_tcp_server tcp_shut_down_write
shut_downs_nothing id fd n local_addr peer_addr =
    (shut_downs-quiet n (new_tcp_server id fd local_addr peer_addr) refl, refl)
