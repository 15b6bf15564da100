-- ===== src/Tests/Net.antt =====
-- Connections over a concrete table of descriptors, and a concrete acceptor.
use kwd_server.Base.{
  ℕ, zero, suc, ◌≤◌, ◌<◌, ◌≡◌, ◌≢◌, refl, sym, ap, Bool, true, false, none, some, List, [], ◌∷◌,
  arith, Word, codes,
}
use kwd_server.Net.{
  minus_one, Inet, new_inet_addr, get_ip, get_port, connection_info, Acceptor, Given, Setup,
  reuse_ip, reuse_port, binds, listens, new_acceptor, accept, error_check,
}
use kwd_server.Net.Connection.{new_tcp_server, tcp_server_out}
use kwd_server.Text.{decimal, digits}
use kwd_server.Net.Connection.{set_callbacks, handle_callback}
use kwd_server.EventLoop.{connected, message, closed as closed_call}
use kwd_server.Net.Close.{Descriptors, do_calls, tcp_server_out_again}
use kwd_server.Net.Listen.{new_acceptor-Reports}

-- The place `fd` tells whether `fd` is open; behind the end nothing is.
abbrev is_open : ℕ → List Bool → Bool
is_open fd [] = false
is_open zero (b ∷ t) = b
is_open (suc fd) (b ∷ t) = is_open fd t

abbrev opens : List Bool → ℕ × List Bool
opens [] = (0, true ∷ [])
opens (false ∷ t) = (0, true ∷ t)
opens (true ∷ t) = (suc (opens t).0, true ∷ (opens t).1)

abbrev closed : ℕ → List Bool → List Bool
closed fd [] = []
closed zero (b ∷ t) = false ∷ t
closed (suc fd) (b ∷ t) = b ∷ closed fd t

opens_free : (t : List Bool) → is_open (opens t).0 t ≡ false
opens_free [] = refl
opens_free (false ∷ t) = refl
opens_free (true ∷ t) = opens_free t

opens_lowest : (t : List Bool) (fd : ℕ) → is_open fd t ≡ false → (opens t).0 ≤ fd
opens_lowest [] fd h = omega arith
opens_lowest (false ∷ t) fd h = omega arith
opens_lowest (true ∷ t) zero h = absurd (cc h)
opens_lowest (true ∷ t) (suc fd) h = omega (arith, opens_lowest t fd h)

opens_it : (t : List Bool) → is_open (opens t).0 (opens t).1 ≡ true
opens_it [] = refl
opens_it (false ∷ t) = refl
opens_it (true ∷ t) = opens_it t

closed_it : (t : List Bool) (fd : ℕ) → is_open fd (closed fd t) ≡ false
closed_it [] fd = refl
closed_it (b ∷ t) zero = refl
closed_it (b ∷ t) (suc fd) = closed_it t fd

closed_other :
    (t : List Bool) (fd other : ℕ) → fd ≢ other → is_open other (closed fd t) ≡ is_open other t
closed_other [] fd other h = refl
closed_other (b ∷ t) zero zero h = absurd (h refl)
closed_other (b ∷ t) zero (suc other) h = refl
closed_other (b ∷ t) (suc fd) zero h = refl
closed_other (b ∷ t) (suc fd) (suc other) h = closed_other t fd other (λ e. h (ap suc e))

abbrev table_descriptors : Descriptors
table_descriptors = record {
  Table = List Bool;
  is_open = is_open;
  opens = opens;
  closed = closed;
  opens_free = opens_free;
  opens_lowest = opens_lowest;
  opens_it = opens_it;
  closed_it = closed_it;
  closed_other = closed_other;
}

abbrev three : List Bool
three = true ∷ true ∷ true ∷ []

lower_open : (lower : ℕ) → lower < 1 → is_open lower three ≡ true
lower_open zero h = refl
lower_open (suc lower) h = absurd (omega (arith, h))

tcp_server_out_again_example :
    ((opens (closed 1 three)).0 ≡ 1)
    × (is_open (opens (closed 1 three)).0 (
          do_calls table_descriptors
            ((λ u. (opens u).1) ∷ [])
            (tcp_server_out (new_tcp_server 0 1 none none))
            three)
        ≡ false)
tcp_server_out_again_example = tcp_server_out_again table_descriptors 0 1 none none three lower_open

-- The one address is the loopback address, and ports are written as they are.
abbrev pub loopback_inet : Inet
loopback_inet = record {
  inet_addr = λ ip. 1;
  inet_ntoa = λ addr. codes "127.0.0.1";
  htons = λ port. port;
  ntohs = λ port. port;
  IsDotted = λ ip. ip ≡ codes "127.0.0.1";
  loopback-IsDotted = refl;
  ntohs-htons = λ port h. refl;
  ntoa-addr = λ ip h. sym h;
}

-- `bind` fails.
abbrev given : Given
given = record {
  of_socket = some 3;
  of_reuse_ip = some 0;
  of_reuse_port = some 0;
  of_bind = none;
  of_listen = some 0;
}

new_acceptor-Reports_example :
    (acceptor : Acceptor) × (calls : List Setup) × (printed : List Word) × (new_acceptor
        loopback_inet
        (codes "127.0.0.1")
        72224
        given
      ≡ (acceptor, calls, printed))
    × (calls
        ≡ reuse_ip acceptor.socket.fd
          ∷ reuse_port acceptor.socket.fd
          ∷ binds acceptor.socket.fd acceptor.addr
          ∷ listens acceptor.socket.fd
          ∷ [])
    × (acceptor.socket.fd ≡ 3)
    × (printed ≡ codes "bind: " ∷ [])
    × (get_ip loopback_inet acceptor.addr ≡ codes "127.0.0.1")
    × (get_port loopback_inet acceptor.addr ≡ 6688)
new_acceptor-Reports_example =
    new_acceptor-Reports loopback_inet (codes "127.0.0.1") 72224 given refl (omega arith)
      (omega arith) (omega arith) tt (omega arith)

failed_accept : accept none ≡ (minus_one, codes "accept: " ∷ [])
unfolding accept error_check
failed_accept = refl

info :
    connection_info loopback_inet
      (new_inet_addr loopback_inet (codes "127.0.0.1") 80)
      (new_inet_addr loopback_inet (codes "127.0.0.1") 7)
    ≡ codes "127.0.0.1:80 ---->  127.0.0.1:7"
unfolding connection_info get_ip get_port new_inet_addr decimal digits
info = refl

-- What the loop records of a new connection is what its callback gives.
called_back :
    handle_callback
      (set_callbacks connected message closed_call (new_tcp_server 5 7 none none)).connect
      (new_tcp_server 5 7 none none)
    ≡ some (connected 5)
unfolding handle_callback set_callbacks new_tcp_server
called_back = refl
