-- ===== src/Net.antt =====
-- Sockets, addresses and connections (src/socket.cc, src/inet_addr.cc, src/accept.cc, src/tcp_server.cc,
-- include/error_check.hpp), over what the system calls give: a number, or none for -1. A descriptor is
-- the bits of the `int`.
pub mod Close
pub mod Connection
pub mod Listen
use kwd_server.Base.{
  ℕ, ◌-◌, ◌%◌, ◌^◌, ◌<◌, ◌≡◌, Bool, true, false, Option, none, some, List, [], ◌∷◌, ◌++◌, ◌==◌,
  if◌then◌else◌, Word, codes,
}
use kwd_server.Text.{decimal}
use kwd_server.SocketIo.{Recv, interrupted, failed, got, Readn, readn, Write, writen}
use kwd_server.EventLoop.{Call}

abbrev pub minus_one : ℕ
minus_one = 2 ^ 32 - 1

-- What a system call gives, as the bits of the `int`.
abbrev pub bits : Option ℕ → ℕ
bits none = minus_one
bits (some n) = n

-- `ErrorCheck`: its result, and what it prints.
unfoldable pub error_check : ℕ → ℕ → Word → Bool × List Word
error_check para1 para2 str = if para1 == para2 then (false, str ∷ []) else (true, [])

-- `Socket`, and the calls of `shutdown` and `close`.
pub record Socket : Type 0 where
  pub fd : ℕ
  pub is_close : Bool

pub data SocketCall : Type 0 where
  shuts_down : ℕ → SocketCall
  closes : ℕ → SocketCall

abbrev pub socket_of : ℕ → Socket
socket_of fd = record { fd = fd; is_close = false }

-- `Socket()` with what `socket` gives
unfoldable pub new_socket : Option ℕ → Socket × List Word
new_socket created =
    (socket_of (bits created), (error_check (bits created) minus_one (codes "Socket: ")).1)

unfoldable pub shut_down_write : Socket → List SocketCall
shut_down_write s = if s.is_close then shuts_down s.fd ∷ [] else []

unfoldable pub socket_out : Socket → List SocketCall
socket_out s = closes s.fd ∷ []

-- What the program uses of the network library, with what it documents: the byte order of a port can
-- be turned back, and so can an address in its canonical writing.
pub record Inet : Type 1 where
  pub inet_addr : Word → ℕ
  pub inet_ntoa : ℕ → Word
  pub htons : ℕ → ℕ
  pub ntohs : ℕ → ℕ
  pub IsDotted : Word → Type 0
  pub loopback-IsDotted : IsDotted (codes "127.0.0.1")
  pub ntohs-htons : (port : ℕ) → port < 2 ^ 16 → ntohs (htons port) ≡ port
  pub ntoa-addr : (ip : Word) → IsDotted ip → inet_ntoa (inet_addr ip) ≡ ip

-- `struct sockaddr_in`
pub record InetAddr : Type 0 where
  pub s_addr : ℕ
  pub sin_port : ℕ

pub record Acceptor : Type 0 where
  pub socket : Socket
  pub addr : InetAddr

-- The calls of the constructor, each with the descriptor that it gets.
pub data Setup : Type 0 where
  reuse_ip reuse_port listens : ℕ → Setup
  binds : ℕ → InetAddr → Setup

-- What the calls of the constructor give.
pub record Given : Type 0 where
  pub of_socket : Option ℕ
  pub of_reuse_ip : Option ℕ
  pub of_reuse_port : Option ℕ
  pub of_bind : Option ℕ
  pub of_listen : Option ℕ

unfoldable pub set_reuse_ip : Option ℕ → Acceptor → Setup × List Word
set_reuse_ip given acceptor =
    (reuse_ip acceptor.socket.fd, (error_check minus_one (bits given) (codes "setsockopt_IP: ")).1)

unfoldable pub set_reuse_port : Option ℕ → Acceptor → Setup × List Word
set_reuse_port given acceptor = (
  reuse_port acceptor.socket.fd,
  (error_check minus_one (bits given) (codes "setsockopt_port: ")).1,
)

unfoldable pub bind : Option ℕ → Acceptor → Setup × List Word
bind given acceptor = (
  binds acceptor.socket.fd acceptor.addr,
  (error_check minus_one (bits given) (codes "bind: ")).1,
)

unfoldable pub listen : Option ℕ → Acceptor → Setup × List Word
listen given acceptor =
    (listens acceptor.socket.fd, (error_check minus_one (bits given) (codes "listen ")).1)

-- The body of the constructors: the calls, and what is printed.
unfoldable pub set_up : Given → Acceptor → List Setup × List Word
set_up given acceptor =
    let (call1, printed1) = set_reuse_ip given.of_reuse_ip acceptor in
    let (call2, printed2) = set_reuse_port given.of_reuse_port acceptor in
    let (call3, printed3) = bind given.of_bind acceptor in
    let (call4, printed4) = listen given.of_listen acceptor in
    (call1 ∷ call2 ∷ call3 ∷ call4 ∷ [], printed1 ++ (printed2 ++ (printed3 ++ printed4)))

module _ (inet : Inet) where
  open inet use {inet_addr, inet_ntoa, htons, ntohs}

  -- The parameter `port` is an `unsigned short`, which takes what it holds of the number.
  unfoldable pub new_inet_addr : Word → ℕ → InetAddr
  new_inet_addr ip port = record { s_addr = inet_addr ip; sin_port = htons (port % 2 ^ 16) }

  unfoldable loopback_addr : ℕ → InetAddr
  loopback_addr port = record {
    s_addr = inet_addr (codes "127.0.0.1");
    sin_port = htons (port % 2 ^ 16);
  }

  unfoldable pub get_port : InetAddr → ℕ
  get_port addr = ntohs addr.sin_port

  unfoldable pub get_ip : InetAddr → Word
  get_ip addr = inet_ntoa addr.s_addr

  -- `ConnectionInfo`
  unfoldable pub connection_info : InetAddr → InetAddr → Word
  connection_info local_addr peer_addr =
      get_ip local_addr
      ++ (codes ":"
          ++ (decimal (get_port local_addr)
              ++ (codes " ---->  "
                  ++ (get_ip peer_addr ++ (codes ":" ++ decimal (get_port peer_addr))))))

  abbrev acceptor_of : Socket → InetAddr → Acceptor
  acceptor_of socket addr = record { socket = socket; addr = addr }

  -- Both constructors: the acceptor, the calls, and what is printed.
  unfoldable pub new_acceptor : Word → ℕ → Given → Acceptor × List Setup × List Word
  new_acceptor ip port given =
      let (socket, printed) = new_socket given.of_socket in
      let acceptor = acceptor_of socket (new_inet_addr ip port) in
      let (calls, more) = set_up given acceptor in (acceptor, calls, printed ++ more)

  unfoldable new_port_acceptor : ℕ → Given → Acceptor × List Setup × List Word
  new_port_acceptor port given =
      let (socket, printed) = new_socket given.of_socket in
      let acceptor = acceptor_of socket (loopback_addr port) in
      let (calls, more) = set_up given acceptor in (acceptor, calls, printed ++ more)

-- `Accept`
unfoldable pub accept : Option ℕ → ℕ × List Word
accept given =
    let (fine, printed) = error_check minus_one (bits given) (codes "accept: ") in
    (if fine then bits given else minus_one, printed)
