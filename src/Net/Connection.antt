-- ===== src/Net/Connection.antt =====
-- Connections (src/tcp_server.cc), over what the system calls give.
use kwd_server.Base.{
  ℕ, Bool, true, false, Option, none, some, List, [], ◌∷◌, ◌++◌, if◌then◌else◌, Word,
}
use kwd_server.SocketIo.{Recv, interrupted, failed, got, Readn, readn, Write, writen}
use kwd_server.SocketIo.ReadLine.{read_line}
use kwd_server.EventLoop.{Call}
use kwd_server.Net.{Socket, SocketCall, socket_of, shut_down_write, socket_out, InetAddr}

-- `TcpServer`, a connection: both of its sockets hold the same descriptor. `id` is its identity.
pub record TcpServer : Type 0 where
  pub id : ℕ
  pub socket : Socket
  pub socket_io : Socket
  pub local_addr : InetAddr
  pub peer_addr : InetAddr
  pub is_shut_down : Bool
  pub connect : Option (ℕ → Call)
  pub message_back : Option (ℕ → Call)
  pub close : Option (ℕ → Call)

-- `getsockname` and `getpeername` give the addresses, or leave the zero bytes of `memset`.
unfoldable pub found_addr : Option InetAddr → InetAddr
found_addr none = record { s_addr = 0; sin_port = 0 }
found_addr (some addr) = addr

unfoldable pub new_tcp_server : ℕ → ℕ → Option InetAddr → Option InetAddr → TcpServer
new_tcp_server id fd local_addr peer_addr = record {
  id = id;
  socket = socket_of fd;
  socket_io = socket_of fd;
  local_addr = found_addr local_addr;
  peer_addr = found_addr peer_addr;
  is_shut_down = false;
  connect = none;
  message_back = none;
  close = none;
}

-- The setters of the callbacks; a callback is the call that the loop records of it.
unfoldable pub set_callbacks : (ℕ → Call) → (ℕ → Call) → (ℕ → Call) → TcpServer → TcpServer
set_callbacks on_connected on_message on_close conn = record conn {
  connect = some on_connected;
  message_back = some on_message;
  close = some on_close;
}

-- `HandleConnectCallBack`, `HandleMessageCallBack` and `HandleCloseCallBack`; a call of a function
-- that was not set throws, and has no result.
unfoldable pub handle_callback : Option (ℕ → Call) → TcpServer → Option Call
handle_callback none conn = none
handle_callback (some callback) conn = some (callback conn.id)

unfoldable pub tcp_shut_down_write : TcpServer → TcpServer × List SocketCall
tcp_shut_down_write conn = (
  if conn.is_shut_down then conn else record conn { is_shut_down = true },
  shut_down_write conn.socket,
)

unfoldable pub receive : ℕ → Word → List Recv → Readn
receive len buf calls = readn len buf calls

unfoldable receive_line : ℕ → Word → List Recv → Readn
receive_line len buf calls = read_line len buf calls

unfoldable pub send : Word → List Write → Option (Write × Word)
send msg calls = writen msg calls

-- `IsClose`, by what `recv` gives without waiting.
unfoldable pub is_close : Recv → Bool
is_close interrupted = false
is_close failed = false
is_close (got []) = true
is_close (got (b ∷ bytes)) = false

-- The destructor: the members go in the reverse order.
unfoldable pub tcp_server_out : TcpServer → List SocketCall
tcp_server_out conn = socket_out conn.socket_io ++ socket_out conn.socket
