-- ===== src/Net/Listen.antt =====
-- What the acceptor listens on, and what it says of failures.
use kwd_server.Base.{
  ℕ, ◌%◌, ◌^◌, ◌<◌, ◌≡◌, refl, ap, Bool, true, false, Option, none, some, List, [], ◌∷◌, ◌++◌,
  arith, Word, codes, if◌then◌else◌, ◌==◌,
}
use kwd_server.Net.{
  minus_one, bits, error_check, Inet, new_inet_addr, get_port, get_ip, Acceptor, Given, Setup,
  reuse_ip, reuse_port, binds, listens, new_socket, new_acceptor, set_up, set_reuse_ip,
  set_reuse_port, bind, listen,
}

-- What a call gives: -1, or a number of type `int` that is not negative.
abbrev pub IsInt : Option ℕ → Type 0
IsInt none = Unit
IsInt (some n) = n < 2 ^ 31

abbrev pub message_of : Option ℕ → Word → List Word
message_of none str = str ∷ []
message_of (some n) str = []

error_check-message :
    (given : Option ℕ) (str : Word)
    → IsInt given
    → (error_check minus_one (bits given) str).1 ≡ message_of given str
unfolding error_check
error_check-message none str h = refl
error_check-message (some n) str h =
    let other : (minus_one == n) ≡ false = ground (arith, h) in
    ap (λ (r : Bool × List Word). r.1) (ap (λ b. if b then (false, str ∷ []) else (true, [])) other)

new_socket-message :
    (given : Option ℕ) → IsInt given → (new_socket given).1 ≡ message_of given (codes "Socket: ")
unfolding new_socket error_check
new_socket-message none h = refl
new_socket-message (some n) h =
    let other : (n == minus_one) ≡ false = ground (arith, h) in
    ap (λ (r : Bool × List Word). r.1)
      (ap (λ b. if b then (false, codes "Socket: " ∷ []) else (true, [])) other)

module _ (inet : Inet) where
  open inet use {IsDotted, ntohs-htons, ntoa-addr}

  -- Whatever the calls give, the constructor of the acceptor makes them all, in order and on one
  -- descriptor, which is -1 where there is no socket; it prints one message for each call that fails,
  -- and binds the address that it was given, with the port modulo 65536.
  pub new_acceptor-Reports :
      (ip : Word) (port : ℕ) (given : Given)
      → IsDotted ip
      → IsInt given.of_socket
      → IsInt given.of_reuse_ip
      → IsInt given.of_reuse_port
      → IsInt given.of_bind
      → IsInt given.of_listen
      → (acceptor : Acceptor) × (calls : List Setup) × (printed : List Word) × (new_acceptor inet ip
            port given
          ≡ (acceptor, calls, printed))
        × (calls
            ≡ reuse_ip acceptor.socket.fd
              ∷ reuse_port acceptor.socket.fd
              ∷ binds acceptor.socket.fd acceptor.addr
              ∷ listens acceptor.socket.fd
              ∷ [])
        × (acceptor.socket.fd ≡ bits given.of_socket)
        × (printed
            ≡ message_of given.of_socket (codes "Socket: ")
              ++ (message_of given.of_reuse_ip (codes "setsockopt_IP: ")
                  ++ (message_of given.of_reuse_port (codes "setsockopt_port: ")
                      ++ (message_of given.of_bind (codes "bind: ")
                          ++ message_of given.of_listen (codes "listen ")))))
        × (get_ip inet acceptor.addr ≡ ip)
        × (get_port inet acceptor.addr ≡ port % 2 ^ 16)
  unfolding new_acceptor set_up set_reuse_ip set_reuse_port bind listen new_socket get_ip get_port
      new_inet_addr
  new_acceptor-Reports ip port given dotted of_socket of_ip of_port of_bind of_listen =
      let acceptor = (new_acceptor inet ip port given).0 in
      let calls = (new_acceptor inet ip port given).1 in
      let printed = (new_acceptor inet ip port given).2 in
      (
        acceptor,
        calls,
        printed,
        refl,
        refl,
        refl,
        rw (
          new_socket-message given.of_socket of_socket,
          error_check-message given.of_reuse_ip (codes "setsockopt_IP: ") of_ip,
          error_check-message given.of_reuse_port (codes "setsockopt_port: ") of_port,
          error_check-message given.of_bind (codes "bind: ") of_bind,
          error_check-message given.of_listen (codes "listen ") of_listen,
        ),
        ntoa-addr ip dotted,
        ntohs-htons (port % 2 ^ 16) (omega arith),
      )
