-- ===== src/SocketIo.antt =====
-- `SocketIO` (src/socket_IO.cc): messages behind their length in four bytes. What `recv` and `write`
-- give is a list of outcomes, one for each call; a run that needs more outcomes than there are does
-- not return. The machine is little-endian, `int` and `uint32_t` have 32 bits.
pub mod Header
pub mod Buffer
pub mod Transfer
pub mod Bounds
pub mod ReadLine
use kwd_server.Base.{
  ℕ, zero, suc, ◌+◌, ◌-◌, ◌*◌, ◌/◌, ◌%◌, ◌^◌, min, Option, none, some, List, [], ◌∷◌, ◌++◌, ◌>>=◌,
  length, take, ◌==◌, if◌then◌else◌, Word,
}

-- A call of `recv`: -1 with `EINTR`, -1 for another reason, or the bytes, none if the peer is gone.
pub data Recv : Type 0 where
  interrupted : Recv
  failed : Recv
  got : Word → Recv

-- How `Readn` ends: with its result (the bits of the `int`), the buffer and the calls that are left,
-- or never, or by a use of memory outside of the buffer.
pub data Readn : Type 0 where
  returned : ℕ → Word → List Recv → Readn
  blocks : Readn
  fault : Readn

abbrev pub uint32_mod : ℕ
uint32_mod = 2 ^ 32

unfoldable pub le_value : Word → ℕ
le_value [] = 0
le_value (b ∷ bytes) = b + 256 * le_value bytes

unfoldable pub le_bytes : ℕ → Word
le_bytes n = n % 256 ∷ n / 256 % 256 ∷ n / 65536 % 256 ∷ n / 16777216 % 256 ∷ []

-- The bytes from `ptr`, `pos` bytes behind the start of the buffer.
unfoldable pub put : Word → ℕ → Word → Option Word
put [] zero buf = some buf
put (b ∷ bytes) zero [] = none
put (b ∷ bytes) zero (x ∷ buf) = do after ← put bytes zero buf; some (b ∷ after)
put bytes (suc pos) [] = none
put bytes (suc pos) (x ∷ buf) = do after ← put bytes pos buf; some (x ∷ after)

-- The loop that waits out `EINTR`.
unfoldable pub recv_again : List Recv → Option (Recv × List Recv)
recv_again [] = none
recv_again (interrupted ∷ calls) = recv_again calls
recv_again (failed ∷ calls) = some (failed, calls)
recv_again (got bytes ∷ calls) = some (got bytes, calls)

-- `while (left > 0)`, with what is left when it ends in place of the result. After a failure `ret`
-- is -1: `left` grows by one, and `ptr` goes back by one.
unfoldable pub read_left : ℕ → List Recv → ℕ → Word → Readn
read_left zero calls pos buf = returned 0 buf calls
read_left (suc left) [] pos buf = blocks
read_left (suc left) (interrupted ∷ calls) pos buf = read_left (suc left) calls pos buf
read_left (suc left) (failed ∷ calls) zero buf = fault
read_left (suc left) (failed ∷ calls) (suc pos) buf =
    read_left ((suc left + 1) % uint32_mod) calls pos buf
read_left (suc left) (got [] ∷ calls) pos buf = returned (suc left) buf calls
read_left (suc left) (got (b ∷ bytes) ∷ calls) pos buf = elim (put (b ∷ bytes) pos buf) [
  | none ↦ fault
  | some after ↦
      read_left ((suc left + uint32_mod - length (b ∷ bytes)) % uint32_mod) calls
        (pos + length (b ∷ bytes)) after
]

unfoldable pub return_count : ℕ → Readn → Readn
return_count len (returned left buf calls) =
    returned ((len + uint32_mod - left) % uint32_mod) buf calls
return_count len blocks = blocks
return_count len fault = fault

-- `Readn` once the call for the length has succeeded, failed or ended; a failure leaves `len` zero.
-- `recv_again` never gives `interrupted`.
unfoldable pub readn_after : ℕ → Word → Recv → List Recv → Readn
readn_after len_max buf interrupted calls = blocks
readn_after len_max buf failed calls = return_count 0 (read_left (min 0 len_max) calls 0 buf)
readn_after len_max buf (got []) calls = returned 0 buf calls
readn_after len_max buf (got (b ∷ bytes)) calls =
    let len = le_value (b ∷ bytes) in return_count len (read_left (min len len_max) calls 0 buf)

unfoldable pub readn : ℕ → Word → List Recv → Readn
readn len_max buf calls = elim (recv_again calls) [
  | none ↦ blocks
  | some (call, rest) ↦ readn_after len_max buf call rest
]

-- A string ends at its first zero byte, or else at the end of the list.
unfoldable pub strlen : Word → ℕ
strlen [] = 0
strlen (c ∷ buf) = if c == 0 then 0 else suc (strlen buf)

unfoldable pub strncpy : ℕ → Word → Word
strncpy zero src = []
strncpy (suc n) [] = 0 ∷ strncpy n []
strncpy (suc n) (c ∷ src) = if c == 0 then 0 ∷ strncpy n [] else c ∷ strncpy n src

-- The bytes that `Writen` makes of `buf`.
unfoldable pub send_buf : Word → Word
send_buf buf = strncpy 4 (le_bytes (strlen buf % uint32_mod)) ++ strncpy (strlen buf) buf

pub data Write : Type 0 where
  write_interrupted : Write
  write_failed : Write
  wrote : ℕ → Write

-- `Writen`: the result of the last `write`, with the bytes that went out.
unfoldable pub writen : Word → List Write → Option (Write × Word)
writen buf [] = none
writen buf (write_interrupted ∷ calls) = writen buf calls
writen buf (write_failed ∷ calls) = some (write_failed, [])
writen buf (wrote ret ∷ calls) = some (wrote ret, take ret (send_buf buf))
