-- ===== src/SocketIo/ReadLine.antt =====
-- `ReadLine` and `ReadPeek` (src/socket_IO.cc). `left` starts as 0, where `len` is meant.
use kwd_server.Base.{
  ℕ, zero, suc, ◌+◌, ◌-◌, ◌^◌, ◌<◌, ◌≡◌, Option, none, some, List, [], ◌∷◌, ◌++◌, ◌>>=◌, length,
  take, ◌==◌, ltb, if◌then◌else◌, Word,
}
use kwd_server.SocketIo.{
  Recv, interrupted, failed, got, Readn, returned, blocks, fault, put, recv_again, readn,
  return_count, uint32_mod,
}
use kwd_server.SocketIo.Buffer.{drop}
use kwd_server.SocketIo.Transfer.{return_count_lem}

-- `ReadPeek`: `recv` with `MSG_PEEK`, again after an interruption.
unfoldable pub read_peek : List Recv → Option (Recv × List Recv)
read_peek calls = recv_again calls

-- The first place of a newline.
unfoldable pub newline_in : Word → Option ℕ
newline_in [] = none
newline_in (c ∷ bytes) =
    let later = newline_in bytes in if c == b'\n' then some 0 else (do i ← later; some (suc i))

-- `Readn(ptr, len_max)`, with `ptr` that far behind the start of the buffer; the result is of no use
-- to `ReadLine`. A `ptr` that goes back before where it was counts as a fault.
unfoldable pub readn_at : ℕ → ℕ → Word → List Recv → Readn
readn_at len_max ptr buf calls = elim (readn len_max (drop ptr buf) calls) [
  | returned count after rest ↦ returned count (take ptr buf ++ after) rest
  | blocks ↦ blocks
  | fault ↦ fault
]

-- What follows a call of `Readn` that returns.
unfoldable pub after_readn : Readn → (List Recv → Word → Readn) → Readn
after_readn (returned count buf rest) next = next rest buf
after_readn blocks next = blocks
after_readn fault next = fault

-- *ptr = '\0'; left -= ret; and the end of the function.
unfoldable pub end_line : ℕ → ℕ → List Recv → Word → Readn
end_line left ptr rest buf = elim (put (0 ∷ []) ptr buf) [
  | none ↦ fault
  | some ended ↦ returned left ended rest
]

-- The loop over the `ret` bytes that `ReadPeek` has put at the start of the buffer, and what follows
-- it, with what is left of the length, `ptr` and the buffer.
unfoldable pub scan_line : (List Recv → ℕ → ℕ → Word → Readn) → ℕ → List Recv → ℕ → ℕ → Word → Readn
scan_line again ret rest left ptr buf = elim (newline_in (take ret (drop ptr buf))) [
  | some i ↦ after_readn (readn_at (suc i) ptr buf rest) (end_line (left - ret) (ptr + ret))
  | none ↦
      if ltb (length buf) (ptr + ret)
      then fault
      else after_readn (readn_at ret ptr buf rest)
          (λ calls after. again calls (left - ret) (ptr + ret) after)
]

-- A round of the loop with what `ReadPeek` gives; after a failure `ret` is -1.
unfoldable pub line_round :
    (List Recv → ℕ → ℕ → Word → Readn) → Recv → List Recv → ℕ → ℕ → Word → Readn
line_round again interrupted rest left ptr buf = blocks
line_round again failed rest left zero buf =
    after_readn (readn_at (2 ^ 64 - 1) 0 buf rest) (λ calls after. fault)
line_round again failed rest left (suc ptr) buf =
    after_readn (readn_at (2 ^ 64 - 1) (suc ptr) buf rest)
      (λ calls after. again calls (left + 1) ptr after)
line_round again (got []) rest left ptr buf = returned left buf rest
line_round again (got (b ∷ bytes)) rest left ptr buf = elim (put (b ∷ bytes) 0 buf) [
  | none ↦ fault
  | some peeked ↦ scan_line again (suc (length bytes)) rest left ptr peeked
]

-- `while (left > 0)`, with what is left when it ends in place of the result. Each round takes a call,
-- so the number of the calls is rounds enough.
unfoldable pub read_line_left : ℕ → List Recv → ℕ → ℕ → Word → Readn
read_line_left rounds calls zero ptr buf = returned 0 buf calls
read_line_left zero calls (suc left) ptr buf = blocks
read_line_left (suc rounds) calls (suc left) ptr buf =
    let again = read_line_left rounds in
    elim (read_peek calls) [
      | none ↦ blocks
      | some (call, rest) ↦ line_round again call rest (suc left) ptr buf
    ]

-- `ReadLine`
unfoldable pub read_line : ℕ → Word → List Recv → Readn
read_line len buf calls = return_count len (read_line_left (length calls) calls 0 0 buf)

-- Whatever there is to read, `ReadLine` reads nothing of it and leaves the buffer as it is, and returns
-- the whole length as if it had read so much.
read_line_nothing :
    (len : ℕ) (buf : Word) (calls : List Recv)
    → len < uint32_mod
    → read_line len buf calls ≡ returned len buf calls
unfolding read_line read_line_left
read_line_nothing len buf calls small = return_count_lem len buf calls small
