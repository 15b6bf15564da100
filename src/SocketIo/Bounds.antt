-- ===== src/SocketIo/Bounds.antt =====
-- What `Readn` may touch of its buffer, and what its result says.
use kwd_server.Base.{
  ℕ, suc, ◌+◌, ◌-◌, ◌%◌, ◌≤◌, ◌<◌, min, ◌≡◌, sym, ap, ◌∙◌, subst, List, [], ◌∷◌, ◌++◌, length,
  length-append, arith, Word,
}
use mathlib.Core.List.{append_assoc}
use kwd_server.SocketIo.{
  Recv, interrupted, got, Readn, returned, blocks, read_left, readn, return_count, le_value,
  uint32_mod,
}
use kwd_server.SocketIo.Buffer.{drop, drop-append, put-append, length-drop}
use kwd_server.SocketIo.Transfer.{Whole, readn_lem}

-- Calls of `recv` that never fail and never bring more bytes than they were asked for, when `left`
-- bytes are still wanted.
pub data Fits : ℕ → List Recv → Type 0 where
  full : {calls : List Recv} → Fits 0 calls
  no_more : {left : ℕ} → Fits (suc left) []
  after_signal :
      {left : ℕ} {calls : List Recv} → Fits (suc left) calls → Fits (suc left) (interrupted ∷ calls)
  closed : {left : ℕ} {calls : List Recv} → Fits (suc left) (got [] ∷ calls)
  brings :
      {more : ℕ} {calls : List Recv} (b : ℕ) (bytes : Word)
      → Fits more calls
      → Fits (suc (length bytes + more)) (got (b ∷ bytes) ∷ calls)

-- Behind `pre` at most `left` bytes have changed, and the rest is missing.
data IsWithin (left : ℕ) (pre old : Word) : Readn → Type 0 where
  ends :
      (bytes : Word) (rest : List Recv)
      → length bytes ≤ left
      → IsWithin left pre old
          (returned (left - length bytes) (pre ++ (bytes ++ drop (length bytes) old)) rest)
  hangs : IsWithin left pre old blocks

-- What is within the rest of the buffer after some bytes is within the buffer.
IsWithin-append :
    (b : ℕ) (bytes pre old : Word) (more : ℕ) {r : Readn}
    → IsWithin more (pre ++ (b ∷ bytes)) (drop (suc (length bytes)) old) r
    → IsWithin (suc (length bytes + more)) pre old r
IsWithin-append b bytes pre old more (ends new rest h) =
    let sum : length (bytes ++ new) ≡ length bytes + length new = length-append bytes new in
    let behind = drop (length new) (drop (suc (length bytes)) old) in
    let missing : suc (length bytes + more) - suc (length (bytes ++ new)) ≡ more - length new =
      omega (arith, sum) in
    let buffer : pre ++ ((b ∷ (bytes ++ new)) ++ drop (suc (length (bytes ++ new))) old)
        ≡ (pre ++ (b ∷ bytes)) ++ (new ++ behind) =
      ap (λ l. pre ++ (b ∷ ((bytes ++ new) ++ l))) (drop-append (b ∷ bytes) new old)
      ∙ ap (λ l. pre ++ (b ∷ l)) (append_assoc bytes new behind)
      ∙ sym (append_assoc pre (b ∷ bytes) (new ++ behind)) in
    subst (IsWithin (suc (length bytes + more)) pre old)
      (ap
          (λ k.
            returned k (pre ++ ((b ∷ (bytes ++ new)) ++ drop (suc (length (bytes ++ new))) old))
              rest)
          missing
        ∙ ap (λ l. returned (more - length new) l rest) buffer)
      (ends (b ∷ (bytes ++ new)) rest (omega (arith, sum)))
IsWithin-append b bytes pre old more hangs = hangs

read_left-IsWithin :
    {left : ℕ} {calls : List Recv}
    → Fits left calls
    → (pre old : Word) → left < uint32_mod
    → left ≤ length old
    → IsWithin left pre old (read_left left calls (length pre) (pre ++ old))
unfolding read_left
read_left-IsWithin full pre old small room = ends [] _ (omega arith)
read_left-IsWithin no_more pre old small room = hangs
read_left-IsWithin (after_signal f) pre old small room = read_left-IsWithin f pre old small room
read_left-IsWithin (closed {left} {calls}) pre old small room =
    let all : suc left - 0 ≡ suc left = omega arith in
    subst (IsWithin (suc left) pre old) (ap (λ k. returned k (pre ++ old) calls) all)
      (ends [] calls (omega arith))
read_left-IsWithin (brings {more} {calls} b bytes f) pre old small room =
    let on : (suc (length bytes + more) + uint32_mod - suc (length bytes)) % uint32_mod ≡ more =
      omega arith in
    let here : length pre + suc (length bytes) ≡ length (pre ++ (b ∷ bytes)) =
      sym (length-append pre (b ∷ bytes)) in
    let behind = drop (suc (length bytes)) old in
    let next =
      read_left-IsWithin f (pre ++ (b ∷ bytes)) behind (omega arith)
        (omega (arith, length-drop (suc (length bytes)) old (omega arith))) in
    IsWithin-append b bytes pre old more (
      rw (put-append (b ∷ bytes) pre old (omega arith), on, here, read_left)
        (subst
          (λ l.
            IsWithin more (pre ++ (b ∷ bytes)) behind
              (read_left more calls (length (pre ++ (b ∷ bytes))) l))
          (append_assoc pre (b ∷ bytes) behind) next))

-- `Readn` with the length `len` ends with some bytes at the start of the buffer, no more than `len`
-- and `len_max`, the rest of the buffer as it was, and `len` less the bytes that are missing of the
-- lesser one as the result; or it waits.
pub data IsRead (buf : Word) (len len_max : ℕ) : Readn → Type 0 where
  stops :
      (bytes : Word) (rest : List Recv)
      → length bytes ≤ min len len_max
      → IsRead buf len len_max (
          returned (len - (min len len_max - length bytes)) (bytes ++ drop (length bytes) buf) rest)
  waits : IsRead buf len len_max blocks

return_count-IsWithin :
    (len len_max : ℕ) (buf : Word) {r : Readn}
    → len < uint32_mod
    → IsWithin (min len len_max) [] buf r
    → IsRead buf len len_max (return_count len r)
unfolding return_count
return_count-IsWithin len len_max buf small (ends bytes rest h) =
    let e : len - (min len len_max - length bytes)
        ≡ (len + uint32_mod - (min len len_max - length bytes)) % uint32_mod =
      omega arith in
    subst (IsRead buf len len_max) (ap (λ k. returned k (bytes ++ drop (length bytes) buf) rest) e)
      (stops bytes rest h)
return_count-IsWithin len len_max buf small hangs = waits

-- When the length comes whole, is below 2^32, the buffer has room for `len_max` bytes, and the other
-- calls of `recv` bring no more than they are asked for and do not fail: `Readn` never writes
-- outside the first `len_max` bytes, nor past the length; what it leaves is the bytes it got and
-- behind them the old buffer; and its result is the length less what is missing, so it is the
-- number of bytes only if the length is at most `len_max`.
pub readn-IsRead :
    (buf : Word) (len_max : ℕ) {start calls : List Recv} {bytes : Word}
    → Whole start bytes
    → le_value bytes < uint32_mod
    → len_max ≤ length buf
    → Fits (min (le_value bytes) len_max) calls
    → IsRead buf (le_value bytes) len_max (readn len_max buf (start ++ calls))
readn-IsRead buf len_max {start} {calls} {bytes} first small room f =
    subst (IsRead buf (le_value bytes) len_max) (sym (readn_lem first len_max buf calls)) (
      return_count-IsWithin (le_value bytes) len_max buf small
        (read_left-IsWithin f [] buf (omega arith) (omega arith)))
