-- ===== src/SocketIo/Transfer.antt =====
-- From `Writen` of one side to `Readn` of the other.
use kwd_server.Base.{
  ℕ, suc, ◌+◌, ◌-◌, ◌%◌, ◌≤◌, ◌<◌, min, ◌≡◌, refl, sym, ap, ◌∙◌, some, List, [], ◌∷◌, ◌++◌, length,
  length-append, arith, All, Word, take, take_of_length-le, subst,
}
use mathlib.Core.List.{append_assoc}
use kwd_server.SocketIo.{
  Recv, interrupted, got, returned, read_left, readn, readn_after, return_count, recv_again,
  le_value, le_bytes, send_buf, uint32_mod, Write, write_interrupted, write_failed, wrote, writen,
}
use kwd_server.SocketIo.Header.{HasNoGap, header, header_iff, header_zero}
use kwd_server.SocketIo.Buffer.{
  drop, drop-append, take_front, drop_front, length-strncpy, put-append, length-drop, send_buf_lem,
}

-- The calls of `recv` bring these bytes, in parts and with interruptions in between.
pub data Delivers : List Recv → Word → Type 0 where
  nothing : Delivers [] []
  again :
      {calls : List Recv} {b : ℕ} {w : Word}
      → Delivers calls (b ∷ w)
      → Delivers (interrupted ∷ calls) (b ∷ w)
  part :
      {calls : List Recv} {w : Word} (b : ℕ) (bytes : Word)
      → Delivers calls w
      → Delivers (got (b ∷ bytes) ∷ calls) (b ∷ (bytes ++ w))

-- A call with `MSG_WAITALL` that brings all the bytes at once, perhaps after interruptions.
pub data Whole : List Recv → Word → Type 0 where
  whole : (b : ℕ) (bytes : Word) → Whole (got (b ∷ bytes) ∷ []) (b ∷ bytes)
  retried : {calls : List Recv} {w : Word} → Whole calls w → Whole (interrupted ∷ calls) w

pub read_left-Delivers :
    {calls : List Recv} {w : Word}
    → Delivers calls w
    → (pre old : Word) (rest : List Recv) → length w < uint32_mod
    → length w ≤ length old
    → read_left (length w) (calls ++ rest) (length pre) (pre ++ old)
      ≡ returned 0 (pre ++ (w ++ drop (length w) old)) rest
unfolding read_left
read_left-Delivers nothing pre old rest small fits = refl
read_left-Delivers (again d) pre old rest small fits = read_left-Delivers d pre old rest small fits
read_left-Delivers (part {calls} {w} b bytes d) pre old rest small fits =
    let sum : length (bytes ++ w) ≡ length bytes + length w = length-append bytes w in
    let on : (suc (length (bytes ++ w)) + uint32_mod - suc (length bytes)) % uint32_mod ≡ length w =
      omega (arith, sum) in
    let here : length pre + suc (length bytes) ≡ length (pre ++ (b ∷ bytes)) =
      sym (length-append pre (b ∷ bytes)) in
    let behind = drop (suc (length bytes)) old in
    let left_over = drop (length w) behind in
    let next =
      read_left-Delivers d (pre ++ (b ∷ bytes)) behind rest (omega (arith, sum))
        (omega (arith, sum, length-drop (suc (length bytes)) old (omega (arith, sum)))) in
    rw (put-append (b ∷ bytes) pre old (omega (arith, sum)), on, here, read_left)
      (ap (read_left (length w) (calls ++ rest) (length (pre ++ (b ∷ bytes))))
          (sym (append_assoc pre (b ∷ bytes) behind))
        ∙ next
        ∙ ap (λ l. returned 0 l rest)
            (append_assoc pre (b ∷ bytes) (w ++ left_over)
              ∙ ap (λ l. pre ++ (b ∷ l)) (sym (append_assoc bytes w left_over))
              ∙ ap (λ l. pre ++ (b ∷ ((bytes ++ w) ++ l))) (sym (drop-append (b ∷ bytes) w old))))

-- `Readn` after its first call has brought these bytes as the length.
pub readn_lem :
    {start : List Recv} {bytes : Word}
    → Whole start bytes
    → (len_max : ℕ) (buf : Word) (calls : List Recv)
    → readn len_max buf (start ++ calls)
      ≡ return_count (le_value bytes) (read_left (min (le_value bytes) len_max) calls 0 buf)
unfolding readn recv_again readn_after
readn_lem (whole b bytes) len_max buf calls = refl
readn_lem (retried r) len_max buf calls = readn_lem r len_max buf calls

pub return_count_lem :
    (len : ℕ) (buf : Word) (calls : List Recv)
    → len < uint32_mod
    → return_count len (returned 0 buf calls) ≡ returned len buf calls
unfolding return_count
return_count_lem len buf calls small =
    let e : (len + uint32_mod - 0) % uint32_mod ≡ len = omega arith in rw e

writen-sent :
    (w : Word) (writes : List Write) (k : ℕ) (sent : Word)
    → writen w writes ≡ some (wrote k, sent)
    → sent ≡ take k (send_buf w)
unfolding writen
writen-sent w [] k sent h = absurd (cc h)
writen-sent w (write_interrupted ∷ writes) k sent h = writen-sent w writes k sent h
writen-sent w (write_failed ∷ writes) k sent h = absurd (cc h)
writen-sent w (wrote n ∷ writes) k sent h = cc

-- All of a message without zero bytes goes out as its header and itself.
pub writen_lem :
    (w : Word) (writes : List Write) (sent : Word)
    → All (λ b. 0 < b) w
    → length w < uint32_mod
    → writen w writes ≡ some (wrote (4 + length w), sent)
    → (take 4 sent ≡ header (length w)) × (drop 4 sent ≡ w)
writen_lem w writes sent nonzero small run =
    let shape = send_buf_lem w nonzero small in
    let four = length-strncpy 4 (le_bytes (length w)) in
    let all : sent ≡ header (length w) ++ w =
      writen-sent w writes (4 + length w) sent run
      ∙ ap (take (4 + length w)) shape
      ∙ take_of_length-le (4 + length w) (header (length w) ++ w)
          (omega (arith, length-append (header (length w)) w, four)) in
    (
      ap (take 4) all ∙ take_front 4 (header (length w)) w four,
      ap (drop 4) all ∙ drop_front 4 (header (length w)) w four,
    )

-- A message without zero bytes, whose length is below 2^32, fits the buffer and has no zero byte below
-- one that is not zero, and that `write` takes at once, is what `Readn` returns: if the four bytes
-- of the header come together and the others in any parts, with interruptions anywhere, the
-- result is the length, the buffer holds the message and is unchanged behind it, and no call is left
-- over or missing.
pub readn-writen :
    (w : Word) (len_max : ℕ) (buf : Word)
    → (writes : List Write) (sent : Word) (start calls rest : List Recv) → All (λ b. 0 < b) w
    → length w < uint32_mod
    → HasNoGap (length w)
    → length w ≤ len_max
    → length w ≤ length buf
    → writen w writes ≡ some (wrote (4 + length w), sent)
    → Whole start (take 4 sent)
    → Delivers calls (drop 4 sent)
    → readn len_max buf (start ++ (calls ++ rest))
      ≡ returned (length w) (w ++ drop (length w) buf) rest
readn-writen w len_max buf writes sent start calls rest nonzero small gapless max_fits fits run
      first others =
    let (front, back) = writen_lem w writes sent nonzero small run in
    let len : le_value (take 4 sent) ≡ length w =
      ap le_value front ∙ (header_iff (length w) small).1 gapless in
    let least : min (length w) len_max ≡ length w = omega arith in
    let others_w = subst (Delivers calls) back others in
    rw (
      readn_lem first len_max buf (calls ++ rest),
      len,
      least,
      read_left-Delivers others_w [] buf rest small fits,
      return_count_lem (length w) (w ++ drop (length w) buf) rest small,
    )

le_value_zero : le_value (0 ∷ 0 ∷ 0 ∷ 0 ∷ []) ≡ 0
unfolding le_value
le_value_zero = refl

-- Of a message without zero bytes whose length is a multiple of 256, `Readn` reads nothing: it
-- returns 0, as for a closed connection, and leaves the buffer as it is and every call after the
-- header's, with all the bytes of the message, to the next read.
pub readn_lost :
    (w : Word) (len_max : ℕ) (buf : Word)
    → (writes : List Write) (sent : Word) (start calls : List Recv) → All (λ b. 0 < b) w
    → length w < uint32_mod
    → length w % 256 ≡ 0
    → writen w writes ≡ some (wrote (4 + length w), sent)
    → Whole start (take 4 sent)
    → readn len_max buf (start ++ calls) ≡ returned 0 buf calls
unfolding read_left
readn_lost w len_max buf writes sent start calls nonzero small multiple run first =
    let (front, _) = writen_lem w writes sent nonzero small run in
    let none_left = front ∙ header_zero (length w) multiple in
    let least : min 0 len_max ≡ 0 = omega arith in
    rw (
      readn_lem first len_max buf calls,
      none_left,
      le_value_zero,
      least,
      return_count_lem 0 buf calls (omega arith),
    )
