-- ===== src/Request/Overlong.antt =====
-- A message that fills the buffer of the server.
use kwd_server.Base.{
  ℕ, zero, suc, ◌+◌, ◌≤◌, ◌<◌, min, ◌≡◌, refl, ap, ◌∙◌, subst, none, some, List, [], ◌∷◌, ◌++◌,
  arith, All, All-take, length, length-take, take, Word,
}
use mathlib.Core.List.{append-nil}
use kwd_server.SocketIo.{Recv, returned, le_value, read_left, uint32_mod, Write, wrote, writen}
use kwd_server.SocketIo.Header.{HasNoGap, header_iff}
use kwd_server.SocketIo.Buffer.{drop}
use kwd_server.SocketIo.Transfer.{
  Delivers, Whole, readn_lem, return_count_lem, read_left-Delivers, writen_lem,
}
use kwd_server.Net.Connection.{receive}
use kwd_server.Request.{zeros, c_string, received, message}
use kwd_server.Request.Buffers.{length-zeros, c_string_positive}

drop_all : (n : ℕ) (l : Word) → length l ≡ n → drop n l ≡ []
drop_all zero [] h = refl
drop_all zero (b ∷ l) h = absurd (ground (arith, h))
drop_all (suc n) [] h = refl
drop_all (suc n) (b ∷ l) h = drop_all n l (omega (arith, h))

overlong_none :
    (conn : ℕ) (all : List Recv) (buf : Word) (count : ℕ) (rest : List Recv)
    → receive 1024 (zeros 1024) all ≡ returned count buf rest
    → c_string buf ≡ none
    → message conn all ≡ none
unfolding message received
overlong_none conn all buf count rest reads endless = rw (reads, received, endless) refl

-- A client that sends 1024 bytes or more, none of them zero, with a length that the reader finds: the
-- callback of the server, once the first 1024 bytes have come, has been given the length of all that
-- was sent, and a buffer that they fill, without a zero. No string ends in it, so the callback reads
-- behind the buffer and makes no task.
pub message_overlong :
    (w : Word) (conn : ℕ) (writes : List Write) (sent : Word) (start calls rest : List Recv)
    → All (λ b. 0 < b) w
    → 1024 ≤ length w
    → length w < uint32_mod
    → HasNoGap (length w)
    → writen w writes ≡ some (wrote (4 + length w), sent)
    → Whole start (take 4 sent)
    → Delivers calls (take 1024 w)
    → (receive 1024 (zeros 1024) (start ++ (calls ++ rest))
        ≡ returned (length w) (take 1024 w) rest)
      × (length (take 1024 w) ≡ length (zeros 1024))
      × (c_string (take 1024 w) ≡ none)
      × (message conn (start ++ (calls ++ rest)) ≡ none)
unfolding receive
message_overlong w conn writes sent start calls rest nonzero long small gapless run first comes =
    let (front, _) = writen_lem w writes sent nonzero small run in
    let len : le_value (take 4 sent) ≡ length w =
      ap le_value front ∙ (header_iff (length w) small).1 gapless in
    let least : min (length w) 1024 ≡ 1024 = omega arith in
    let filled : length (take 1024 w) ≡ 1024 = omega (arith, length-take 1024 w) in
    let read =
      read_left-Delivers comes [] (zeros 1024) rest (omega (arith, filled))
        (omega (arith, filled, length-zeros 1024)) in
    let behind : drop (length (take 1024 w)) (zeros 1024) ≡ [] =
      drop_all (length (take 1024 w)) (zeros 1024) (omega (arith, filled, length-zeros 1024)) in
    let exact : take 1024 w ++ drop (length (take 1024 w)) (zeros 1024) ≡ take 1024 w =
      ap (λ l. take 1024 w ++ l) behind ∙ append-nil (take 1024 w) in
    let full =
      subst
        (λ n.
          read_left n (calls ++ rest) 0 (zeros 1024)
          ≡ returned 0 (take 1024 w ++ drop (length (take 1024 w)) (zeros 1024)) rest)
        filled read in
    let reads : receive 1024 (zeros 1024) (start ++ (calls ++ rest))
        ≡ returned (length w) (take 1024 w) rest =
      rw (
        readn_lem first 1024 (zeros 1024) (calls ++ rest),
        len,
        least,
        full,
        exact,
        return_count_lem (length w) (take 1024 w) rest small,
      ) in
    let endless = c_string_positive (take 1024 w) (All-take (λ b. 0 < b) 1024 w nonzero) in
    (
      reads,
      omega (arith, filled, length-zeros 1024),
      endless,
      overlong_none conn _ _ (length w) rest reads endless,
    )
