-- ===== src/Request/Buffers.antt =====
-- Strings in buffers.
use kwd_server.Base.{
  ℕ, zero, suc, ◌+◌, ◌<◌, ◌≡◌, refl, ap, false, none, some, List, [], ◌∷◌, ◌++◌, arith, All, length,
  take, ◌==◌, Word,
}
use kwd_server.SocketIo.{Recv, readn, Write, wrote, writen}
use kwd_server.SocketIo.Header.{HasNoGap}
use kwd_server.SocketIo.Buffer.{drop}
use kwd_server.SocketIo.Transfer.{Delivers, Whole, readn-writen}
use kwd_server.Request.{zeros, c_string, received}

pub length-zeros : (n : ℕ) → length (zeros n) ≡ n
length-zeros zero = refl
length-zeros (suc n) = ap suc (length-zeros n)

drop-zeros : (k n : ℕ) → k < n → (rest : Word) × (drop k (zeros n) ≡ 0 ∷ rest)
drop-zeros k zero h = absurd (omega arith)
drop-zeros zero (suc n) h = (zeros n, refl)
drop-zeros (suc k) (suc n) h = drop-zeros k n (omega arith)

c_string-append : (w rest : Word) → All (λ b. 0 < b) w → c_string (w ++ (0 ∷ rest)) ≡ some w
unfolding c_string
c_string-append [] rest h = refl
c_string-append (b ∷ w) rest h =
    let other : (b == 0) ≡ false = ground (arith, h.0) in
    rw (c_string-append w rest h.1, other) refl

pub c_string_positive : (w : Word) → All (λ b. 0 < b) w → c_string w ≡ none
unfolding c_string
c_string_positive [] h = refl
c_string_positive (b ∷ w) h =
    let other : (b == 0) ≡ false = ground (arith, h.0) in rw (c_string_positive w h.1, other) refl

-- A message that one side can send to the other, by these calls of `write` and `recv`: it has no zero
-- byte, is shorter than the buffer, and its length has no zero byte below one that is not zero; it
-- goes out at once, its header comes together, and the rest in any parts, with interruptions
-- anywhere.
pub record Carries (w : Word) (writes : List Write) (start calls : List Recv) : Type 0 where
  pub nonzero : All (λ b. 0 < b) w
  pub fits : length w < 1024
  pub gapless : HasNoGap (length w)
  pub sent : Word
  pub goes_out : writen w writes ≡ some (wrote (4 + length w), sent)
  pub header_comes : Whole start (take 4 sent)
  pub rest_comes : Delivers calls (drop 4 sent)

pub received-Carries :
    {w : Word} {writes : List Write} {start calls : List Recv}
    → Carries w writes start calls
    → (rest : List Recv)
    → received (readn 1024 (zeros 1024) (start ++ (calls ++ rest))) ≡ some (w, rest)
unfolding received
received-Carries {w} {writes} {start} {calls} k rest =
    let (behind, zero_next) = drop-zeros (length w) 1024 k.fits in
    rw (
      readn-writen w 1024 (zeros 1024) writes k.sent start calls rest k.nonzero
          (omega (arith, k.fits)) k.gapless (omega (arith, k.fits))
          (omega (arith, k.fits, length-zeros 1024)) k.goes_out k.header_comes k.rest_comes,
      zero_next,
      c_string-append w behind k.nonzero,
    )
