-- ===== src/Tests/SocketIo.antt =====
-- Messages at concrete inputs.
use kwd_server.Base.{ℕ, zero, suc, ◌≡◌, ◌<◌, refl, some, List, [], ◌∷◌, ◌++◌, arith, All, Word}
use kwd_server.SocketIo.{
  Recv, interrupted, failed, got, returned, fault, readn, writen, write_interrupted, wrote,
  send_buf, le_value, strlen, strncpy, le_bytes, recv_again, readn_after, return_count, read_left,
  put,
}
use kwd_server.SocketIo.Transfer.{whole, retried, nothing, again, part, readn-writen, readn_lost}
use kwd_server.SocketIo.Bounds.{closed, brings, IsRead, readn-IsRead}

abbrev hi : Word
hi = 104 ∷ 105 ∷ []

abbrev hi_sent : Word
hi_sent = 2 ∷ 0 ∷ 0 ∷ 0 ∷ 104 ∷ 105 ∷ []

abbrev hi_start : List Recv
hi_start = interrupted ∷ got (2 ∷ 0 ∷ 0 ∷ 0 ∷ []) ∷ []

abbrev hi_calls : List Recv
hi_calls = got (104 ∷ []) ∷ interrupted ∷ got (105 ∷ []) ∷ []

abbrev buffer : Word
buffer = 9 ∷ 9 ∷ 9 ∷ []

hi_written : writen hi (write_interrupted ∷ wrote 6 ∷ []) ≡ some (wrote 6, hi_sent)
unfolding writen send_buf strlen strncpy le_bytes
hi_written = refl

readn-writen_example :
    readn 3 buffer (hi_start ++ (hi_calls ++ (failed ∷ [])))
    ≡ returned 2 (104 ∷ 105 ∷ 9 ∷ []) (failed ∷ [])
readn-writen_example =
    readn-writen hi 3 buffer (write_interrupted ∷ wrote 6 ∷ []) hi_sent hi_start hi_calls
      (failed ∷ []) (omega arith, (omega arith, tt)) (omega arith)
      (λ h. absurd (omega arith), λ h. omega arith, λ h. omega arith) (omega arith) (omega arith)
      hi_written (retried (whole 2 (0 ∷ 0 ∷ 0 ∷ []))) (part 104 [] (again (part 105 [] nothing)))

abbrev ones : ℕ → Word
ones zero = []
ones (suc n) = 1 ∷ ones n

ones_nonzero : (n : ℕ) → All (λ b. 0 < b) (ones n)
ones_nonzero zero = tt
ones_nonzero (suc n) = (omega arith, ones_nonzero n)

abbrev long_word : Word
long_word = ones 256

long_written : writen long_word (wrote 260 ∷ []) ≡ some (wrote 260, 0 ∷ 0 ∷ 0 ∷ 0 ∷ long_word)
unfolding writen send_buf strlen strncpy le_bytes
long_written = refl

readn_lost_example :
    readn 1024 buffer (got (0 ∷ 0 ∷ 0 ∷ 0 ∷ []) ∷ got long_word ∷ [])
    ≡ returned 0 buffer (got long_word ∷ [])
readn_lost_example =
    readn_lost long_word 1024 buffer (wrote 260 ∷ []) (0 ∷ 0 ∷ 0 ∷ 0 ∷ long_word)
      (got (0 ∷ 0 ∷ 0 ∷ 0 ∷ []) ∷ []) (got long_word ∷ []) (ones_nonzero 256) (omega arith)
      (omega arith) long_written (whole 0 (0 ∷ 0 ∷ 0 ∷ []))

-- A length of five and room for two: two bytes arrive, and the result is five.
readn_five :
    readn 2 buffer (got (5 ∷ 0 ∷ 0 ∷ 0 ∷ []) ∷ got (7 ∷ 8 ∷ []) ∷ [])
    ≡ returned 5 (7 ∷ 8 ∷ 9 ∷ []) []
unfolding readn recv_again readn_after return_count read_left put le_value
readn_five = refl

-- A failure while five bytes are awaited: `ptr` leaves the buffer.
readn_failed : readn 3 buffer (got (5 ∷ 0 ∷ 0 ∷ 0 ∷ []) ∷ failed ∷ []) ≡ fault
unfolding readn recv_again readn_after return_count read_left le_value
readn_failed = refl

five_value : le_value (5 ∷ 0 ∷ 0 ∷ 0 ∷ []) ≡ 5
unfolding le_value
five_value = refl

readn-IsRead_example :
    IsRead buffer
      (le_value (5 ∷ 0 ∷ 0 ∷ 0 ∷ []))
      3
      (readn 3 buffer (got (5 ∷ 0 ∷ 0 ∷ 0 ∷ []) ∷ got (7 ∷ 8 ∷ []) ∷ got [] ∷ []))
unfolding le_value
readn-IsRead_example =
    readn-IsRead buffer 3 (whole 5 (0 ∷ 0 ∷ 0 ∷ [])) (omega arith) (omega arith)
      (brings {more = 1} 7 (8 ∷ []) closed)
