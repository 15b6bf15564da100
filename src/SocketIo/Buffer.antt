-- ===== src/SocketIo/Buffer.antt =====
-- Strings in memory: what `put` leaves of a buffer, and what the string functions do to a message
-- without zero bytes.
use kwd_server.Base.{
  ℕ, zero, suc, ◌+◌, ◌%◌, ◌≤◌, ◌<◌, ◌≡◌, refl, sym, ap, some, List, [], ◌∷◌, ◌++◌, length, arith,
  All, Word, take, subst,
}
use kwd_server.SocketIo.{put, strlen, strncpy, send_buf, uint32_mod}
use kwd_server.SocketIo.Header.{header}

abbrev pub drop {ℓ} : {A : Type ℓ} → ℕ → List A → List A
drop zero xs = xs
drop (suc n) [] = []
drop (suc n) (x ∷ xs) = drop n xs

pub length-drop {ℓ} :
    {A : Type ℓ} (n : ℕ) (xs : List A) → n ≤ length xs → n + length (drop n xs) ≡ length xs
length-drop zero xs h = omega arith
length-drop (suc n) [] h = absurd (omega arith)
length-drop (suc n) (x ∷ xs) h = omega (arith, length-drop n xs (omega arith))

drop_nil {ℓ} : {A : Type ℓ} (n : ℕ) → drop {A = A} n [] ≡ []
drop_nil zero = refl
drop_nil (suc n) = refl

pub drop-append {ℓ} :
    {A : Type ℓ} (xs ys zs : List A)
    → drop (length (xs ++ ys)) zs ≡ drop (length ys) (drop (length xs) zs)
drop-append [] ys zs = refl
drop-append (x ∷ xs) ys [] = sym (drop_nil (length ys))
drop-append (x ∷ xs) ys (z ∷ zs) = drop-append xs ys zs

put_zero :
    (bytes old : Word)
    → length bytes ≤ length old
    → put bytes 0 old ≡ some (bytes ++ drop (length bytes) old)
unfolding put
put_zero [] old h = refl
put_zero (b ∷ bytes) [] h = absurd (omega arith)
put_zero (b ∷ bytes) (x ∷ old) h = rw (put_zero bytes old (omega arith), put)

-- What is written behind `pre` replaces as many bytes there.
pub put-append :
    (bytes pre old : Word)
    → length bytes ≤ length old
    → put bytes (length pre) (pre ++ old) ≡ some (pre ++ (bytes ++ drop (length bytes) old))
unfolding put
put-append bytes [] old h = put_zero bytes old h
put-append bytes (x ∷ pre) old h = rw (put-append bytes pre old h, put)

strlen_nonzero : (w : Word) → All (λ b. 0 < b) w → strlen w ≡ length w
unfolding strlen
strlen_nonzero [] h = refl
strlen_nonzero (c ∷ w) h = ground (arith, strlen_nonzero w h.1)

strncpy_nonzero : (w : Word) → All (λ b. 0 < b) w → strncpy (length w) w ≡ w
unfolding strncpy
strncpy_nonzero [] h = refl
strncpy_nonzero (c ∷ w) h = ground (arith, strncpy_nonzero w h.1)

pub send_buf_lem :
    (w : Word) → All (λ b. 0 < b) w → length w < uint32_mod → send_buf w ≡ header (length w) ++ w
unfolding send_buf
send_buf_lem w h small =
    let e : length w % uint32_mod ≡ length w = omega arith in
    rw (strlen_nonzero w h, e, strncpy_nonzero w h)

pub length-strncpy : (n : ℕ) (src : Word) → length (strncpy n src) ≡ n
unfolding strncpy
length-strncpy zero src = refl
length-strncpy (suc n) [] = ap suc (length-strncpy n [])
length-strncpy (suc n) (c ∷ src) = ground (arith, length-strncpy n [], length-strncpy n src)

take-length {ℓ} : {A : Type ℓ} (xs ys : List A) → take (length xs) (xs ++ ys) ≡ xs
take-length [] ys = refl
take-length (x ∷ xs) ys = ap (λ l. x ∷ l) (take-length xs ys)

drop-length {ℓ} : {A : Type ℓ} (xs ys : List A) → drop (length xs) (xs ++ ys) ≡ ys
drop-length [] ys = refl
drop-length (x ∷ xs) ys = drop-length xs ys

pub take_front {ℓ} : {A : Type ℓ} (n : ℕ) (xs ys : List A) → length xs ≡ n → take n (xs ++ ys) ≡ xs
take_front n xs ys h = subst (λ k. take k (xs ++ ys) ≡ xs) h (take-length xs ys)

pub drop_front {ℓ} : {A : Type ℓ} (n : ℕ) (xs ys : List A) → length xs ≡ n → drop n (xs ++ ys) ≡ ys
drop_front n xs ys h = subst (λ k. drop k (xs ++ ys) ≡ ys) h (drop-length xs ys)
