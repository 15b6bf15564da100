-- ===== src/SocketIo/Header.antt =====
-- The four bytes in front of a message. `strncpy` copies the length as if it were a string, so a
-- zero byte ends the copy.
use kwd_server.Base.{ℕ, ◌/◌, ◌%◌, ◌<◌, ◌≡◌, ◌↔◌, refl, List, [], ◌∷◌, arith}
use kwd_server.SocketIo.{le_value, le_bytes, strncpy, uint32_mod}

-- No byte of `n` is zero below one that is not.
abbrev pub HasNoGap : ℕ → Type 0
HasNoGap n =
    (n % 256 ≡ 0 → n ≡ 0) × (n / 256 % 256 ≡ 0 → n < 256) × (n / 65536 % 256 ≡ 0 → n < 65536)

abbrev pub header : ℕ → List ℕ
header n = strncpy 4 (le_bytes n)

-- The reader finds the length in the header exactly when the length has no zero byte below one that
-- is not zero.
pub header_iff : (n : ℕ) → n < uint32_mod → (le_value (header n) ≡ n) ↔ HasNoGap n
unfolding le_value le_bytes strncpy
header_iff n h = ground arith

-- Of a multiple of 256 the header keeps nothing.
pub header_zero : (n : ℕ) → n % 256 ≡ 0 → header n ≡ 0 ∷ 0 ∷ 0 ∷ 0 ∷ []
unfolding le_bytes strncpy
header_zero n h = rw h refl
