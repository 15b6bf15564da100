-- ===== src/Text/Lines.antt =====
-- Lines and words that are written come back.
use kwd_server.Base.{
  ℕ, ◌≡◌, ◌≢◌, refl, ap, true, false, some, none, [], ◌∷◌, ◌++◌, arith, All, All-map, Word, ◌==◌,
}
use kwd_server.Text.{
  newline, blank, get_lines, is_space, skip_space, to_space, found_word, read_word,
}

-- A string that `>>` reads whole.
abbrev pub IsToken : Word → Type 0
IsToken w = (w ≢ []) × All (λ c. is_space c ≡ false) w

pub get_lines-append :
    (line rest : Word)
    → All (λ c. (c == newline) ≡ false) line
    → get_lines (line ++ (newline ∷ rest)) ≡ line ∷ get_lines rest
unfolding get_lines
get_lines-append [] rest h = refl
get_lines-append (c ∷ line) rest h = rw (h.0, get_lines-append line rest h.1)

to_space-append :
    (w : Word) (c : ℕ) (rest : Word)
    → All (λ c. is_space c ≡ false) w
    → is_space c ≡ true
    → to_space (w ++ (c ∷ rest)) ≡ (w, c ∷ rest)
unfolding to_space
to_space-append [] c rest h e = rw e
to_space-append (d ∷ w) c rest h e = rw (h.0, to_space-append w c rest h.1 e)

to_space-token : (w : Word) → All (λ c. is_space c ≡ false) w → to_space w ≡ (w, [])
unfolding to_space
to_space-token [] h = refl
to_space-token (d ∷ w) h = rw (h.0, to_space-token w h.1)

-- A token before a space is read.
pub read_word-append :
    (w : Word) (c : ℕ) (rest : Word)
    → IsToken w
    → is_space c ≡ true
    → read_word (w ++ (c ∷ rest)) ≡ some (w, c ∷ rest)
unfolding read_word skip_space found_word
read_word-append [] c rest h e = absurd (h.0 refl)
read_word-append (d ∷ w) c rest h e = rw h.1.0 (ap some (to_space-append (d ∷ w) c rest h.1 e))

-- A token at the end is read.
pub read_word-token : (w : Word) → IsToken w → read_word w ≡ some (w, [])
unfolding read_word skip_space found_word
read_word-token [] h = absurd (h.0 refl)
read_word-token (d ∷ w) h = rw h.1.0 (ap some (to_space-token (d ∷ w) h.1))

-- Behind a blank the same is read.
pub read_word-blank : (s : Word) → read_word (blank ∷ s) ≡ read_word s
unfolding read_word skip_space
read_word-blank s = refl

-- A token holds no newline.
pub IsToken-line : (w : Word) → IsToken w → All (λ c. (c == newline) ≡ false) w
IsToken-line w h =
    All-map (λ c. is_space c ≡ false) (λ c. (c == newline) ≡ false) w (λ c e. ground arith) h.1

pub read_word-nil : read_word [] ≡ none
unfolding read_word skip_space found_word
read_word-nil = refl
