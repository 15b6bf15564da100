-- ===== src/Text.antt =====
-- The texts of the program's files, by the rules of the standard streams: `getline`, `>>` and `<<` for
-- strings and for numbers of type `int`, as reference_creator.cc, dict_creator.cc and cache.cc use
-- them. A file is its bytes, or `none` if it cannot be opened.
pub mod Lines
pub mod Decimal
use kwd_server.Base.{
  ℕ, zero, suc, ◌+◌, ◌-◌, ◌*◌, ◌/◌, ◌%◌, ◌^◌, Bool, true, false, ◌&&◌, ◌||◌, Option, none, some,
  List, [], ◌∷◌, ltb, leb, ◌==◌, if◌then◌else◌, Word,
}

abbrev pub newline : ℕ
newline = b'\n'

abbrev pub blank : ℕ
blank = b' '

abbrev pub add_to_first : ℕ → List Word → List Word
add_to_first c [] = (c ∷ []) ∷ []
add_to_first c (line ∷ lines) = (c ∷ line) ∷ lines

-- The lines that `getline` gives until it fails: without their newlines, the last one also if it has
-- none.
unfoldable pub get_lines : Word → List Word
get_lines [] = []
get_lines (c ∷ rest) =
    let lines = get_lines rest in if c == newline then [] ∷ lines else add_to_first c lines

unfoldable pub lines_of : Option Word → List Word
lines_of none = []
lines_of (some text) = get_lines text

-- `isspace` of the classic locale
abbrev pub is_space : ℕ → Bool
is_space c = c == blank || (leb 9 c && leb c 13)

unfoldable pub skip_space : Word → Word
skip_space [] = []
skip_space (c ∷ rest) = if is_space c then skip_space rest else c ∷ rest

-- The bytes before the first space, and the others.
unfoldable pub to_space : Word → Word × Word
to_space [] = ([], [])
to_space (c ∷ rest) =
    let (word, others) = to_space rest in if is_space c then ([], c ∷ rest) else (c ∷ word, others)

-- `iss >> word`: `none` if only spaces are left, so that the string keeps its value; otherwise the
-- word and what is left.
unfoldable pub found_word : Word → Option (Word × Word)
found_word [] = none
found_word (c ∷ rest) = some (to_space (c ∷ rest))

unfoldable pub read_word : Word → Option (Word × Word)
read_word stream = found_word (skip_space stream)

abbrev pub is_digit : ℕ → Bool
is_digit c = leb b'0' c && leb c b'9'

unfoldable pub to_other : Word → Word × Word
to_other [] = ([], [])
to_other (c ∷ rest) =
    let (digits, others) = to_other rest in
    if is_digit c then (c ∷ digits, others) else ([], c ∷ rest)

-- The number that the digits spell behind `n`.
abbrev pub value : ℕ → Word → ℕ
value n [] = n
value n (c ∷ rest) = value (n * 10 + (c - b'0')) rest

-- `iss >> number`: nothing left, so that the number keeps its value; a failure that sets the number;
-- a number, and what is left; or a number below zero, which the model has no place for.
pub data ReadInt : Type 0 where
  ended below_zero : ReadInt
  refused : ℕ → ReadInt
  got : ℕ → Word → ReadInt

abbrev pub int_max : ℕ
int_max = 2 ^ 31 - 1

unfoldable pub found_int : Word × Word → ReadInt
found_int ([], others) = refused 0
found_int (c ∷ digits, others) =
    let n = value 0 (c ∷ digits) in if leb n int_max then got n others else refused int_max

-- A number behind a minus sign.
unfoldable pub negated : ReadInt → ReadInt
negated ended = ended
negated below_zero = below_zero
negated (refused n) = if n == 0 then refused 0 else below_zero
negated (got n others) = if n == 0 then got 0 others else below_zero

unfoldable pub signed_int : Word → ReadInt
signed_int [] = ended
signed_int (c ∷ rest) =
    if c == b'-'
    then negated (found_int (to_other rest))
    else (if c == b'+' then found_int (to_other rest) else found_int (to_other (c ∷ rest)))

unfoldable pub read_int : Word → ReadInt
read_int stream = signed_int (skip_space stream)

-- `<< n`. Each round takes the last digit; `n` rounds are more than there are digits.
unfoldable pub digits : ℕ → ℕ → Word → Word
digits zero n out = out
digits (suc fuel) n out =
    let more = digits fuel (n / 10) ((b'0' + n % 10) ∷ out) in if n == 0 then out else more

unfoldable pub decimal : ℕ → Word
decimal n = if n == 0 then b'0' ∷ [] else digits n n []
