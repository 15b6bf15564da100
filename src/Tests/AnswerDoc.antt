-- ===== src/Tests/AnswerDoc.antt =====
-- A concrete reader and writer of answers.
use kwd_server.Base.{
  ℕ, ◌≡◌, ◌≢◌, refl, ap, Bool, true, false, Option, none, some, List, [], ◌∷◌, ◌++◌, ◌>>=◌, All,
  length, get_elem?, ◌==◌, if◌then◌else◌, Word, codes, word_eq,
}
use kwd_server.SocketIo.Buffer.{drop}
use kwd_server.Json.{JsonCpp}
use kwd_server.Worker.{json_words, quoted}

-- An answer with the word searched for, if it has been set, and what can be taken out of it; and a
-- configuration with its paths.
pub data Doc : Type 0 where
  nothing settings paths : Doc
  number : ℕ → Doc
  string : Word → Doc
  array : List Word → Doc
  answer : List Word → Option Word → Doc

abbrev pub cons_head : ℕ → List Word → List Word
cons_head b [] = []
cons_head b (w ∷ words) = (b ∷ w) ∷ words

-- The strings of an array up to its end, and what is behind it; `within` a string.
abbrev pub read_words : Bool → Word → Option (List Word × Word)
read_words within [] = none
read_words true (b ∷ text) =
    let more = read_words true text in
    let next = read_words false text in
    if b == b'"'
    then (do (words, rest) ← next; some ([] ∷ words, rest))
    else (do (words, rest) ← more; some (cons_head b words, rest))
read_words false (b ∷ text) =
    let more = read_words true text in
    let next = read_words false text in
    if b == b'"'
    then more
    else (if b == b',' then next else (if b == b']' then some ([], text) else none))

abbrev pub IsLetters : Word → Type 0
IsLetters w = All (λ b. (b == b'"') ≡ false) w × (w ≢ [])

abbrev pub text_of : List Word → Word → Word
text_of words rest =
    b'{'
    ∷ (quoted (codes "SearchRet")
        ++ (b':' ∷ b'[' ∷ (json_words true words ++ (b']' ∷ b'}' ∷ rest))))

abbrev pub closed : List Word → Word → Option Doc
closed words [] = none
closed words (b ∷ []) = some (answer words none)
closed words (b ∷ c ∷ rest) = some (answer words (some (c ∷ rest)))

abbrev pub close : Option (List Word × Word) → Option Doc
close none = none
close (some (words, rest)) = closed words rest

-- A text of two bytes is the configuration.
abbrev pub parse_doc : Word → Option Doc
parse_doc [] = none
parse_doc (a ∷ []) = none
parse_doc (a ∷ b ∷ []) = some settings
parse_doc (a ∷ b ∷ c ∷ text) = close (read_words false (drop 11 text))

abbrev pub write_doc : Doc → Word
write_doc nothing = []
write_doc settings = []
write_doc paths = []
write_doc (number n) = []
write_doc (string w) = w
write_doc (array words) = []
write_doc (answer words none) = text_of words []
write_doc (answer words (some w)) = text_of words w

abbrev pub setting_of : Word → Doc
setting_of key =
    if word_eq key (codes "FILE_PATH")
    then paths
    else (if word_eq key (codes "CACHE_ELEMENTS_SIZE")
        then number 2
        else (if word_eq key (codes "SEARCH_RET_LIST_SIZE") then number 5 else nothing))

abbrev pub member_of : Word → Doc → Doc
member_of key nothing = nothing
member_of key settings = setting_of key
member_of key paths = if word_eq key (codes "CACHE_FILE") then string (codes "cache") else nothing
member_of key (number n) = nothing
member_of key (string w) = nothing
member_of key (array words) = nothing
member_of key (answer words none) = if word_eq key (codes "SearchRet") then array words else nothing
member_of key (answer words (some w)) =
    if word_eq key (codes "SearchRet")
    then array words
    else (if word_eq key (codes "SearchWord") then string w else nothing)

abbrev pub set_in : Word → Word → Doc → Doc
set_in key w nothing = nothing
set_in key w settings = settings
set_in key w paths = paths
set_in key w (number n) = number n
set_in key w (string s) = string s
set_in key w (array words) = array words
set_in key w (answer words found) =
    if word_eq key (codes "SearchWord") then answer words (some w) else answer words found

abbrev pub string_of : Doc → Option Word
string_of nothing = some []
string_of settings = none
string_of paths = none
string_of (number n) = none
string_of (string w) = some w
string_of (array words) = none
string_of (answer words found) = none

abbrev pub int_of : Doc → Option ℕ
int_of nothing = some 0
int_of settings = none
int_of paths = none
int_of (number n) = some n
int_of (string w) = none
int_of (array words) = none
int_of (answer words found) = none

abbrev pub size_of : Doc → ℕ
size_of nothing = 0
size_of settings = 3
size_of paths = 1
size_of (number n) = 0
size_of (string w) = 0
size_of (array words) = length words
size_of (answer words found) = 2

abbrev pub or_nothing : Option Word → Doc
or_nothing none = nothing
or_nothing (some w) = string w

abbrev pub element_of : ℕ → Doc → Doc
element_of i nothing = nothing
element_of i settings = nothing
element_of i paths = nothing
element_of i (number n) = nothing
element_of i (string w) = nothing
element_of i (array words) = or_nothing (get_elem? words i)
element_of i (answer words found) = nothing

abbrev pub is_nothing : Doc → Bool
is_nothing nothing = true
is_nothing settings = false
is_nothing paths = false
is_nothing (number n) = false
is_nothing (string w) = false
is_nothing (array words) = false
is_nothing (answer words found) = false

abbrev pub IsAnswerDoc : Doc → Type 0
IsAnswerDoc nothing = true ≡ false
IsAnswerDoc settings = true ≡ false
IsAnswerDoc paths = true ≡ false
IsAnswerDoc (number n) = true ≡ false
IsAnswerDoc (string w) = true ≡ false
IsAnswerDoc (array words) = true ≡ false
IsAnswerDoc (answer words none) = All IsLetters words
IsAnswerDoc (answer words (some w)) = All IsLetters words × IsLetters w

abbrev pub doc_json : JsonCpp
doc_json = record {
  Value = Doc;
  null = nothing;
  parse = parse_doc;
  member = member_of;
  with_member = λ key v. v;
  is_null = is_nothing;
  as_int = int_of;
  as_string = string_of;
  IsBlank = λ v. v ≡ nothing;
  null-IsBlank = refl;
  with_member-IsBlank = λ key v blank. blank;
  member_of_blank = λ key v blank. ap (member_of key) blank;
  null_is_null = refl;
  null_as_string = refl;
  null_as_int = refl;
}
