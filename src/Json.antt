-- ===== src/Json.antt =====
-- What the program uses of jsoncpp: an interface with the laws that jsoncpp documents for values that
-- are null. `parse` is `parseFromStream` over the bytes of a file, none of them if it cannot be
-- opened. `operator[]` of a value that is not const may add a null member: `member` is what it
-- gives, `with_member` the value afterwards. `as_int` and `as_string` have no result where jsoncpp
-- throws.
use kwd_server.Base.{
  ℕ, ◌≡◌, Bool, true, Option, some, List, [], All, length, get_elem?, Word, codes,
}

pub record JsonCpp : Type 1 where
  pub Value : Type 0
  pub null : Value
  pub parse : Word → Option Value
  pub member : Word → Value → Value
  pub with_member : Word → Value → Value
  pub is_null : Value → Bool
  pub as_int : Value → Option ℕ
  pub as_string : Value → Option Word
  -- the value is null, or all its members are null
  pub IsBlank : Value → Type 0
  pub null-IsBlank : IsBlank null
  pub with_member-IsBlank : (key : Word) (v : Value) → IsBlank v → IsBlank (with_member key v)
  pub member_of_blank : (key : Word) (v : Value) → IsBlank v → member key v ≡ null
  pub null_is_null : is_null null ≡ true
  pub null_as_string : as_string null ≡ some []
  pub null_as_int : as_int null ≡ some 0

-- What the program uses of jsoncpp to answer and to read answers, with the laws that it documents for
-- objects of strings and arrays of strings: `Reader::parse` reads every text whose strings need no
-- escape, writing and reading a value gives the value back, and a member that is set is found and
-- leaves the others, here for the keys of an answer.
pub record JsonAnswers (json : JsonCpp) (answer_text : List Word → Word) : Type 1 where
  pub size : json.Value → ℕ
  pub element : ℕ → json.Value → json.Value
  pub set_member : Word → Word → json.Value → json.Value
  pub write_string : json.Value → Word
  -- what a failed `Reader::parse` leaves in the root
  pub partial : Word → json.Value
  -- a string that stands in a text as it is
  pub IsPlain : Word → Type 0
  pub IsObject : json.Value → Type 0
  pub parsed : List Word → json.Value
  pub parse_answer :
      (words : List Word) → All IsPlain words → json.parse (answer_text words) ≡ some (parsed words)
  pub parsed-IsObject : (words : List Word) → All IsPlain words → IsObject (parsed words)
  pub parsed_size :
      (words : List Word)
      → All IsPlain words
      → size (json.member (codes "SearchRet") (parsed words)) ≡ length words
  pub parsed_element :
      (words : List Word) (i : ℕ) (word : Word)
      → All IsPlain words
      → get_elem? words i ≡ some word
      → json.as_string (element i (json.member (codes "SearchRet") (parsed words))) ≡ some word
  pub set_member-IsObject :
      (word : Word) (v : json.Value)
      → IsPlain word
      → IsObject v
      → IsObject (set_member (codes "SearchWord") word v)
  pub member_set :
      (word : Word) (v : json.Value)
      → IsPlain word
      → IsObject v
      → json.as_string (json.member (codes "SearchWord") (set_member (codes "SearchWord") word v))
        ≡ some word
  pub member_set_other :
      (word : Word) (v : json.Value)
      → IsObject v
      → json.member (codes "SearchRet") (set_member (codes "SearchWord") word v)
        ≡ json.member (codes "SearchRet") v
  -- `operator[]` for a member that is there leaves the value as it is
  pub with_member_set :
      (word : Word) (v : json.Value)
      → IsObject v
      → json.with_member (codes "SearchWord") (set_member (codes "SearchWord") word v)
        ≡ set_member (codes "SearchWord") word v
  pub parse-write_string : (v : json.Value) → IsObject v → json.parse (write_string v) ≡ some v
