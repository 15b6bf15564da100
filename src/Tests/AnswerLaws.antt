-- ===== src/Tests/AnswerLaws.antt =====
-- What holds of the concrete reader and writer of answers.
use kwd_server.Base.{
  ◌≡◌, refl, ap, ◌∙◌, Bool, true, false, Option, none, some, List, [], ◌∷◌, ◌++◌, All, ◌==◌, Word,
  codes, word_eq,
}
use mathlib.Core.List.{append_assoc}
use kwd_server.Json.{JsonAnswers}
use kwd_server.Worker.{json_text, json_words, quoted}
use kwd_server.Tests.AnswerDoc.{
  Doc, nothing, settings, paths, number, string, array, answer, read_words, IsLetters, text_of,
  closed, close, parse_doc, write_doc, member_of, set_in, string_of, size_of, or_nothing,
  element_of, IsAnswerDoc, doc_json,
}

read_word :
    (w text : Word) (words : List Word) (rest : Word)
    → All (λ b. (b == b'"') ≡ false) w
    → read_words false text ≡ some (words, rest)
    → read_words true (w ++ (b'"' ∷ text)) ≡ some (w ∷ words, rest)
read_word [] text words rest h e = rw e refl
read_word (b ∷ w) text words rest h e = rw (h.0, read_word w text words rest h.1 e) refl

read_quoted :
    (w text : Word) (words : List Word) (rest : Word)
    → All (λ b. (b == b'"') ≡ false) w
    → read_words false text ≡ some (words, rest)
    → read_words false (quoted w ++ text) ≡ some (w ∷ words, rest)
unfolding quoted
read_quoted w text words rest h e =
    ap (read_words true) (append_assoc w (b'"' ∷ []) text) ∙ read_word w text words rest h e

read_list :
    (flag : Bool) (words : List Word) (rest : Word)
    → All IsLetters words
    → read_words false (json_words flag words ++ (b']' ∷ rest)) ≡ some (words, rest)
unfolding json_words
read_list flag [] rest h = refl
read_list true (w ∷ words) rest h =
    ap (read_words false) (append_assoc (quoted w) (json_words false words) (b']' ∷ rest))
    ∙ read_quoted w _ words rest h.0.0 (read_list false words rest h.1)
read_list false (w ∷ words) rest h =
    ap (read_words false) (append_assoc (quoted w) (json_words false words) (b']' ∷ rest))
    ∙ read_quoted w _ words rest h.0.0 (read_list false words rest h.1)

parse-text_of :
    (words : List Word) (rest : Word)
    → All IsLetters words
    → parse_doc (text_of words rest) ≡ closed words (b'}' ∷ rest)
unfolding quoted
parse-text_of words rest h = ap close (read_list true words (b'}' ∷ rest) h)

pub parse_text :
    (words : List Word)
    → All IsLetters words
    → parse_doc (json_text words) ≡ some (answer words none)
unfolding json_text
parse_text words h = parse-text_of words [] h

pub parse-write_doc : (v : Doc) → IsAnswerDoc v → parse_doc (write_doc v) ≡ some v
parse-write_doc nothing h = absurd (cc h)
parse-write_doc settings h = absurd (cc h)
parse-write_doc paths h = absurd (cc h)
parse-write_doc (number n) h = absurd (cc h)
parse-write_doc (string w) h = absurd (cc h)
parse-write_doc (array words) h = absurd (cc h)
parse-write_doc (answer words none) h = parse-text_of words [] h
parse-write_doc (answer words (some [])) h = absurd (h.1.1 refl)
parse-write_doc (answer words (some (b ∷ w))) h = parse-text_of words (b ∷ w) h.0

pub ret_of :
    (words : List Word) (found : Option Word)
    → member_of (codes "SearchRet") (answer words found) ≡ array words
unfolding word_eq
ret_of words none = refl
ret_of words (some w) = refl

set_answer :
    (w : Word) (words : List Word) (found : Option Word)
    → set_in (codes "SearchWord") w (answer words found) ≡ answer words (some w)
unfolding word_eq
set_answer w words found = refl

word_of :
    (w : Word) (words : List Word)
    → member_of (codes "SearchWord") (answer words (some w)) ≡ string w
unfolding word_eq
word_of w words = refl

words_of_IsObject :
    (words : List Word) (found : Option Word)
    → IsAnswerDoc (answer words found)
    → All IsLetters words
words_of_IsObject words none h = h
words_of_IsObject words (some w) h = h.0

pub set_in-IsObject :
    (w : Word) (v : Doc)
    → IsLetters w
    → IsAnswerDoc v
    → IsAnswerDoc (set_in (codes "SearchWord") w v)
unfolding word_eq
set_in-IsObject w nothing plain h = h
set_in-IsObject w settings plain h = h
set_in-IsObject w paths plain h = h
set_in-IsObject w (number n) plain h = h
set_in-IsObject w (string s) plain h = h
set_in-IsObject w (array words) plain h = h
set_in-IsObject w (answer words found) plain h = (words_of_IsObject words found h, plain)

pub member_set_in :
    (w : Word) (v : Doc)
    → IsLetters w
    → IsAnswerDoc v
    → string_of (member_of (codes "SearchWord") (set_in (codes "SearchWord") w v)) ≡ some w
unfolding word_eq
member_set_in w nothing plain h = absurd (cc h)
member_set_in w settings plain h = absurd (cc h)
member_set_in w paths plain h = absurd (cc h)
member_set_in w (number n) plain h = absurd (cc h)
member_set_in w (string s) plain h = absurd (cc h)
member_set_in w (array words) plain h = absurd (cc h)
member_set_in w (answer words found) plain h = refl

pub ret_set_in :
    (w : Word) (v : Doc)
    → IsAnswerDoc v
    → member_of (codes "SearchRet") (set_in (codes "SearchWord") w v)
      ≡ member_of (codes "SearchRet") v
unfolding word_eq
ret_set_in w nothing h = refl
ret_set_in w settings h = refl
ret_set_in w paths h = refl
ret_set_in w (number n) h = refl
ret_set_in w (string s) h = refl
ret_set_in w (array words) h = refl
ret_set_in w (answer words none) h = refl
ret_set_in w (answer words (some s)) h = refl

abbrev pub doc_answers : JsonAnswers doc_json json_text
doc_answers = record {
  size = size_of;
  element = element_of;
  set_member = set_in;
  write_string = write_doc;
  partial = λ text. nothing;
  IsPlain = IsLetters;
  IsObject = IsAnswerDoc;
  parsed = λ words. answer words none;
  parse_answer = parse_text;
  parsed-IsObject = λ words h. h;
  parsed_size = λ words h. ap size_of (ret_of words none);
  parsed_element = λ words i word h e.
      ap (λ v. string_of (element_of i v)) (ret_of words none)
      ∙ ap (λ o. string_of (or_nothing o)) e;
  set_member-IsObject = set_in-IsObject;
  member_set = member_set_in;
  member_set_other = ret_set_in;
  with_member_set = λ word v h. refl;
  parse-write_string = parse-write_doc;
}
