-- ===== src/DictCreator/Dictionary.antt =====
-- The dictionary as a description of the texts.
use kwd_server.Base.{
  ℕ, ◌<◌, ◌≡◌, ◌≢◌, ◌↔◌, sym, ap, ◌∙◌, subst, Bool, true, false, Option, some, List, [], ◌∷◌, ◌++◌,
  arith, All, In, inl, inr, Bool-cases, Option-cases, Word, word_eq, word_eq_iff, word_eq_ne,
  lookup, assign, if◌then◌else◌,
}
use mathlib.Core.Option.{some-injective}
use kwd_server.Text.{lines_of}
use kwd_server.DictCreator.{
  DictCreator, init, is_stop_word, dict_key, or_zero, count, add_word, handle_word, handle_lines,
  is_dots, handle_names, new_dict_creator,
}
use kwd_server.DictCreator.Counts.{occurrences}

abbrev pub Dict : Type 0
Dict = List (Word × ℕ)

-- Each word stands once.
abbrev pub EachOnce : Dict → Type 0
EachOnce [] = Unit
EachOnce (e ∷ dict) = All (λ (f : Word × ℕ). f.0 ≢ e.0) dict × EachOnce dict

-- Each word stands once, and the entries are exactly the words that occur among `words`, under the key
-- that they have and unless they are stop words as they are written, with how often they occur.
pub record IsDictionary (stops words : List Word) (dict : Dict) : Type 0 where
  pub once : EachOnce dict
  pub entries :
      (key : Word) (n : ℕ) → In (key, n) dict ↔ ((n ≡ occurrences stops key words) × (0 < n))

abbrev IsPositive : Dict → Type 0
IsPositive = All (λ (e : Word × ℕ). 0 < e.1)

assign-IsPositive :
    (key : Word) (n : ℕ) (dict : Dict) → 0 < n → IsPositive dict → IsPositive (assign key n dict)
unfolding assign
assign-IsPositive key n [] h k = (h, tt)
assign-IsPositive key n (e ∷ dict) h k = elim (Bool-cases (word_eq e.0 key)) [
  | inl same ↦ rw same (h, k.1)
  | inr other ↦ rw other (k.0, assign-IsPositive key n dict h k.1)
]

assign-All :
    (other key : Word) (n : ℕ) (dict : Dict)
    → key ≢ other
    → All (λ (f : Word × ℕ). f.0 ≢ other) dict
    → All (λ (f : Word × ℕ). f.0 ≢ other) (assign key n dict)
unfolding assign
assign-All other key n [] apart h = (apart, tt)
assign-All other key n (e ∷ dict) apart h = elim (Bool-cases (word_eq e.0 key)) [
  | inl same ↦ rw same (apart, h.1)
  | inr differs ↦ rw differs (h.0, assign-All other key n dict apart h.1)
]

assign-EachOnce : (key : Word) (n : ℕ) (dict : Dict) → EachOnce dict → EachOnce (assign key n dict)
unfolding assign
assign-EachOnce key n [] h = (tt, tt)
assign-EachOnce key n (e ∷ dict) h = elim (Bool-cases (word_eq e.0 key)) [
  | inl same ↦
      let here : e.0 ≡ key = (word_eq_iff e.0 key).0 same in
      rw same (subst (λ k. All (λ (f : Word × ℕ). f.0 ≢ k) dict) here h.0, h.1)
  | inr differs ↦
      let apart : key ≢ e.0 = λ g. absurd (cc (sym differs ∙ (word_eq_iff e.0 key).1 (sym g))) in
      rw differs (assign-All e.0 key n dict apart h.0, assign-EachOnce key n dict h.1)
]

-- The map of the words while they are counted: each stands once, and none of the counts is zero.
abbrev pub IsCounted : Dict → Type 0
IsCounted dict = IsPositive dict × EachOnce dict

add_word-IsCounted :
    (word : Word) (d : DictCreator) → IsCounted d.dict → IsCounted (add_word word d).dict
unfolding add_word
add_word-IsCounted word d h = elim (Bool-cases (is_stop_word d.stop_word_list word)) [
  | inl stop ↦ rw stop h
  | inr other ↦ rw other (
    assign-IsPositive (dict_key word) _ d.dict (omega arith) h.0,
    assign-EachOnce (dict_key word) _ d.dict h.1,
  )
]

handle_word-IsCounted :
    (words : List Word) (d : DictCreator) → IsCounted d.dict → IsCounted (handle_word words d).dict
unfolding handle_word
handle_word-IsCounted [] d h = h
handle_word-IsCounted (word ∷ words) d h =
    handle_word-IsCounted words (add_word word d) (add_word-IsCounted word d h)

handle_lines-IsCounted :
    (cut : Word → List Word) (lines : List Word) (d : DictCreator)
    → IsCounted d.dict
    → IsCounted (handle_lines cut lines d).dict
unfolding handle_lines
handle_lines-IsCounted cut [] d h = h
handle_lines-IsCounted cut (line ∷ lines) d h =
    handle_lines-IsCounted cut lines (handle_word (cut line) d)
      (handle_word-IsCounted (cut line) d h)

file-IsCounted :
    (cut : Word → List Word) (dots : Bool) (lines : List Word) (d : DictCreator)
    → IsCounted d.dict
    → IsCounted (if dots then d else handle_lines cut lines d).dict
file-IsCounted cut true lines d h = h
file-IsCounted cut false lines d h = handle_lines-IsCounted cut lines d h

handle_names-IsCounted :
    (cut : Word → List Word) (files : Word → Option Word) (names : List Word) (d : DictCreator)
    → IsCounted d.dict
    → IsCounted (handle_names cut files names d).dict
unfolding handle_names
handle_names-IsCounted cut files [] d h = h
handle_names-IsCounted cut files (file_name ∷ names) d h =
    handle_names-IsCounted cut files names _
      (file-IsCounted cut (is_dots file_name) (lines_of (files (d.text_path ++ file_name))) d h)

pub creator-IsCounted :
    (cut : Word → List Word) (files : Word → Option Word) (names : List Word)
    (opendir : Word → Option (List Word)) (text_path out_put_path stop_word_path : Word)
    → IsCounted
        (handle_names cut files names
          (init files (new_dict_creator opendir text_path out_put_path stop_word_path))).dict
unfolding init
creator-IsCounted cut files names opendir text_path out_put_path stop_word_path =
    handle_names-IsCounted cut files names _ (tt, tt)

In-of_lookup : (key : Word) (n : ℕ) (dict : Dict) → lookup key dict ≡ some n → In (key, n) dict
unfolding lookup
In-of_lookup key n [] h = absurd (cc h)
In-of_lookup key n (e ∷ dict) h = elim (Bool-cases (word_eq e.0 key)) [
  | inl same ↦
      let there : e.1 ≡ n = some-injective _ _ (rw same at h) in
      let here : e.0 ≡ key = (word_eq_iff e.0 key).0 same in inl (λ j. (sym here j, sym there j))
  | inr other ↦ inr (In-of_lookup key n dict (rw other at h))
]

All-In : (P : Word × ℕ → Type 0) (e : Word × ℕ) (dict : Dict) → In e dict → All P dict → P e
All-In P e [] h all = absurd h
All-In P e (f ∷ dict) (inl same) all = subst P (sym same) all.0
All-In P e (f ∷ dict) (inr h) all = All-In P e dict h all.1

lookup-of_In :
    (key : Word) (n : ℕ) (dict : Dict) → EachOnce dict → In (key, n) dict → lookup key dict ≡ some n
unfolding lookup
lookup-of_In key n [] once h = absurd h
lookup-of_In key n (e ∷ dict) once (inl same) =
    let here : key ≡ e.0 = ap (λ (f : Word × ℕ). f.0) same in
    rw ((word_eq_iff e.0 key).1 (sym here)) (ap (λ (f : Word × ℕ). some f.1) (sym same))
lookup-of_In key n (e ∷ dict) once (inr h) =
    let other : key ≢ e.0 = All-In (λ f. f.0 ≢ e.0) (key, n) dict h once.0 in
    rw (word_eq_ne e.0 key (λ g. other (sym g))) (lookup-of_In key n dict once.1 h)

-- A walk through a map with the right counts, none of them zero, gives such a dictionary.
pub walked-IsDictionary :
    (stops words : List Word) (counted walked : Dict)
    → EachOnce walked
    → ((key : Word) → lookup key walked ≡ lookup key counted)
    → IsPositive counted
    → ((key : Word) → count key counted ≡ occurrences stops key words)
    → IsDictionary stops words walked
unfolding count
walked-IsDictionary stops words counted walked once same positive counts = record {
  once = once;
  entries = λ key n. (
    (λ h.
        let found : lookup key counted ≡ some n =
          sym (same key) ∙ lookup-of_In key n walked once h in
        (
          ap or_zero (sym found) ∙ counts key,
          All-In (λ e. 0 < e.1) (key, n) counted (In-of_lookup key n counted found) positive,
        )),
    (λ h. elim (Option-cases (lookup key counted)) [
      | inl absent ↦
          let nothing : occurrences stops key words ≡ 0 = sym (counts key) ∙ ap or_zero absent in
          absurd (omega (arith, nothing, h.0, h.1))
      | inr (k, there) ↦
          let count_eq : n ≡ k = h.0 ∙ sym (counts key) ∙ ap or_zero there in
          In-of_lookup key n walked (same key ∙ there ∙ ap some (sym count_eq))
    ]),
  );
}
