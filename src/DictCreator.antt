-- ===== src/DictCreator.antt =====
-- `DictCreator` (src/dict_creator.cc): from a directory of texts to the dictionary with the number of
-- times each word occurs. The words of a line are what cppjieba's `CutForSearch` gives, here the
-- argument `cut`. A file is its bytes, or `none` if it cannot be opened. Counts are naturals: an
-- `int` holds those below 2^31.
pub mod Counts
pub mod Dictionary
use kwd_server.Base.{
  ℕ, ◌+◌, Bool, true, false, ◌||◌, Option, none, some, List, [], ◌∷◌, ◌++◌, map, ◌==◌,
  if◌then◌else◌, ◌>>=◌, Word, word_eq, lookup, assign,
}
use kwd_server.Text.{blank, newline, lines_of, decimal}
use kwd_server.Search.Handle.{is_english, to_lower}

pub record DictCreator : Type 0 where
  pub dir_ptr : Option (List Word)
  pub text_path : Word
  pub out_put_path : Word
  pub stop_word_path : Word
  pub stop_word_list : List Word
  pub dict : List (Word × ℕ)

-- The constructor; `opendir` gives the names in the directory in the order in which `readdir` gives
-- them, or a null pointer.
abbrev pub new_dict_creator : (Word → Option (List Word)) → Word → Word → Word → DictCreator
new_dict_creator opendir text_path out_put_path stop_word_path = record {
  dir_ptr = opendir text_path;
  text_path = text_path;
  out_put_path = out_put_path;
  stop_word_path = stop_word_path;
  stop_word_list = [];
  dict = [];
}

unfoldable pub init : (Word → Option Word) → DictCreator → DictCreator
init files d = record d { stop_word_list = d.stop_word_list ++ lines_of (files d.stop_word_path) }

unfoldable pub is_stop_word : List Word → Word → Bool
is_stop_word [] word = false
is_stop_word (w ∷ rest) word = word_eq w word || is_stop_word rest word

-- `word` after the loop over its letters
unfoldable pub dict_key : Word → Word
dict_key word = if is_english word then map to_lower word else word

-- `dict_[word]`, where a word that is not there yet has the count zero
abbrev pub or_zero : Option ℕ → ℕ
or_zero none = 0
or_zero (some n) = n

unfoldable pub count : Word → List (Word × ℕ) → ℕ
count word dict = or_zero (lookup word dict)

-- the body of the loop of `HandleWord`
unfoldable pub add_word : Word → DictCreator → DictCreator
add_word word d =
    if is_stop_word d.stop_word_list word
    then d
    else record d { dict = assign (dict_key word) (count (dict_key word) d.dict + 1) d.dict }

unfoldable pub handle_word : List Word → DictCreator → DictCreator
handle_word [] d = d
handle_word (word ∷ words) d = handle_word words (add_word word d)

unfoldable pub handle_lines : (Word → List Word) → List Word → DictCreator → DictCreator
handle_lines cut [] d = d
handle_lines cut (line ∷ lines) d = handle_lines cut lines (handle_word (cut line) d)

-- `file_name == "." || file_name == ".."`
unfoldable pub is_dots : Word → Bool
is_dots file_name = word_eq file_name (b'.' ∷ []) || word_eq file_name (b'.' ∷ b'.' ∷ [])

-- The loop of `HandleText` over the names that `readdir` gives.
unfoldable pub handle_names :
    (Word → List Word) → (Word → Option Word) → List Word → DictCreator → DictCreator
handle_names cut files [] d = d
handle_names cut files (file_name ∷ names) d = handle_names cut files names (
    if is_dots file_name
    then d
    else handle_lines cut (lines_of (files (d.text_path ++ file_name))) d)

-- `HandleText`; `readdir` of a null pointer has no result.
unfoldable pub handle_text :
    (Word → List Word) → (Word → Option Word) → DictCreator → Option DictCreator
handle_text cut files d = do names ← d.dir_ptr; some (handle_names cut files names d)

-- `CreateDict` up to the writing: nothing if there is a dictionary file already.
unfoldable pub create_dict :
    (Word → List Word) → (Word → Option Word) → DictCreator → Option DictCreator
create_dict cut files d = elim (files d.out_put_path) [
  | some there ↦ some d
  | none ↦ handle_text cut files (init files d)
]

-- `WriteFile`, with the entries in the order in which the map is walked.
unfoldable pub write_file : List (Word × ℕ) → Word
write_file [] = []
write_file ((word, n) ∷ entries) = (word ++ (blank ∷ decimal n)) ++ (newline ∷ write_file entries)

-- The dictionary file after `CreateDict`. How the map is walked is given by `walk`.
unfoldable pub dict_file :
    (List (Word × ℕ) → List (Word × ℕ))
    → (Word → List Word)
    → (Word → Option Word)
    → DictCreator
    → Option Word
dict_file walk cut files d = elim (files d.out_put_path) [
  | some there ↦ some there
  | none ↦ do made ← create_dict cut files d; some (write_file (walk made.dict))
]
