-- ===== src/Tests/DictCreator.antt =====
-- The dictionary of a concrete directory.
use kwd_server.Base.{
  ◌≡◌, refl, Option, if◌then◌else◌, codes, none, some, List, [], ◌∷◌, Word, word_eq, lookup, assign,
}
use kwd_server.Search.Handle.{is_english, to_lower}
use kwd_server.Text.{get_lines, lines_of}
use kwd_server.DictCreator.{
  DictCreator, init, is_stop_word, dict_key, count, add_word, handle_word, handle_lines, is_dots,
  handle_names, handle_text, create_dict, new_dict_creator,
}
use kwd_server.DictCreator.Counts.{occurrences, corpus, create_dict_counts}

-- each line is one word
abbrev one_word : Word → List Word
one_word line = line ∷ []

abbrev to : Word
to = b't' ∷ b'o' ∷ []

-- The stop word is "a", and there is one text.
abbrev files : Word → Option Word
files path =
    if word_eq path (codes "stop")
    then some (codes "a\n")
    else (if word_eq path (codes "data/f") then some (codes "To\nA\na\nto") else none)

abbrev opendir : Word → Option (List Word)
opendir path =
    if word_eq path (codes "data/") then some (codes "." ∷ codes "f" ∷ codes "g" ∷ []) else none

abbrev creator : DictCreator
creator = new_dict_creator opendir (codes "data/") (codes "dict") (codes "stop")

-- The stop word in upper case is counted.
dict_of_files :
    create_dict one_word files creator
    ≡ some
        (record creator { stop_word_list = codes "a" ∷ []; dict = (to, 2) ∷ (codes "a", 1) ∷ [] })
unfolding create_dict init handle_text handle_names handle_lines handle_word add_word is_stop_word
    dict_key count get_lines lines_of is_dots is_english to_lower word_eq lookup assign
dict_of_files = refl

no_dict : files (codes "dict") ≡ none
unfolding word_eq
no_dict = refl

opened : opendir (codes "data/") ≡ some (codes "." ∷ codes "f" ∷ codes "g" ∷ [])
unfolding word_eq
opened = refl

create_dict_counts_example :
    (made : DictCreator) × (create_dict one_word files creator ≡ some made)
    × ((key : Word)
        → count key made.dict
          ≡ occurrences
              (lines_of (files (codes "stop")))
              key
              (corpus one_word files (codes "data/") (codes "." ∷ codes "f" ∷ codes "g" ∷ [])))
create_dict_counts_example =
    create_dict_counts one_word files opendir (codes "data/") (codes "dict") (codes "stop") no_dict
      (codes "." ∷ codes "f" ∷ codes "g" ∷ []) opened
