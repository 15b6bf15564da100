-- ===== src/DictCreator/Counts.antt =====
-- The counts in the dictionary, by a description without the loops.
use kwd_server.Base.{
  ℕ, ◌+◌, ◌≡◌, refl, ap, ◌∙◌, Bool, true, false, not, ◌&&◌, Option, none, some, List, [], ◌∷◌, ◌++◌,
  arith, if◌then◌else◌, Bool-cases, inl, inr, Word, word_eq, word_eq_iff, lookup, assign,
  lookup-assign,
}
use kwd_server.Text.{lines_of}
use kwd_server.DictCreator.{
  DictCreator, init, is_stop_word, dict_key, or_zero, count, add_word, handle_word, handle_lines,
  is_dots, handle_names, handle_text, create_dict, dict_file, new_dict_creator,
}

-- How many of the words are no stop words, as they are written, and have this key.
abbrev pub occurrences : List Word → Word → List Word → ℕ
occurrences stops key [] = 0
occurrences stops key (word ∷ words) =
    (if not (is_stop_word stops word) && word_eq (dict_key word) key then 1 else 0)
    + occurrences stops key words

-- The words of the lines, and of the files of a directory but `.` and `..`.
abbrev pub line_words : (Word → List Word) → List Word → List Word
line_words cut [] = []
line_words cut (line ∷ lines) = cut line ++ line_words cut lines

abbrev pub corpus : (Word → List Word) → (Word → Option Word) → Word → List Word → List Word
corpus cut files text_path [] = []
corpus cut files text_path (file_name ∷ names) =
    (if is_dots file_name then [] else line_words cut (lines_of (files (text_path ++ file_name))))
    ++ corpus cut files text_path names

-- What `HandleText` keeps.
abbrev setup : DictCreator → List Word × Word
setup d = (d.stop_word_list, d.text_path)

module _ (stops : List Word) (key : Word) where
  occurrences-append :
      (ws vs : List Word)
      → occurrences stops key (ws ++ vs) ≡ occurrences stops key ws + occurrences stops key vs
  occurrences-append [] vs = omega arith
  occurrences-append (w ∷ ws) vs = omega (arith, occurrences-append ws vs)

-- One more of a word.
count-assign :
    (word key : Word) (dict : List (Word × ℕ))
    → count key (assign word (count word dict + 1) dict)
      ≡ (if word_eq word key then 1 else 0) + count key dict
unfolding count
count-assign word key dict =
    ap or_zero (lookup-assign word key (or_zero (lookup word dict) + 1) dict)
    ∙ (elim (Bool-cases (word_eq word key)) [
      | inl same ↦
          let e : lookup word dict ≡ lookup key dict =
            ap (λ w. lookup w dict) ((word_eq_iff word key).0 same) in
          rw (same, e) (omega arith)
      | inr other ↦ rw other (omega arith)
    ])

add_word_lem :
    (word : Word) (d : DictCreator) (key : Word)
    → (count key (add_word word d).dict
        ≡ occurrences d.stop_word_list key (word ∷ []) + count key d.dict)
      × (setup (add_word word d) ≡ setup d)
unfolding add_word
add_word_lem word d key = elim (Bool-cases (is_stop_word d.stop_word_list word)) [
  | inl stop ↦ rw stop (omega arith, refl)
  | inr other ↦ rw other (omega (arith, count-assign (dict_key word) key d.dict), refl)
]

-- `HandleWord` adds the occurrences to the counts, and keeps the stop words.
handle_word_lem :
    (words : List Word) (d : DictCreator) (key : Word)
    → (count key (handle_word words d).dict
        ≡ occurrences d.stop_word_list key words + count key d.dict)
      × (setup (handle_word words d) ≡ setup d)
unfolding handle_word
handle_word_lem [] d key = (omega arith, refl)
handle_word_lem (word ∷ words) d key =
    let (one, same) = add_word_lem word d key in
    let (others, kept) = handle_word_lem words (add_word word d) key in
    let split : occurrences (add_word word d).stop_word_list key words
        ≡ occurrences d.stop_word_list key words =
      ap (λ (p : List Word × Word). occurrences p.0 key words) same in
    (omega (arith, one, others, split), kept ∙ same)

handle_lines_lem :
    (cut : Word → List Word) (lines : List Word) (d : DictCreator) (key : Word)
    → (count key (handle_lines cut lines d).dict
        ≡ occurrences d.stop_word_list key (line_words cut lines) + count key d.dict)
      × (setup (handle_lines cut lines d) ≡ setup d)
unfolding handle_lines
handle_lines_lem cut [] d key = (omega arith, refl)
handle_lines_lem cut (line ∷ lines) d key =
    let (one, same) = handle_word_lem (cut line) d key in
    let (others, kept) = handle_lines_lem cut lines (handle_word (cut line) d) key in
    let split : occurrences (handle_word (cut line) d).stop_word_list key (line_words cut lines)
        ≡ occurrences d.stop_word_list key (line_words cut lines) =
      ap (λ (p : List Word × Word). occurrences p.0 key (line_words cut lines)) same in
    let both = occurrences-append d.stop_word_list key (cut line) (line_words cut lines) in
    (omega (arith, one, others, split, both), kept ∙ same)

file_lem :
    (cut : Word → List Word) (dots : Bool) (lines : List Word) (d : DictCreator) (key : Word)
    → (count key (if dots then d else handle_lines cut lines d).dict
        ≡ occurrences d.stop_word_list key (if dots then [] else line_words cut lines)
          + count key d.dict)
      × (setup (if dots then d else handle_lines cut lines d) ≡ setup d)
file_lem cut true lines d key = (omega arith, refl)
file_lem cut false lines d key = handle_lines_lem cut lines d key

handle_names_lem :
    (cut : Word → List Word) (files : Word → Option Word) (names : List Word) (d : DictCreator)
    (key : Word)
    → count key (handle_names cut files names d).dict
      ≡ occurrences d.stop_word_list key (corpus cut files d.text_path names) + count key d.dict
unfolding handle_names
handle_names_lem cut files [] d key = omega arith
handle_names_lem cut files (file_name ∷ names) d key =
    let dots = is_dots file_name in
    let lines = lines_of (files (d.text_path ++ file_name)) in
    let after = if dots then d else handle_lines cut lines d in
    let own = if dots then [] else line_words cut lines in
    let (one, same) = file_lem cut dots lines d key in
    let others = handle_names_lem cut files names after key in
    let split : occurrences after.stop_word_list key (corpus cut files after.text_path names)
        ≡ occurrences d.stop_word_list key (corpus cut files d.text_path names) =
      ap (λ (p : List Word × Word). occurrences p.0 key (corpus cut files p.1 names)) same in
    let both = occurrences-append d.stop_word_list key own (corpus cut files d.text_path names) in
    omega (arith, one, others, split, both)

module _ (cut : Word → List Word) (files : Word → Option Word) (opendir : Word → Option (List Word))
    (text_path out_put_path stop_word_path : Word) (no_dict : files out_put_path ≡ none) where
  abbrev pub creator : DictCreator
  creator = new_dict_creator opendir text_path out_put_path stop_word_path

  pub create_dict-made :
      (names : List Word)
      → opendir text_path ≡ some names
      → create_dict cut files creator ≡ some (handle_names cut files names (init files creator))
  unfolding create_dict handle_text init
  create_dict-made names opened = rw (no_dict, create_dict, opened)

  pub handle_names-counts :
      (names : List Word) (key : Word)
      → count key (handle_names cut files names (init files creator)).dict
        ≡ occurrences (lines_of (files stop_word_path)) key (corpus cut files text_path names)
  unfolding init count lookup
  handle_names-counts names key =
      omega (arith, handle_names_lem cut files names (init files creator) key)

  -- If there is no dictionary yet and the directory can be opened, `CreateDict` ends, and counts for
  -- every key exactly the words of all texts in the directory that have this key and are, as they are
  -- written, no line of the file of stop words, whatever way the lines are cut into words; files that
  -- cannot be opened count for nothing.
  pub create_dict_counts :
      (names : List Word)
      → opendir text_path ≡ some names
      → (made : DictCreator) × (create_dict cut files creator ≡ some made)
        × ((key : Word)
            → count key made.dict
              ≡ occurrences
                  (lines_of (files stop_word_path))
                  key
                  (corpus cut files text_path names))
  create_dict_counts names opened = (
    handle_names cut files names (init files creator),
    create_dict-made names opened,
    handle_names-counts names,
  )

  create_dict-unopened : opendir text_path ≡ none → create_dict cut files creator ≡ none
  unfolding create_dict handle_text init
  create_dict-unopened missing = rw (no_dict, create_dict, missing)

  dict_file-unopened :
      (walk : List (Word × ℕ) → List (Word × ℕ))
      → opendir text_path ≡ none
      → dict_file walk cut files creator ≡ none
  unfolding dict_file
  dict_file-unopened walk missing = rw (no_dict, dict_file, create_dict-unopened missing)
