-- ===== src/Startup/First.antt =====
-- The first start, without the files of the dictionary and of the index.
use kwd_server.Base.{
  ℕ, suc, ◌≤◌, ◌≡◌, refl, ap, ◌∙◌, true, false, none, some, List, [], length, All, if◌then◌else◌,
  Word, word_eq, word_eq_iff, lookup, Bool-cases, inl, inr,
}
use kwd_server.Text.{lines_of, int_max}
use kwd_server.Search.Handle.{Index}
use kwd_server.DictCreator.{
  init as init_creator, handle_names, new_dict_creator, write_file, dict_file,
}
use kwd_server.DictCreator.Counts.{corpus, create_dict-made, handle_names-counts}
use kwd_server.DictCreator.Dictionary.{
  EachOnce, IsDictionary, walked-IsDictionary, creator-IsCounted,
}
use kwd_server.Reference.{set_ref}
use kwd_server.Reference.Files.{write_ref, init}
use kwd_server.Reference.DictFile.{IsEntry, set_dict-write_file}
use kwd_server.Reference.Restart.{KeysAreTokens, IsWalk}
use kwd_server.Startup.{Disk, write, write_missing, SearchModule, Chance, prepare}

-- The words that `DictCreator` counts, and in the order of the file.
abbrev pub names_of : SearchModule → Disk → List Word
names_of m disk = elim (disk.directory m.text_to_handle_path) [ none ↦ [] | some names ↦ names ]

abbrev pub counted : Chance → SearchModule → Disk → List (Word × ℕ)
counted chance m disk =
    (handle_names chance.cut disk.files (names_of m disk) (
      init_creator disk.files (
        new_dict_creator disk.directory m.text_to_handle_path m.dict_path
          m.stop_words_list_path))).dict

abbrev pub entries_of : Chance → SearchModule → Disk → List (Word × ℕ)
entries_of chance m disk = chance.walk_dict (counted chance m disk)

-- The directory of the texts can be opened; neither file is there and both can be written. A walk
-- through the map of the words passes what stands there once, once. The words can be read back: they
-- and their keys are not empty and hold no space, and there are not more than an `int` counts.
pub record IsFresh (chance : Chance) (m : SearchModule) (disk : Disk) : Type 0 where
  pub opened : disk.directory m.text_to_handle_path ≡ some (names_of m disk)
  pub no_dict : disk.files m.dict_path ≡ none
  pub no_ref : disk.files m.ref_path ≡ none
  pub apart : word_eq m.dict_path m.ref_path ≡ false
  pub writes_dict : disk.can_write m.dict_path ≡ true
  pub writes_ref : disk.can_write m.ref_path ≡ true
  pub walks_dict :
      (key : Word) → lookup key (entries_of chance m disk) ≡ lookup key (counted chance m disk)
  pub walks_once : EachOnce (counted chance m disk) → EachOnce (entries_of chance m disk)
  pub walks_ref : IsWalk chance.walk_ref (set_ref chance.overrun (entries_of chance m disk))
  pub readable : All IsEntry (entries_of chance m disk)
  pub tokens : KeysAreTokens chance.overrun 0 (entries_of chance m disk)
  pub small : length (entries_of chance m disk) ≤ suc int_max

pub write_files :
    (path text other : Word) (disk : Disk)
    → disk.can_write path ≡ true
    → (write path text disk).files other
      ≡ (if word_eq path other then some text else disk.files other)
unfolding write
write_files path text other disk h =
    ap
      (λ b.
        (if b
            then record disk { files = λ p. if word_eq path p then some text else disk.files p }
            else disk).files
          other)
      h

pub write-can_write :
    (path text other : Word) (disk : Disk)
    → (write path text disk).can_write other ≡ disk.can_write other
unfolding write
write-can_write path text other disk = elim (Bool-cases (disk.can_write path)) [
  | inl opens ↦
      ap
        (λ b.
          (if b
              then record disk { files = λ p. if word_eq path p then some text else disk.files p }
              else disk).can_write
            other)
        opens
  | inr fails ↦
      ap
        (λ b.
          (if b
              then record disk { files = λ p. if word_eq path p then some text else disk.files p }
              else disk).can_write
            other)
        fails
]

module _ (chance : Chance) (m : SearchModule) (disk : Disk) (k : IsFresh chance m disk) where
  -- The disk after `WriteFile`, and after `WriteRef`.
  abbrev pub with_dict : Disk
  with_dict = write m.dict_path (write_file (entries_of chance m disk)) disk

  abbrev pub with_ref : Disk
  with_ref =
      write m.ref_path
        (write_ref (chance.walk_ref (set_ref chance.overrun (entries_of chance m disk)))) with_dict

  abbrev pub first_module : SearchModule
  first_module = record m {
    ref_creator = some (record {
      dict_path = m.dict_path;
      ref_path = m.ref_path;
      out_put_path = m.ref_path;
      dict = entries_of chance m disk;
      ref = set_ref chance.overrun (entries_of chance m disk);
    });
  }

  pub with_dict-dict : with_dict.files m.dict_path ≡ some (write_file (entries_of chance m disk))
  with_dict-dict =
      write_files m.dict_path _ m.dict_path disk k.writes_dict
      ∙ (rw ((word_eq_iff m.dict_path m.dict_path).1 refl))

  with_dict-ref : with_dict.files m.ref_path ≡ none
  with_dict-ref = write_files m.dict_path _ m.ref_path disk k.writes_dict ∙ (rw k.apart k.no_ref)

  pub first_init :
      init chance.walk_ref chance.garbage chance.overrun
        (some (write_file (entries_of chance m disk)))
        none
      ≡ some (
        entries_of chance m disk,
        set_ref chance.overrun (entries_of chance m disk),
        write_ref (chance.walk_ref (set_ref chance.overrun (entries_of chance m disk))),
      )
  unfolding init
  first_init = rw (set_dict-write_file chance.garbage (entries_of chance m disk) k.readable)

  first_text :
      dict_file chance.walk_dict chance.cut disk.files
        (new_dict_creator disk.directory m.text_to_handle_path m.dict_path m.stop_words_list_path)
      ≡ some (write_file (entries_of chance m disk))
  unfolding dict_file
  first_text = rw (
    k.no_dict,
    dict_file,
    create_dict-made chance.cut disk.files disk.directory m.text_to_handle_path m.dict_path
        m.stop_words_list_path k.no_dict (names_of m disk) k.opened,
  )

  pub prepare-first : prepare chance m disk ≡ some (first_module, with_ref)
  unfolding prepare write_missing
  prepare-first = rw (first_text, k.no_dict, with_dict-dict, with_dict-ref, first_init)

  abbrev pub first_index : Index
  first_index = record {
    dict = entries_of chance m disk;
    refs = set_ref chance.overrun (entries_of chance m disk);
    limit = m.search_word_list_size;
  }

  pub entries-IsDictionary :
      IsDictionary
        (lines_of (disk.files m.stop_words_list_path))
        (corpus chance.cut disk.files m.text_to_handle_path (names_of m disk))
        (entries_of chance m disk)
  entries-IsDictionary =
      let counts =
        creator-IsCounted chance.cut disk.files (names_of m disk) disk.directory
          m.text_to_handle_path m.dict_path m.stop_words_list_path in
      walked-IsDictionary _ _ (counted chance m disk) (entries_of chance m disk)
        (k.walks_once counts.1) k.walks_dict counts.0
        (handle_names-counts chance.cut disk.files disk.directory m.text_to_handle_path m.dict_path
          m.stop_words_list_path k.no_dict (names_of m disk))
