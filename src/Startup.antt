-- ===== src/Startup.antt =====
-- The start of `SearchModule` (src/search_module.cc): the configuration, the dictionary by
-- `DictCreator` and the index by `RefFileCreator`, over the files of a disk.
pub mod Config
pub mod First
pub mod Again
use kwd_server.Base.{
  ℕ, Bool, true, false, not, Option, none, some, List, [], ◌∷◌, ◌>>=◌, if◌then◌else◌, Word, codes,
  word_eq,
}
use kwd_server.Json.{JsonCpp}
use kwd_server.Search.Handle.{Index, search_word}
use kwd_server.DictCreator.{new_dict_creator, dict_file}
use kwd_server.Reference.Files.{init}

-- Files by their paths, whether a path can be opened for writing, and the names in a directory,
-- if it can be opened.
pub record Disk : Type 0 where
  pub files : Word → Option Word
  pub can_write : Word → Bool
  pub directory : Word → Option (List Word)

-- `ofstream ofs(path)` and what is written to it.
unfoldable pub write : Word → Word → Disk → Disk
write path text disk =
    if disk.can_write path
    then record disk { files = λ p. if word_eq path p then some text else disk.files p }
    else disk

-- A file that is written if it is not there yet.
unfoldable pub write_missing : Option Word → Word → Word → Disk → Disk
write_missing none path text disk = write path text disk
write_missing (some there) path text disk = disk

pub record RefFileCreator : Type 0 where
  pub dict_path : Word
  pub ref_path : Word
  pub out_put_path : Word
  pub dict : List (Word × ℕ)
  pub ref : List (Word × List ℕ)

-- The constructor
abbrev pub new_ref_creator : Word → Word → RefFileCreator
new_ref_creator dict_path ref_path = record {
  dict_path = dict_path;
  ref_path = ref_path;
  out_put_path = ref_path;
  dict = [];
  ref = [];
}

-- `ref_creator` is none while the pointers `dict_creator_` and `ref_creator_` are null; nothing is
-- read of the former after `Init`.
pub record SearchModule : Type 0 where
  pub search_word_list_size : ℕ
  pub text_to_handle_path : Word
  pub dict_path : Word
  pub stop_words_list_path : Word
  pub ref_path : Word
  pub ref_creator : Option RefFileCreator

abbrev pub default_module : SearchModule
default_module = record {
  search_word_list_size = 5;
  text_to_handle_path = codes "../data/";
  dict_path = codes "../HandledText/dict";
  stop_words_list_path = codes "../dict/stop_words_list.utf8";
  ref_path = codes "../HandledText/ref";
  ref_creator = none;
}

-- What the program does not determine: the order in which the two maps are walked, the words of a
-- line by cppjieba, the count before the first one is read, and what is behind the keys.
pub record Chance : Type 0 where
  pub walk_dict : List (Word × ℕ) → List (Word × ℕ)
  pub walk_ref : List (Word × List ℕ) → List (Word × List ℕ)
  pub cut : Word → List Word
  pub garbage : ℕ
  pub overrun : ℕ → List Word

-- The end of `Init`: `CreateDict` and `RefFileCreator::Init`.
unfoldable pub prepare : Chance → SearchModule → Disk → Option (SearchModule × Disk)
prepare chance m disk = do
  dict_text ←
      dict_file chance.walk_dict chance.cut disk.files
        (new_dict_creator disk.directory m.text_to_handle_path m.dict_path m.stop_words_list_path)
  let created = write_missing (disk.files m.dict_path) m.dict_path dict_text disk
  (dict, ref, ref_text) ←
      init chance.walk_ref chance.garbage chance.overrun (created.files m.dict_path)
        (created.files m.ref_path)
  let creator = record (new_ref_creator m.dict_path m.ref_path) { dict = dict; ref = ref }
  some (
    record m { ref_creator = some creator },
    write_missing (created.files m.ref_path) m.ref_path ref_text created,
  )

module _ (json : JsonCpp) where
  open json use {Value, parse, member, with_member, is_null, as_int, as_string}

  -- `if ("" != file_path[key].asString()) path = file_path[key].asString();`
  unfoldable pub read_path : Word → Word → Value → Option (Word × Value)
  read_path key path file_path = do
    text ← as_string (member key file_path)
    let seen = with_member key file_path
    if not (word_eq [] text)
        then (do again ← as_string (member key seen); some (again, with_member key seen))
        else some (path, seen)

  unfoldable pub read_size : ℕ → Value → Option (ℕ × Value)
  read_size size root =
      let seen = with_member (codes "SEARCH_RET_LIST_SIZE") root in
      if not (is_null (member (codes "SEARCH_RET_LIST_SIZE") root))
      then (do
        n ← as_int (member (codes "SEARCH_RET_LIST_SIZE") seen)
        some (n, with_member (codes "SEARCH_RET_LIST_SIZE") seen))
      else some (size, seen)

  -- The part of `Init` that reads the configuration.
  unfoldable pub configure : Value → SearchModule → Option SearchModule
  configure root m = do
    (size, seen) ← read_size m.search_word_list_size root
    let file_path = member (codes "FILE_PATH") seen
    (text_path, file_path1) ← read_path (codes "TEXT_TO_HANDLE") m.text_to_handle_path file_path
    (stop_path, file_path2) ← read_path (codes "STOP_WORDS_LIST") m.stop_words_list_path file_path1
    (dict_path, file_path3) ← read_path (codes "HANDLED_DICT") m.dict_path file_path2
    (ref_path, file_path4) ← read_path (codes "HANDLED_REF") m.ref_path file_path3
    some (record m {
      search_word_list_size = size;
      text_to_handle_path = text_path;
      stop_words_list_path = stop_path;
      dict_path = dict_path;
      ref_path = ref_path;
    })

  abbrev pub conf_text : Disk → Word
  conf_text disk = elim (disk.files (codes "../config.json")) [ none ↦ [] | some text ↦ text ]

  -- `Init` with what the parser makes of the file: without a configuration it does no more.
  unfoldable pub init_parsed :
      Chance → Option Value → SearchModule → Disk → Option (SearchModule × Disk)
  init_parsed chance none m disk = some (m, disk)
  init_parsed chance (some root) m disk = do
    configured ← configure root m
    prepare chance configured disk

  unfoldable pub init_module : Chance → SearchModule → Disk → Option (SearchModule × Disk)
  init_module chance m disk = init_parsed chance (parse (conf_text disk)) m disk

  -- `GetInstance`: the module that is there, or a new one.
  unfoldable pub get_instance : Chance → Option SearchModule → Disk → Option (SearchModule × Disk)
  get_instance chance (some instance_ptr) disk = some (instance_ptr, disk)
  get_instance chance none disk = init_module chance default_module disk

-- The destructor, and `Destroy`, which leaves no module behind.
unfoldable search_module_out : SearchModule → SearchModule
search_module_out m = record m { ref_creator = none }

unfoldable destroy : Option SearchModule → Option SearchModule
destroy none = none
destroy (some instance_ptr) = none

-- The dictionary and the index that a search uses; there are none behind a null pointer.
unfoldable pub index_of : SearchModule → Option Index
index_of m = elim m.ref_creator [
  | none ↦ none
  | some creator ↦
      some (record { dict = creator.dict; refs = creator.ref; limit = m.search_word_list_size })
]

-- `SearchWord` of the module
unfoldable pub search : List Word → SearchModule → Word → Option (Word × List Word)
search overrun m word = do index ← index_of m; search_word overrun index word
