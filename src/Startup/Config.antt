-- ===== src/Startup/Config.antt =====
-- What `Init` makes of a configuration that it cannot parse, and of one that says nothing.
use kwd_server.Base.{ℕ, ◌≡◌, refl, ap, ◌∙◌, none, some, List, Word, codes, word_eq}
use kwd_server.Json.{JsonCpp}
use kwd_server.Startup.{
  Disk, SearchModule, Chance, default_module, prepare, read_path, read_size, configure, conf_text,
  init_parsed, init_module, get_instance, index_of, search,
}

module _ (json : JsonCpp) where
  open json use {
    Value, null, parse, member, with_member, is_null, as_int, as_string, IsBlank, null-IsBlank,
    with_member-IsBlank, member_of_blank, null_is_null, null_as_string,
  }

  read_path_blank :
      (key path : Word) (file_path : Value)
      → IsBlank file_path
      → read_path json key path file_path ≡ some (path, with_member key file_path)
  unfolding read_path word_eq
  read_path_blank key path file_path blank =
      rw (member_of_blank key file_path blank, null_as_string)

  read_size_blank :
      (size : ℕ) (root : Value)
      → IsBlank root
      → read_size json size root ≡ some (size, with_member (codes "SEARCH_RET_LIST_SIZE") root)
  unfolding read_size
  read_size_blank size root blank =
      rw (member_of_blank (codes "SEARCH_RET_LIST_SIZE") root blank, null_is_null)

  configure_blank :
      (root : Value) (m : SearchModule) → IsBlank root → configure json root m ≡ some m
  unfolding configure
  configure_blank root m blank =
      let seen = with_member (codes "SEARCH_RET_LIST_SIZE") root in
      let file_path1 = with_member (codes "TEXT_TO_HANDLE") null in
      let blank1 = with_member-IsBlank (codes "TEXT_TO_HANDLE") null null-IsBlank in
      let file_path2 = with_member (codes "STOP_WORDS_LIST") file_path1 in
      let blank2 = with_member-IsBlank (codes "STOP_WORDS_LIST") file_path1 blank1 in
      let file_path3 = with_member (codes "HANDLED_DICT") file_path2 in
      let blank3 = with_member-IsBlank (codes "HANDLED_DICT") file_path2 blank2 in
      rw (
        read_size_blank m.search_word_list_size root blank,
        member_of_blank (codes "FILE_PATH") seen
            (with_member-IsBlank (codes "SEARCH_RET_LIST_SIZE") root blank),
        read_path_blank (codes "TEXT_TO_HANDLE") m.text_to_handle_path null null-IsBlank,
        read_path_blank (codes "STOP_WORDS_LIST") m.stop_words_list_path file_path1 blank1,
        read_path_blank (codes "HANDLED_DICT") m.dict_path file_path2 blank2,
        read_path_blank (codes "HANDLED_REF") m.ref_path file_path3 blank3,
      )

  -- A configuration whose values are all null leaves every parameter at its default: the module is
  -- the one that the end of `Init` makes of the default parameters.
  get_instance_blank :
      (chance : Chance) (disk : Disk) (root : Value)
      → parse (conf_text json disk) ≡ some root
      → IsBlank root
      → get_instance json chance none disk ≡ prepare chance default_module disk
  unfolding get_instance init_module init_parsed
  get_instance_blank chance disk root parsed blank =
      ap (λ conf. init_parsed json chance conf default_module disk) parsed
      ∙ (rw (configure_blank root default_module blank))

  -- Where the configuration cannot be parsed, a module is made and the files are as before, but no
  -- query has a result: the search reads through a null pointer. A later `GetInstance` gives this
  -- module again, whatever the disk holds then.
  get_instance-unparsed :
      (chance : Chance) (disk : Disk)
      → parse (conf_text json disk) ≡ none
      → (m : SearchModule) × (get_instance json chance none disk ≡ some (m, disk))
        × ((overrun : List Word) (word : Word) → search overrun m word ≡ none)
        × ((again : Disk) → get_instance json chance (some m) again ≡ some (m, again))
  unfolding get_instance init_module init_parsed search index_of
  get_instance-unparsed chance disk unparsed = (
    default_module,
    ap (λ conf. init_parsed json chance conf default_module disk) unparsed,
    (λ overrun word. refl),
    (λ again. refl),
  )
