-- ===== src/Tests/Startup.antt =====
-- A first and a later start over a concrete disk.
use kwd_server.Base.{
  ℕ, ◌≡◌, refl, true, none, some, List, [], ◌∷◌, ◌>>=◌, if◌then◌else◌, Word, word_eq, codes, lookup,
  assign, arith, All,
}
use kwd_server.Text.{lines_of, get_lines}
use kwd_server.Search.Handle.{is_english, to_lower, char_key, keys_ch, chars_key}
use kwd_server.Search.Handle.Sets.{insert}
use kwd_server.Reference.{positions_of, add_ref, word_keys, add_refs, set_ref_from, set_ref}
use kwd_server.Reference.DictFile.{IsEntry}
use kwd_server.Reference.Restart.{IsWalk, KeysAreTokens}
use kwd_server.DictCreator.{
  init, is_stop_word, dict_key, count, add_word, handle_word, handle_lines, is_dots, handle_names,
}
use kwd_server.Startup.{
  Disk, SearchModule, Chance, default_module, prepare, read_path, read_size, configure, search,
}
use kwd_server.Startup.First.{IsFresh, counted}
use kwd_server.Startup.Again.{view_of, later_start}
use kwd_server.Tests.Server.{doc_json}

-- The directory has the text "To\nA\na\nto", and each line is one word.
abbrev disk : Disk
disk = record {
  files = λ path. if word_eq path (codes "../data/f") then some (codes "To\nA\na\nto") else none;
  can_write = λ path. true;
  directory = λ path. some (codes "." ∷ codes "f" ∷ []);
}

abbrev pub chance : Chance
chance = record {
  walk_dict = λ d. d;
  walk_ref = λ r. r;
  cut = λ line. line ∷ [];
  garbage = 0;
  overrun = λ i. [];
}

abbrev pub dict_words : List (Word × ℕ)
dict_words = (codes "to", 2) ∷ (codes "a", 2) ∷ []

counted_words : counted chance default_module disk ≡ dict_words
unfolding init handle_names handle_lines handle_word add_word is_stop_word dict_key count get_lines
    lines_of is_dots is_english to_lower word_eq lookup assign
counted_words = refl

pub entries-IsEntry : All IsEntry dict_words
entries-IsEntry = (
  (((λ p. cc p), (refl, (refl, tt))), omega arith),
  ((((λ p. cc p), (refl, tt)), omega arith), tt),
)

pub keys-IsWalk : IsWalk (λ r. r) (set_ref (λ i. []) dict_words)
unfolding set_ref set_ref_from add_refs add_ref positions_of word_keys is_english char_key keys_ch
    chars_key insert lookup assign word_eq
keys-IsWalk = ((refl, (refl, (refl, tt))), λ key. refl)

pub keys-KeysAreTokens : KeysAreTokens (λ i. []) 0 dict_words
unfolding word_keys is_english char_key keys_ch chars_key
keys-KeysAreTokens = (
  (((λ p. cc p), (refl, tt)), (((λ p. cc p), (refl, tt)), tt)),
  ((((λ p. cc p), (refl, tt)), tt), tt),
)

fresh : IsFresh chance default_module disk
unfolding word_eq
fresh = record {
  opened = refl;
  no_dict = refl;
  no_ref = refl;
  apart = refl;
  writes_dict = refl;
  writes_ref = refl;
  walks_dict = λ key. refl;
  walks_once = λ once. once;
  walks_ref = rw counted_words keys-IsWalk;
  readable = rw counted_words entries-IsEntry;
  tokens = rw counted_words keys-KeysAreTokens;
  small = rw counted_words (omega arith);
}

later_start_example :
    (first later : SearchModule) × (after : Disk) × (prepare chance default_module disk
      ≡ some (first, after))
    × (prepare (record chance { garbage = 9 }) default_module after ≡ some (later, after))
    × (view_of later ≡ view_of first)
    × ((overrun : List Word) (word : Word) → search overrun later word ≡ search overrun first word)
later_start_example = later_start chance default_module disk fresh (record chance { garbage = 9 })

-- A configuration that names two of the parameters.
configured :
    (do root ← doc_json.parse (codes "{}"); configure doc_json root default_module)
    ≡ some (record default_module { search_word_list_size = 3; ref_path = codes "ref2" })
unfolding configure read_path read_size word_eq
configured = refl
