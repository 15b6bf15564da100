-- ===== src/Tests/Server.antt =====
-- The server with a concrete parser of its configuration.
use kwd_server.Base.{
  ℕ, ◌≡◌, refl, ap, Bool, true, false, Option, none, some, [], Word, word_eq, codes,
}
use kwd_server.Json.{JsonCpp}
use kwd_server.Server.{new_server, json_init}
use kwd_server.Server.Defaults.{new_server-defaults}

pub data Doc : Type 0 where
  nothing : Doc
  number : ℕ → Doc
  string : Word → Doc
  object : (Word → Doc) → Doc

abbrev member_of : Word → Doc → Doc
member_of key nothing = nothing
member_of key (number n) = nothing
member_of key (string w) = nothing
member_of key (object members) = members key

abbrev is_nothing : Doc → Bool
is_nothing nothing = true
is_nothing (number n) = false
is_nothing (string w) = false
is_nothing (object members) = false

abbrev int_of : Doc → Option ℕ
int_of nothing = some 0
int_of (number n) = some n
int_of (string w) = none
int_of (object members) = none

abbrev string_of : Doc → Option Word
string_of nothing = some []
string_of (number n) = none
string_of (string w) = some w
string_of (object members) = none

abbrev members_of_conf : Word → Doc
members_of_conf key = elim (word_eq key (codes "SERVER_PORT")) [
  | true ↦ number 8888
  | false ↦ elim (word_eq key (codes "SERVER_IPV4")) [
    | true ↦ string (codes "10.0.0.1")
    | false ↦ elim (word_eq key (codes "SEARCH_RET_LIST_SIZE")) [
      | true ↦ number 3
      | false ↦ elim (word_eq key (codes "FILE_PATH")) [
        | true ↦ object (λ path. elim (word_eq path (codes "HANDLED_REF")) [
          | true ↦ string (codes "ref2")
          | false ↦ nothing
        ])
        | false ↦ nothing
      ]
    ]
  ]
]

-- An empty text cannot be parsed, "null" is null, and any other text is one document.
abbrev parse_text : Word → Option Doc
parse_text text = elim (word_eq text []) [
  | true ↦ none
  | false ↦ elim (word_eq text (codes "null")) [
    | true ↦ some nothing
    | false ↦ some (object members_of_conf)
  ]
]

abbrev pub doc_json : JsonCpp
doc_json = record {
  Value = Doc;
  null = nothing;
  parse = parse_text;
  member = member_of;
  with_member = λ key v. v;
  is_null = is_nothing;
  as_int = int_of;
  as_string = string_of;
  IsBlank = λ v. v ≡ nothing;
  null-IsBlank = refl;
  with_member-IsBlank = λ key v blank. blank;
  member_of_blank = λ key v blank. ap (member_of key) blank;
  null_is_null = refl;
  null_as_string = refl;
  null_as_int = refl;
}

-- The port of the configuration is 8888, which its `root` has afterwards.
new_server-defaults_example :
    (root : Doc) × (new_server doc_json (codes "../config.json") (codes "{}")
      ≡ some (record {
        conf_path = codes "../config.json";
        root = json_init doc_json (codes "{}") root;
        server_ip = codes "127.0.0.1";
        server_port = 6688;
        que_size = 10;
        thread_num = 4;
      }))
new_server-defaults_example = new_server-defaults doc_json (codes "../config.json") (codes "{}")
