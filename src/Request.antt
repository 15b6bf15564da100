-- ===== src/Request.antt =====
-- The programs over the library: the callback `Message` of the server (test/test_server.cc) and the
-- client (test/client.cc), with `WriteJsonString` (src/task.cc) over the interface of jsoncpp.
pub mod Buffers
pub mod Answered
pub mod Session
pub mod Overlong
use kwd_server.Base.{
  ℕ, zero, suc, ◌==◌, Bool, true, false, Option, none, some, List, [], ◌∷◌, ◌++◌, ◌>>=◌,
  if◌then◌else◌, Word, codes,
}
use kwd_server.SocketIo.{Recv, Readn, returned, blocks, fault, readn, Write, writen}
use kwd_server.Json.{JsonCpp, JsonAnswers}
use kwd_server.Worker.{Task, json_text}
use kwd_server.Net.Connection.{receive}

-- `char buf[1024] = {0};`
abbrev pub zeros : ℕ → Word
zeros zero = []
zeros (suc n) = 0 ∷ zeros n

-- The string that a buffer holds up to its first zero byte. Without one the constructor of the string
-- reads behind the buffer.
unfoldable pub c_string : Word → Option Word
c_string [] = none
c_string (c ∷ buf) =
    let rest = c_string buf in if c == 0 then some [] else (do string ← rest; some (c ∷ string))

-- The string in the buffer after a call of `Readn`, with the calls of `recv` that are left.
unfoldable pub received : Readn → Option (Word × List Recv)
received (returned count buf rest) = do string ← c_string buf; some (string, rest)
received blocks = none
received fault = none

-- `Message` for a connection: the task that it pushes.
unfoldable pub message : ℕ → List Recv → Option (Task × List Recv)
message conn calls = do
  (msg, rest) ← received (receive 1024 (zeros 1024) calls)
  some (record { msg = msg; conn = conn }, rest)

-- `Message` for as many messages, one after the other.
unfoldable pub messages : ℕ → ℕ → List Recv → Option (List Task × List Recv)
messages zero conn calls = some ([], calls)
messages (suc left) conn calls = do
  (task, rest) ← message conn calls
  (tasks, last) ← messages left conn rest
  some (task ∷ tasks, last)

module _ (json : JsonCpp) (answers : JsonAnswers json json_text) where
  open json use {Value, null, parse, member, with_member, as_string}
  open answers use {size, element, set_member, write_string, partial}

  -- What a reader leaves in `root`.
  unfoldable pub parsed_root : Word → Option Value → Value
  parsed_root text none = partial text
  parsed_root text (some root) = root

  -- The part of `WriteJsonString` behind the text in `oss`.
  unfoldable pub rewrite : Word → Word → Word
  rewrite text word =
      write_string (set_member (codes "SearchWord") word (parsed_root text (parse text)))

  -- The loop over `word_ret_list` from `i` on.
  unfoldable pub read_answer : ℕ → ℕ → Value → Option (List Word)
  read_answer zero i word_ret_list = some []
  read_answer (suc left) i word_ret_list = do
    word ← as_string (element i word_ret_list)
    rest ← read_answer left (suc i) word_ret_list
    some (word ∷ rest)

  -- What the client prints of an answer: the word that was searched for, and the words found.
  unfoldable pub show_value : Value → Option (Word × List Word)
  show_value root = do
    word_to_search ← as_string (member (codes "SearchWord") root)
    let word_ret_list = member (codes "SearchRet") (with_member (codes "SearchWord") root)
    words ← read_answer (size word_ret_list) 0 word_ret_list
    some (word_to_search, words)

  unfoldable pub show_answer : Word → Option (Word × List Word)
  show_answer text = show_value (parsed_root text (parse text))

  -- A round of the client's loop behind `Writen`: the answer that it receives, as printed.
  unfoldable pub client_receive : List Recv → Option (Word × List Word)
  client_receive calls = do
    (text, rest) ← received (readn 1024 (zeros 1024) calls)
    show_answer text

  -- The client's loop over the lines that it reads, each with what `write` gives for it: the bytes that
  -- go out, and what is printed.
  unfoldable pub client_loop :
      List (Word × List Write) → List Recv → Option (List Word × List (Word × List Word))
  client_loop [] calls = some ([], [])
  client_loop ((str, writes) ∷ lines) calls = do
    (ret, sent) ← writen str writes
    (text, rest) ← received (readn 1024 (zeros 1024) calls)
    shown ← show_answer text
    (bytes, more) ← client_loop lines rest
    some (sent ∷ bytes, shown ∷ more)
