-- ===== src/Worker.antt =====
-- `Worker::DoWork` (include/worker.hpp) with `Task` (src/task.cc): a worker thread takes tasks from
-- the queue, answers each from its cache or by the search module, and sends the answer to the
-- connection. What jsoncpp makes of the text and of the word (`Reader::parse`, `root["SearchWord"]`
-- and `writeString`) is the argument `rewrite`.
pub mod Answers
pub mod Restarted
pub mod Updated
use kwd_server.Base.{
  ℕ, Bool, true, false, Option, none, some, List, [], ◌∷◌, ◌++◌, ◌>>=◌, if◌then◌else◌, Word,
  word_eq,
}
use kwd_server.Search.Handle.{Index, search_word}
use kwd_server.EventLoop.{EventLoop, add_pending_work}
use kwd_server.Cache.{SearchRetPair, Cache, search_cache, insert_cache}

unfoldable pub quoted : Word → Word
quoted i = b'"' ∷ (i ++ b'"' ∷ [])

-- the loop of `WriteJsonString`, whose `flag` tells that no word was written yet
unfoldable pub json_words : Bool → List Word → Word
json_words flag [] = []
json_words true (i ∷ rest) = quoted i ++ json_words false rest
json_words false (i ∷ rest) = b',' ∷ (quoted i ++ json_words false rest)

abbrev pub search_ret_key : Word
search_ret_key = b'S' ∷ b'e' ∷ b'a' ∷ b'r' ∷ b'c' ∷ b'h' ∷ b'R' ∷ b'e' ∷ b't' ∷ []

-- the text in `oss`
unfoldable pub json_text : List Word → Word
json_text words =
    b'{' ∷ (quoted search_ret_key ++ b':' ∷ b'[' ∷ (json_words true words ++ b']' ∷ b'}' ∷ []))

unfoldable pub write_json_string : (Word → Word → Word) → SearchRetPair → Word
write_json_string rewrite ret_pair = rewrite (json_text ret_pair.1) ret_pair.0

-- `Task`: the message, and the connection that is answered.
pub record Task : Type 0 where
  pub msg : Word
  pub conn : ℕ

-- `CallSearchModule`: its result, and what it sends to the connection.
abbrev pub call_search_module :
    (Word → Word → Word) → List Word → Index → Word → Option (SearchRetPair × Word)
call_search_module rewrite overrun index msg = do
  ret ← search_word overrun index msg
  some (ret, write_json_string rewrite ret)

-- `FoundInCache`: what it sends.
abbrev pub found_in_cache : (Word → Word → Word) → SearchRetPair → Word
found_in_cache rewrite ret_pair = write_json_string rewrite ret_pair

-- One round of `DoWork` with the message of the task: the cache afterwards, and what is sent. A null
-- pointer for the task, as `Pop` returns it after `WakeUp`, has no result.
unfoldable pub worker_round :
    (Word → Word → Word) → List Word → Index → Bool → Option Word → Cache → Option (Cache × Word)
worker_round rewrite overrun index is_first none cache = none
worker_round rewrite overrun index is_first (some msg) cache = do
  (searched, found) ← search_cache msg cache
  if word_eq [] found.0
      then (do
        (ret, sent) ← call_search_module rewrite overrun index msg
        inserted ← insert_cache is_first ret searched
        some (inserted, sent))
      else some (searched, found_in_cache rewrite found)

-- The round of a task with `SendToPending` of its connection, and what is sent left to the event loop.
unfoldable pub serve_task :
    (Word → Word → Word)
    → List Word
    → Index
    → Bool
    → Task
    → Cache
    → EventLoop
    → Option (Cache × EventLoop)
serve_task rewrite overrun index is_first task cache looper = do
  (next, sent) ← worker_round rewrite overrun index is_first (some task.msg) cache
  some (next, add_pending_work task.conn sent looper)

-- `DoWork` until the pool exits, with the tasks that it gets.
unfoldable pub do_work :
    (Word → Word → Word)
    → List Word
    → Index
    → Bool
    → List (Option Word)
    → Cache
    → Option (Cache × List Word)
do_work rewrite overrun index is_first [] cache = some (cache, [])
do_work rewrite overrun index is_first (task ∷ tasks) cache = do
  (next, sent) ← worker_round rewrite overrun index is_first task cache
  (last, rest) ← do_work rewrite overrun index is_first tasks next
  some (last, sent ∷ rest)
