-- ===== src/Request/Session.antt =====
-- Many queries over one connection.
use kwd_server.Base.{
  ℕ, ◌≡◌, refl, sym, ap, ◌∙◌, Bool, some, List, [], ◌∷◌, ◌++◌, All, length, map, Word,
}
use mathlib.Core.Option.{some-injective}
use kwd_server.SocketIo.{Recv, Write}
use kwd_server.Search.Handle.{Index, search_word}
use kwd_server.Search.Handle.Hits.{IsIndexed}
use kwd_server.Cache.{Cache}
use kwd_server.Worker.{Task, json_text, write_json_string, do_work}
use kwd_server.Worker.Answers.{IsKey, IsTrue, answer_all, do_work-answers}
use kwd_server.Json.{JsonCpp, JsonAnswers}
use kwd_server.Net.Connection.{receive}
use kwd_server.Request.{message, messages, rewrite, client_loop}
use kwd_server.Request.Buffers.{Carries, received-Carries}
use kwd_server.Request.Answered.{show_answer-rewrite}

-- A word, the words that are found for it, and what the calls give that carry the word to the server
-- and the answer back.
pub record Query : Type 0 where
  pub word : Word
  pub words : List Word
  pub writes : List Write
  pub start : List Recv
  pub calls : List Recv
  pub writes' : List Write
  pub start' : List Recv
  pub calls' : List Recv

abbrev pub task_of : ℕ → Query → Task
task_of conn q = record { msg = q.word; conn = conn }

-- What `recv` gives on the server, and on the client, one query after the other.
abbrev pub asked : List Query → List Recv → List Recv
asked [] later = later
asked (q ∷ qs) later = q.start ++ (q.calls ++ asked qs later)

abbrev pub told : List Query → List Recv → List Recv
told [] later = later
told (q ∷ qs) later = q.start' ++ (q.calls' ++ told qs later)

module _ (json : JsonCpp) (answers : JsonAnswers json json_text) (overrun : List Word)
    (index : Index) where
  open answers use {IsPlain}

  abbrev pub answer_to : Query → Word
  answer_to q = rewrite json answers (json_text q.words) q.word

  -- The word is a key, these are the words that the search module finds, none of them needs an escape in
  -- JSON, and both messages can be carried.
  pub record IsServed (q : Query) : Type 0 where
    pub key : IsKey q.word
    pub finds : search_word overrun index q.word ≡ some (q.word, q.words)
    pub plain_word : IsPlain q.word
    pub plain : All IsPlain q.words
    pub there : Carries q.word q.writes q.start q.calls
    pub back : Carries (answer_to q) q.writes' q.start' q.calls'

  messages_lem :
      (conn : ℕ) (qs : List Query) (later : List Recv)
      → All IsServed qs
      → messages (length qs) conn (asked qs later) ≡ some (map (task_of conn) qs, later)
  unfolding messages message receive
  messages_lem conn [] later h = refl
  messages_lem conn (q ∷ qs) later h =
      rw (received-Carries h.0.there (asked qs later), messages_lem conn qs later h.1)

  answer_all_lem :
      (qs : List Query)
      → All IsServed qs
      → answer_all (rewrite json answers) overrun index (map (λ q. q.word) qs)
        ≡ some (map answer_to qs)
  unfolding write_json_string
  answer_all_lem [] h = refl
  answer_all_lem (q ∷ qs) h = rw (h.0.finds, answer_all_lem qs h.1)

  client_loop_lem :
      (qs : List Query) (later : List Recv)
      → All IsServed qs
      → (bytes : List Word) × (client_loop json answers
            (map (λ q. (q.word, q.writes)) qs)
            (told qs later)
          ≡ some (bytes, map (λ q. (q.word, q.words)) qs))
  unfolding client_loop
  client_loop_lem [] later h = ([], refl)
  client_loop_lem (q ∷ qs) later h =
      let (bytes, more) = client_loop_lem qs later h.1 in
      (
        h.0.there.sent ∷ bytes,
        rw (
          h.0.there.goes_out,
          received-Carries h.0.back (told qs later),
          show_answer-rewrite json answers q.word q.words h.0.plain_word h.0.plain,
          more,
        ),
      )

  -- A client that sends one query after the other over one connection is served: the callback of the
  -- server, once for each message, makes the tasks of exactly these words in order, and leaves what
  -- comes after them; a worker whose cache holds only answers of the search module never fails on these
  -- tasks, and sends for each the answer with the words that the search module finds; and the client
  -- prints each word with exactly these words, in order. The words are keys, all words can be written
  -- without an escape in JSON, and the messages can be carried.
  pub session-Answered :
      (is_first : Bool) (cache : Cache) (conn : ℕ) (qs : List Query) (later later' : List Recv)
      → IsIndexed index
      → IsTrue overrun index cache
      → All IsServed qs
      → (tasks : List Task) × (served : Cache) × (sent : List Word) × (bytes : List Word)
        × (messages (length qs) conn (asked qs later) ≡ some (tasks, later))
        × (map (λ t. t.msg) tasks ≡ map (λ q. q.word) qs)
        × (do_work
              (rewrite json answers)
              overrun
              index
              is_first
              (map some (map (λ t. t.msg) tasks))
              cache
            ≡ some (served, sent))
        × (sent ≡ map answer_to qs)
        × (client_loop json answers (map (λ q. (q.word, q.writes)) qs) (told qs later')
            ≡ some (bytes, map (λ q. (q.word, q.words)) qs))
        × IsTrue overrun index served
  session-Answered is_first cache conn qs later later' indexed good h =
      let keys : All IsKey (map (λ q. q.word) qs) = keys_of qs h in
      let (served, sent, run, all, good_after) =
        do_work-answers (rewrite json answers) overrun index indexed is_first (map (λ q. q.word) qs)
          cache keys good in
      let (bytes, shown) = client_loop_lem qs later' h in
      let same = msgs_of qs in
      (
        map (task_of conn) qs,
        served,
        sent,
        bytes,
        messages_lem conn qs later h,
        same,
        ap (λ msgs. do_work (rewrite json answers) overrun index is_first (map some msgs) cache)
              same
            ∙ run,
        some-injective _ _ (sym all ∙ answer_all_lem qs h),
        shown,
        good_after,
      )
    where
      keys_of : (qs : List Query) → All IsServed qs → All IsKey (map (λ q. q.word) qs)
      keys_of [] h = tt
      keys_of (q ∷ qs) h = (h.0.key, keys_of qs h.1)

      msgs_of : (qs : List Query) → map (λ t. t.msg) (map (task_of conn) qs) ≡ map (λ q. q.word) qs
      msgs_of [] = refl
      msgs_of (q ∷ qs) = ap (◌∷◌ q.word) (msgs_of qs)
