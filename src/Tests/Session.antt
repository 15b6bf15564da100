-- ===== src/Tests/Session.antt =====
-- The same query twice over one connection: the second answer comes from the cache.
use kwd_server.Base.{◌≡◌, sym, subst, true, some, List, [], ◌∷◌, map, Word}
use kwd_server.SocketIo.{interrupted, got, write_interrupted, wrote}
use kwd_server.Reference.Complete.{set_ref_complete}
use kwd_server.Cache.{Cache, empty_cache}
use kwd_server.Worker.{Task, do_work}
use kwd_server.Worker.Answers.{IsTrue}
use kwd_server.Request.{messages, rewrite, client_loop}
use kwd_server.Request.Buffers.{Carries}
use kwd_server.Request.Session.{Query, asked, told, answer_to, IsServed, session-Answered}
use kwd_server.Tests.AnswerDoc.{doc_json}
use kwd_server.Tests.AnswerLaws.{doc_answers}
use kwd_server.Tests.Request.{to, text, asks, written, is_told, found, at_to-IsLetters}
use kwd_server.Tests.Worker.{dict, index, at, at-IsKey, empty-IsTrue}

abbrev query : Query
query = record {
  word = at;
  words = at ∷ to ∷ [];
  writes = wrote 6 ∷ [];
  start = got (2 ∷ 0 ∷ 0 ∷ 0 ∷ []) ∷ [];
  calls = got (b'a' ∷ []) ∷ interrupted ∷ got (b't' ∷ []) ∷ [];
  writes' = write_interrupted ∷ wrote 31 ∷ [];
  start' = interrupted ∷ got (27 ∷ 0 ∷ 0 ∷ 0 ∷ []) ∷ [];
  calls' = got text ∷ [];
}

query-IsServed : IsServed doc_json doc_answers [] index query
query-IsServed = record {
  key = at-IsKey;
  finds = found;
  plain_word = at_to-IsLetters.0;
  plain = at_to-IsLetters;
  there = asks;
  back =
      subst
        (λ t.
          Carries t (write_interrupted ∷ wrote 31 ∷ [])
            (interrupted ∷ got (27 ∷ 0 ∷ 0 ∷ 0 ∷ []) ∷ []) (got text ∷ []))
        (sym written) is_told;
}

session-Answered_example :
    (tasks : List Task) × (served : Cache) × (sent : List Word) × (bytes : List Word) × (messages 2
        0
        (asked (query ∷ query ∷ []) [])
      ≡ some (tasks, []))
    × (map (λ t. t.msg) tasks ≡ at ∷ at ∷ [])
    × (do_work
          (rewrite doc_json doc_answers)
          []
          index
          true
          (map some (map (λ t. t.msg) tasks))
          (empty_cache 2)
        ≡ some (served, sent))
    × (sent ≡ map (answer_to doc_json doc_answers [] index) (query ∷ query ∷ []))
    × (client_loop doc_json doc_answers
          ((at, wrote 6 ∷ []) ∷ (at, wrote 6 ∷ []) ∷ [])
          (told (query ∷ query ∷ []) [])
        ≡ some (bytes, (at, at ∷ to ∷ []) ∷ (at, at ∷ to ∷ []) ∷ []))
    × IsTrue [] index served
session-Answered_example =
    session-Answered doc_json doc_answers [] index true (empty_cache 2) 0 (query ∷ query ∷ []) [] []
      ((set_ref_complete (λ i. []) dict 5).1) empty-IsTrue (query-IsServed, (query-IsServed, tt))
