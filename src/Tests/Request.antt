-- ===== src/Tests/Request.antt =====
-- A request over a connection, and one that is too long.
use kwd_server.Base.{
  ℕ, zero, suc, ◌<◌, ◌≡◌, refl, sym, subst, none, some, Bool, true, ◌&&◌, [], ◌∷◌, ◌++◌, arith, All,
  Word, codes, ltb, length, take,
}
use kwd_server.SocketIo.{
  interrupted, got, returned, write_interrupted, wrote, writen, send_buf, strlen, strncpy, le_bytes,
}
use kwd_server.SocketIo.Transfer.{whole, retried, nothing, again, part}
use kwd_server.Base.{lookup, assign, word_eq, word_gt, loop}
use kwd_server.Search.Edit.{fill_cell, fill_grid, load, min3, min_edit, store, substitution}
use kwd_server.Search.Rank.{pop_words, push, result_gt}
use kwd_server.Search.Handle.Sets.{insert, insert_all}
use kwd_server.Search.Handle.{
  search_word, is_english, handle_eng, best_words, rank_positions, collect_eng, char_key, to_lower,
  too_far_eng,
}
use kwd_server.Reference.{set_ref, set_ref_from, add_refs, word_keys, add_ref, positions_of}
use kwd_server.Reference.Complete.{set_ref_complete}
use kwd_server.Cache.{Cache, empty_cache}
use kwd_server.EventLoop.{EventLoop, sends, new_loop, do_pending_work}
use kwd_server.Worker.{Task, json_text, json_words, quoted, serve_task}
use kwd_server.Worker.Answers.{IsTrue}
use kwd_server.Net.Connection.{receive}
use kwd_server.Request.{zeros, c_string, message, parsed_root, rewrite, client_receive}
use kwd_server.Request.Buffers.{Carries}
use kwd_server.Request.Answered.{request-Answered}
use kwd_server.Request.Overlong.{message_overlong}
use kwd_server.Tests.AnswerDoc.{doc_json, IsLetters}
use kwd_server.Tests.AnswerLaws.{doc_answers}
use kwd_server.Tests.Worker.{dict, index, at, at-IsKey, empty-IsTrue}

abbrev pub to : Word
to = codes "to"

pub found : search_word [] index at ≡ some (at, at ∷ to ∷ [])
unfolding search_word is_english handle_eng best_words rank_positions collect_eng lookup set_ref
    set_ref_from add_refs word_keys add_ref assign word_eq char_key to_lower insert_all insert loop
    word_gt positions_of fill_cell fill_grid load min3 min_edit store substitution too_far_eng
    pop_words push result_gt
found = refl

abbrev pub text : Word
text = codes "{\"SearchRet\":[\"at\",\"to\"]}at"

pub written : rewrite doc_json doc_answers (json_text (at ∷ to ∷ [])) at ≡ text
unfolding rewrite json_text parsed_root quoted json_words word_eq
written = refl

abbrev pub positive : Word → Bool
positive [] = true
positive (b ∷ w) = ltb 0 b && positive w

pub all_positive : (w : Word) → positive w ≡ true → All (λ b. 0 < b) w
all_positive [] h = tt
all_positive (b ∷ w) h = (ground (arith, h), all_positive w (ground (arith, h)))

-- The word comes in two parts with an interruption between them.
pub asks :
    Carries at
      (wrote 6 ∷ [])
      (got (2 ∷ 0 ∷ 0 ∷ 0 ∷ []) ∷ [])
      (got (b'a' ∷ []) ∷ interrupted ∷ got (b't' ∷ []) ∷ [])
unfolding writen send_buf strlen strncpy le_bytes
asks = record {
  nonzero = all_positive at refl;
  fits = omega arith;
  gapless = (λ h. absurd (omega arith), λ h. omega arith, λ h. omega arith);
  sent = 2 ∷ 0 ∷ 0 ∷ 0 ∷ at;
  goes_out = refl;
  header_comes = whole 2 (0 ∷ 0 ∷ 0 ∷ []);
  rest_comes = part b'a' [] (again (part b't' [] nothing));
}

pub is_told :
    Carries text
      (write_interrupted ∷ wrote 31 ∷ [])
      (interrupted ∷ got (27 ∷ 0 ∷ 0 ∷ 0 ∷ []) ∷ [])
      (got text ∷ [])
unfolding writen send_buf strlen strncpy le_bytes
is_told = record {
  nonzero = all_positive text refl;
  fits = omega arith;
  gapless = (λ h. absurd (omega arith), λ h. omega arith, λ h. omega arith);
  sent = 27 ∷ 0 ∷ 0 ∷ 0 ∷ text;
  goes_out = refl;
  header_comes = retried (whole 27 (0 ∷ 0 ∷ 0 ∷ []));
  rest_comes = part b'{' _ nothing;
}

abbrev pub looper : EventLoop
looper = record (new_loop 3 4) { alive = λ id. true; next_conn = 1 }

pub at_to-IsLetters : All IsLetters (at ∷ to ∷ [])
at_to-IsLetters = (((refl, (refl, tt)), λ e. cc e), (((refl, (refl, tt)), λ e. cc e), tt))

request-Answered_example :
    (task : Task) × (served : Cache) × (woken after : EventLoop) × (message 0 (
        (got (2 ∷ 0 ∷ 0 ∷ 0 ∷ []) ∷ [])
        ++ ((got (b'a' ∷ []) ∷ interrupted ∷ got (b't' ∷ []) ∷ []) ++ []))
      ≡ some (task, []))
    × (serve_task (rewrite doc_json doc_answers) [] index true task (empty_cache 2) looper
        ≡ some (served, woken))
    × (do_pending_work woken ≡ some after)
    × (after.calls ≡ sends 0 (rewrite doc_json doc_answers (json_text (at ∷ to ∷ [])) at) ∷ [])
    × (client_receive doc_json doc_answers
          ((interrupted ∷ got (27 ∷ 0 ∷ 0 ∷ 0 ∷ []) ∷ []) ++ ((got text ∷ []) ++ []))
        ≡ some (at, at ∷ to ∷ []))
    × IsTrue [] index served
request-Answered_example =
    request-Answered doc_json doc_answers [] index true (empty_cache 2) at (at ∷ to ∷ []) 0 looper
      [] [] ((set_ref_complete (λ i. []) dict 5).1) empty-IsTrue at-IsKey found at_to-IsLetters.0
      at_to-IsLetters refl refl asks
      (subst
        (λ t.
          Carries t (write_interrupted ∷ wrote 31 ∷ [])
            (interrupted ∷ got (27 ∷ 0 ∷ 0 ∷ 0 ∷ []) ∷ []) (got text ∷ []))
        (sym written) is_told)

abbrev ones : ℕ → Word
ones zero = []
ones (suc n) = 1 ∷ ones n

ones_positive : (n : ℕ) → All (λ b. 0 < b) (ones n)
ones_positive zero = tt
ones_positive (suc n) = (omega arith, ones_positive n)

overlong_written :
    writen (ones 1025) (wrote 1029 ∷ []) ≡ some (wrote 1029, 1 ∷ 4 ∷ 0 ∷ 0 ∷ ones 1025)
unfolding writen send_buf strlen strncpy le_bytes
overlong_written = refl

message_overlong_example :
    (receive 1024 (zeros 1024) ((got (1 ∷ 4 ∷ 0 ∷ 0 ∷ []) ∷ []) ++ ((got (ones 1024) ∷ []) ++ []))
      ≡ returned (length (ones 1025)) (take 1024 (ones 1025)) [])
    × (length (take 1024 (ones 1025)) ≡ length (zeros 1024))
    × (c_string (take 1024 (ones 1025)) ≡ none)
    × (message 0 ((got (1 ∷ 4 ∷ 0 ∷ 0 ∷ []) ∷ []) ++ ((got (ones 1024) ∷ []) ++ [])) ≡ none)
message_overlong_example =
    message_overlong (ones 1025) 0 (wrote 1029 ∷ []) (1 ∷ 4 ∷ 0 ∷ 0 ∷ ones 1025)
      (got (1 ∷ 4 ∷ 0 ∷ 0 ∷ []) ∷ []) (got (ones 1024) ∷ []) [] (ones_positive 1025) (omega arith)
      (omega arith) (λ h. absurd (omega arith), λ h. absurd (omega arith), λ h. omega arith)
      overlong_written (whole 1 (4 ∷ 0 ∷ 0 ∷ [])) (part 1 (ones 1023) nothing)
