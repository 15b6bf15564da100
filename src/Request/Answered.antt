-- ===== src/Request/Answered.antt =====
-- From the word that a client sends to the words that it prints.
use kwd_server.Base.{
  ℕ, suc, ◌+◌, ◌≡◌, refl, sym, ap, ◌∙◌, subst, Bool, true, Option, some, List, [], ◌∷◌, ◌++◌, arith,
  All, length, get_elem?, Word, codes,
}
use kwd_server.SocketIo.{Recv, Write}
use kwd_server.Search.Handle.{Index, search_word}
use kwd_server.Search.Handle.Hits.{IsIndexed}
use kwd_server.Cache.{SearchRetPair, Cache}
use kwd_server.EventLoop.{EventLoop, sends, add_pending_work, do_works, do_pending_work}
use kwd_server.EventLoop.Wakes.{do_works-sent}
use kwd_server.Worker.{Task, json_text, write_json_string, serve_task}
use kwd_server.Worker.Answers.{IsKey, IsTrue, worker_round-IsTrue}
use kwd_server.Json.{JsonCpp, JsonAnswers}
use kwd_server.Net.Connection.{receive}
use kwd_server.Request.{
  message, parsed_root, rewrite, read_answer, show_value, show_answer, client_receive,
}
use kwd_server.Request.Buffers.{Carries, received-Carries}

module _ (json : JsonCpp) (answers : JsonAnswers json json_text) where
  open json use {Value, null, parse, member, with_member, as_string}
  open answers use {
    size, element, set_member, write_string, IsPlain, IsObject, parsed, parse_answer,
    parsed-IsObject, parsed_size, parsed_element, set_member-IsObject, member_set, member_set_other,
    parse-write_string, with_member_set,
  }

  read_answer-eq :
      (words : List Word) (i : ℕ) (v : Value)
      → ((j : ℕ) (word : Word)
          → get_elem? words j ≡ some word
          → as_string (element (i + j) v) ≡ some word)
      → read_answer json answers (length words) i v ≡ some words
  unfolding read_answer
  read_answer-eq [] i v finds = refl
  read_answer-eq (word ∷ words) i v finds =
      let here : i + 0 ≡ i = omega arith in
      let first : as_string (element i v) ≡ some word =
        subst (λ n. as_string (element n v) ≡ some word) here (finds 0 word refl) in
      let later = read_answer-eq words (suc i) v (λ j other h.
        let next : i + suc j ≡ suc i + j = omega arith in
        subst (λ n. as_string (element n v) ≡ some other) next (finds (suc j) other h)) in
      rw (first, later)

  show_value_lem :
      (w : Word) (words : List Word)
      → IsPlain w
      → All IsPlain words
      → show_value json answers (set_member (codes "SearchWord") w (parsed words)) ≡ some (w, words)
  unfolding show_value
  show_value_lem w words plain_word plain =
      let object = parsed-IsObject words plain in
      let list = member (codes "SearchRet") (parsed words) in
      let counted = read_answer-eq words 0 list (λ j word h.
        let same : 0 + j ≡ j = omega arith in
        subst (λ n. as_string (element n list) ≡ some word) (sym same)
          (parsed_element words j word plain h)) in
      rw (
        member_set w (parsed words) plain_word object,
        with_member_set w (parsed words) object,
        member_set_other w (parsed words) object,
        parsed_size words plain,
        counted,
      )

  pub show_answer-rewrite :
      (w : Word) (words : List Word)
      → IsPlain w
      → All IsPlain words
      → show_answer json answers (rewrite json answers (json_text words) w) ≡ some (w, words)
  unfolding show_answer rewrite parsed_root
  show_answer-rewrite w words plain_word plain =
      let v = set_member (codes "SearchWord") w (parsed words) in
      let object = set_member-IsObject w (parsed words) plain_word (parsed-IsObject words plain) in
      let shown : Option Value → Option (Word × List Word) =
        λ root. show_value json answers (parsed_root json answers (write_string v) root) in
      let written : rewrite json answers (json_text words) w ≡ write_string v =
        ap
          (λ root.
            write_string
              (set_member (codes "SearchWord") w (parsed_root json answers (json_text words) root)))
          (parse_answer words plain) in
      ap (show_answer json answers) written
      ∙ ap shown (parse-write_string v object)
      ∙ show_value_lem w words plain_word plain

  -- What stays to be sent when a task is answered, and what the loop then sends of it.
  pending-sent :
      (conn : ℕ) (text : Word) (looper : EventLoop)
      → looper.pending_list ≡ []
      → looper.alive conn ≡ true
      → (after : EventLoop) × (do_pending_work (add_pending_work conn text looper) ≡ some after)
        × (after.calls ≡ sends conn text ∷ looper.calls)
  unfolding do_pending_work add_pending_work
  pending-sent conn text looper empty alive =
      let idle = record looper { pending_list = [] } in
      (
        _,
        ap (λ l. do_works (l ++ (conn, text) ∷ []) idle) empty
            ∙ do_works-sent ((conn, text) ∷ []) idle (alive, tt),
        refl,
      )

  -- A client whose word the server can read, on a connection that is alive, is answered: the callback
  -- of the server makes a task of exactly this word; a worker whose cache holds only answers of the
  -- search module serves it, from the cache or by a search; the loop then sends one text, with which
  -- its cache is as good as before; and a client that receives this text prints the word and exactly
  -- the words that the search module finds. The word is a key of the cache, it and the words found need
  -- no escape in JSON, and nothing else is pending.
  pub request-Answered :
      (overrun : List Word) (index : Index) (is_first : Bool) (cache : Cache) (word : Word)
      (words : List Word) (conn : ℕ) (looper : EventLoop) {writes writes' : List Write}
      {start calls start' calls' : List Recv} (later later' : List Recv)
      → IsIndexed index
      → IsTrue overrun index cache
      → IsKey word
      → search_word overrun index word ≡ some (word, words)
      → IsPlain word
      → All IsPlain words
      → looper.pending_list ≡ []
      → looper.alive conn ≡ true
      → Carries word writes start calls
      → Carries (rewrite json answers (json_text words) word) writes' start' calls'
      → (task : Task) × (served : Cache) × (woken after : EventLoop) × (message conn
            (start ++ (calls ++ later))
          ≡ some (task, later))
        × (serve_task (rewrite json answers) overrun index is_first task cache looper
            ≡ some (served, woken))
        × (do_pending_work woken ≡ some after)
        × (after.calls ≡ sends conn (rewrite json answers (json_text words) word) ∷ looper.calls)
        × (client_receive json answers (start' ++ (calls' ++ later')) ≡ some (word, words))
        × IsTrue overrun index served
  unfolding message serve_task client_receive receive write_json_string
  request-Answered overrun index is_first cache word words conn looper later later' indexed good key
        finds plain_word plain empty alive there back =
      let (served, ret, run, truth, good_after) =
        worker_round-IsTrue (rewrite json answers) overrun index indexed is_first word cache key
          good in
      let text = rewrite json answers (json_text words) word in
      let same : ret ≡ (word, words) = cc (truth, finds) in
      let (after, done, sent_calls) = pending-sent conn text looper empty alive in
      (
        record { msg = word; conn = conn },
        served,
        add_pending_work conn text looper,
        after,
        rw (received-Carries there later),
        rw run (
            ap
              (λ (r : SearchRetPair).
                some
                  (served, add_pending_work conn (rewrite json answers (json_text r.1) r.0) looper))
              same),
        done,
        sent_calls,
        rw (received-Carries back later', show_answer-rewrite word words plain_word plain),
        good_after,
      )
