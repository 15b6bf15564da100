-- ===== src/Tests/Worker.antt =====
-- A worker at concrete inputs.
use kwd_server.Base.{ℕ, ◌≡◌, refl, true, some, List, [], ◌∷◌, ◌++◌, map, arith, Word, lookup}
use kwd_server.Search.Handle.{Index, is_english, to_lower}
use kwd_server.Reference.{set_ref}
use kwd_server.Reference.Complete.{set_ref_complete}
use kwd_server.Cache.{Cache, empty_cache}
use kwd_server.Worker.{json_text, json_words, quoted, do_work, search_ret_key}
use kwd_server.Worker.Answers.{IsKey, IsTrue, answer_all, do_work-answers}

abbrev pub dict : List (Word × ℕ)
dict = (b'a' ∷ b't' ∷ [], 3) ∷ (b't' ∷ b'o' ∷ [], 2) ∷ []

abbrev pub index : Index
index = record { dict = dict; refs = set_ref (λ i. []) dict; limit = 5 }

abbrev pub no_rewrite : Word → Word → Word
no_rewrite text word = text ++ word

abbrev pub at : Word
at = b'a' ∷ b't' ∷ []

pub at-IsKey : IsKey at
unfolding is_english to_lower
at-IsKey = (λ e. cc e, λ h. refl)

pub empty-IsTrue : IsTrue [] index (empty_cache 2)
unfolding lookup
empty-IsTrue = record {
  linked = record {
    leads = λ w iter h. cc;
    mapped = tt;
    fresh = tt;
    distinct = tt;
    bounded = omega arith;
  };
  idle = refl;
  quiet = refl;
  truths = tt;
}

do_work-answers_example :
    (d : Cache) × (sent : List Word) × (do_work no_rewrite [] index true
        (map some (at ∷ at ∷ []))
        (empty_cache 2)
      ≡ some (d, sent))
    × (answer_all no_rewrite [] index (at ∷ at ∷ []) ≡ some sent)
    × IsTrue [] index d
do_work-answers_example =
    do_work-answers no_rewrite [] index ((set_ref_complete (λ i. []) dict 5).1) true (at ∷ at ∷ [])
      (empty_cache 2) (at-IsKey, (at-IsKey, tt)) empty-IsTrue

two_words :
    json_text (at ∷ (b't' ∷ []) ∷ [])
    ≡ b'{'
      ∷ b'"'
      ∷ (search_ret_key
          ++ b'"' ∷ b':' ∷ b'[' ∷ b'"' ∷ b'a' ∷ b't' ∷ b'"' ∷ b',' ∷ b'"' ∷ b't' ∷ b'"' ∷ b']'
            ∷ b'}' ∷ [])
unfolding json_text json_words quoted
two_words = refl
