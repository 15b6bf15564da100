-- ===== src/Cache/Saved.antt =====
-- A cache that is filled from a file.
use kwd_server.Base.{
  ℕ, zero, suc, ◌≤◌, ◌≡◌, ◌≢◌, refl, sym, ap, ◌∙◌, subst, some, List, [], ◌∷◌, ◌++◌, arith, All,
  All-append, All-take, take-nil, Word, ◌==◌, false, length, length-append, take, lookup,
}
use kwd_server.Text.{blank, newline, get_lines}
use kwd_server.Text.Lines.{
  IsToken, get_lines-append, read_word-append, read_word-blank, read_word-nil, IsToken-line,
}
use kwd_server.Cache.{SearchRetPair, Cache, empty_cache}
use kwd_server.Cache.Linked.{IsLinked, Keeps, Keeps-trans}
use kwd_server.Cache.Pairs.{pairs, lookup-absent, unmapped_of_absent}
use kwd_server.Cache.Refine.{lru_new}
use kwd_server.Cache.Update.{refresh}
use kwd_server.Cache.Update.Copy.{refresh-lookup}
use kwd_server.Cache.File.{words_text, write_cache, read_words, read_pair, init_lines, init}

-- A pair that a line can hold: all its words are tokens.
abbrev pub IsSaved : SearchRetPair → Type 0
IsSaved p = IsToken p.0 × All IsToken p.1

-- The word of the pair is none of the list's.
abbrev pub IsApart : SearchRetPair → List SearchRetPair → Type 0
IsApart p v = All (λ (q : SearchRetPair). q.0 ≢ p.0) v

abbrev pub AllApart : List SearchRetPair → Type 0
AllApart [] = Unit
AllApart (p ∷ v) = IsApart p v × AllApart v

-- The pairs of a file behind others, the last one first.
abbrev pub newest_first : List SearchRetPair → List SearchRetPair → List SearchRetPair
newest_first [] v = v
newest_first (p ∷ rest) v = newest_first rest (p ∷ v)

read_words_lem :
    (rounds : ℕ) (words : List Word)
    → All IsToken words
    → length (words_text words) ≤ rounds
    → read_words rounds (blank ∷ words_text words) ≡ words
unfolding read_words words_text
read_words_lem zero [] tokens room = refl
read_words_lem zero (word ∷ words) tokens room =
    absurd (omega (arith, length-append word (blank ∷ words_text words)))
read_words_lem (suc rounds) [] tokens room = rw (read_word-blank [], read_word-nil, read_words)
read_words_lem (suc rounds) (word ∷ words) tokens room =
    let sum = length-append word (blank ∷ words_text words) in
    rw (
      read_word-blank (word ++ (blank ∷ words_text words)),
      read_word-append word blank (words_text words) tokens.0 refl,
      read_words,
      read_words_lem rounds words tokens.1 (omega (arith, sum)),
    )

read_pair_lem :
    (word : Word) (words : List Word)
    → IsSaved (word, words)
    → read_pair (word ++ (blank ∷ words_text words)) ≡ (word, words)
unfolding read_pair
read_pair_lem word words saved = rw (
  read_word-append word blank (words_text words) saved.0 refl,
  read_pair,
  read_words_lem (suc (length (words_text words))) words saved.1 (omega arith),
)

words_text-line :
    (words : List Word) → All IsToken words → All (λ c. (c == newline) ≡ false) (words_text words)
unfolding words_text
words_text-line [] h = tt
words_text-line (word ∷ words) h =
    All-append (λ c. (c == newline) ≡ false) word (blank ∷ words_text words) (IsToken-line word h.0)
      (refl, words_text-line words h.1)

take-cons-take :
    (size : ℕ) (p : SearchRetPair) (v : List SearchRetPair)
    → take size (p ∷ take size v) ≡ take size (p ∷ v)
take-cons-take zero p v = refl
take-cons-take (suc size) p v = ap (λ l. p ∷ l) (take-take size v)
  where
    take-take : (size : ℕ) (v : List SearchRetPair) → take size (take (suc size) v) ≡ take size v
    take-take zero v = refl
    take-take (suc size) [] = refl
    take-take (suc size) (q ∷ v) = ap (λ l. q ∷ l) (take-take size v)

IsApart-cons :
    (entries v : List SearchRetPair) (p : SearchRetPair)
    → IsApart p entries
    → All (λ q. IsApart q v) entries
    → All (λ q. IsApart q (p ∷ v)) entries
IsApart-cons [] v p h k = tt
IsApart-cons (q ∷ entries) v p h k = (((λ e. h.0 (sym e)), k.0), IsApart-cons entries v p h.1 k.1)

IsApart-nil : (entries : List SearchRetPair) → All (λ q. IsApart q []) entries
IsApart-nil [] = tt
IsApart-nil (q ∷ entries) = (tt, IsApart-nil entries)

pub empty-IsLinked : (size : ℕ) → IsLinked (empty_cache size)
unfolding lookup
empty-IsLinked size = record {
  leads = λ w iter h. cc;
  mapped = tt;
  fresh = tt;
  distinct = tt;
  bounded = omega arith;
}

-- The lines are inserted one after the other; with words that are apart the new cache has the last
-- of them.
init_lines_lem :
    (size : ℕ) (entries v : List SearchRetPair) (c : Cache)
    → IsLinked c
    → c.cache_size ≡ size
    → pairs c.lru_list ≡ take size v
    → All IsSaved entries
    → AllApart entries
    → All (λ p. IsApart p v) entries
    → (d : Cache) × (init_lines (get_lines (write_cache entries)) c ≡ some d)
      × IsLinked d
      × Keeps c d
      × (pairs d.lru_list ≡ take size (newest_first entries v))
unfolding init_lines get_lines write_cache
init_lines_lem size [] v c k same view saved apart new = (c, refl, k, refl, view)
init_lines_lem size ((word, words) ∷ entries) v c k same view saved apart new =
    let line =
      All-append (λ c. (c == newline) ≡ false) word (blank ∷ words_text words)
        (IsToken-line word saved.0.0) (refl, words_text-line words saved.0.1) in
    let old : All (λ (q : SearchRetPair). q.0 ≢ word) (pairs c.lru_list) =
      subst (All (λ (q : SearchRetPair). q.0 ≢ word)) (sym view)
        (All-take (λ (q : SearchRetPair). q.0 ≢ word) size v new.0) in
    let unmapped = unmapped_of_absent word c k (lookup-absent word (pairs c.lru_list) old) in
    let (d, run, p) = lru_new word words c k unmapped in
    let grown : pairs d.lru_list ≡ take size ((word, words) ∷ v) =
      p.view
      ∙ ap (λ n. take n ((word, words) ∷ pairs c.lru_list)) same
      ∙ ap (λ l. take size ((word, words) ∷ l)) view
      ∙ take-cons-take size (word, words) v in
    let (e, rest, linked, kept, final) =
      init_lines_lem size entries ((word, words) ∷ v) d p.linked
        (ap (λ x. x.cache_size) p.keeps ∙ same) grown saved.1 apart.1
        (IsApart-cons entries v (word, words) apart.0 new.1) in
    (
      e,
      rw (
        get_lines-append (word ++ (blank ∷ words_text words)) (write_cache entries) line,
        read_pair_lem word words saved.0,
        run,
        rest,
      ),
      linked,
      Keeps-trans c d e p.keeps kept,
      final,
    )

-- What `Init` makes of such a file, and the cache before the loop at its end.
pub init-filled :
    (size : ℕ) (entries : List SearchRetPair)
    → All IsSaved entries
    → AllApart entries
    → (d : Cache) × (init (some (write_cache entries)) (empty_cache size) ≡ some (refresh d))
      × IsLinked d
      × Keeps (empty_cache size) d
      × (pairs d.lru_list ≡ take size (newest_first entries []))
unfolding init
init-filled size entries saved apart =
    let (d, run, k, kept, view) =
      init_lines_lem size entries [] (empty_cache size) (empty-IsLinked size) refl
        (sym (take-nil size)) saved apart (IsApart-nil entries) in
    (d, rw run, k, kept, view)

-- A new cache whose file `UpdateCache` has written, with words that are tokens and stand once: `Init`
-- never fails, leaves a list that is rightly linked and holds the last pairs of the file, as many as
-- fit, the last one first, and finds each of them also while the caches are updated.
init-write_cache :
    (size : ℕ) (entries : List SearchRetPair)
    → All IsSaved entries
    → AllApart entries
    → (d : Cache) × (init (some (write_cache entries)) (empty_cache size) ≡ some d)
      × IsLinked d
      × (pairs d.lru_list ≡ take size (newest_first entries []))
      × ((word : Word) (words : List Word)
          → lookup word (pairs d.lru_list) ≡ some words
          → lookup word d.nonupdate ≡ some words)
unfolding refresh
init-write_cache size entries saved apart =
    let (d, run, k, kept, view) = init-filled size entries saved apart in
    (
      refresh d,
      run,
      record {
        leads = k.leads;
        mapped = k.mapped;
        fresh = k.fresh;
        distinct = k.distinct;
        bounded = k.bounded;
      },
      view,
      λ word words h. refresh-lookup d word words k h,
    )
