-- ===== src/Reference/Search.antt =====
-- A search over the index that `SetRef` (src/reference_creator.cc) builds from the dictionary.
use kwd_server.Base.{ℕ, List, Word, In, map}
use kwd_server.Search.Handle.{Index, char_key, too_far_eng, handle_eng}
use kwd_server.Search.Handle.Best.{IsBest, IsHit-map, FoundByKeys, handle_eng-IsBest}
use kwd_server.Reference.{set_ref}
use kwd_server.Reference.Complete.{WordHasKey, set_ref_complete}

-- The dictionary word at the position has one of the keys of the word searched for.
abbrev pub SharesKey : (ℕ → List Word) → List (Word × ℕ) → List Word → ℕ → Type 0
SharesKey overrun dict keys i = (key : Word) × In key keys × WordHasKey overrun dict key i

-- Over the index that `SetRef` builds, whatever the dictionary, `HandleENG` always returns: the
-- first words of the ranking of exactly those dictionary words that share a byte with the word
-- searched for and are at edit distance 3 at most.
pub handle_eng-set_ref :
    (overrun : ℕ → List Word) (dict : List (Word × ℕ)) (limit : ℕ) (word : Word)
    → IsBest
        (SharesKey overrun dict (map char_key word))
        (record { dict = dict; refs = set_ref overrun dict; limit = limit })
        too_far_eng
        word
        (handle_eng (record { dict = dict; refs = set_ref overrun dict; limit = limit }) word)
handle_eng-set_ref overrun dict limit word =
    let index : Index = record { dict = dict; refs = set_ref overrun dict; limit = limit } in
    let keys = map char_key word in
    let (exactly, indexed) = set_ref_complete overrun dict limit in
    let best = handle_eng-IsBest index word indexed in
    record {
      hits = best.hits;
      ranked = best.ranked;
      once = best.once;
      sound = λ r h.
          IsHit-map (FoundByKeys index keys) (SharesKey overrun dict keys)
            (λ i f. (f.0, f.1, (exactly f.0 i).0 f.2)) (best.sound r h);
      complete = λ r h. best.complete r (
          IsHit-map (SharesKey overrun dict keys) (FoundByKeys index keys)
            (λ i f. (f.0, f.1, (exactly f.0 i).1 f.2)) h);
      returned = best.returned;
    }
