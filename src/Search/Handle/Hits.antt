-- ===== src/Search/Handle/Hits.antt =====
-- The queue of the handlers holds the ranking of all hits at the collected positions.
use kwd_server.Base.{
  ℕ, ◌<◌, min, ◌≡◌, refl, sym, ap, ◌∙◌, subst, ◌⊎◌, inl, inr, true, false, Bool, Bool-cases, some,
  List, [], ◌∷◌, arith, length, take, get_elem?, get_elem?-lt, take_of_length-le, Word, lookup, In,
  All, All-map, All-both, ◌≢◌, Ends, ends, Ends-map,
}
use native.Mathlib.Decide.{dec_le}
use kwd_server.Search.Edit.{min_edit}
use kwd_server.Search.Edit.Metric.{min_edit_least}
use kwd_server.Search.Rank.{SearchResult}
use kwd_server.Search.Rank.Order.{IsRanked}
use kwd_server.Search.Rank.At.{
  At, results, OnceEach, push_at, results-push_at, push_at-IsRanked, push_at-OnceEach, All-push_at,
  In-of_push_at, In-push_at,
}
use kwd_server.Search.Handle.Sets.{Ascending}
use kwd_server.Search.Handle.{Index, rank_positions}

-- Every position of the inverted index is one of the dictionary.
abbrev pub IsIndexed : Index → Type 0
IsIndexed index =
    (key : Word) (positions : List ℕ)
    → lookup key index.refs ≡ some positions
    → (i : ℕ) → In i positions
    → i < length index.dict

-- The result is the dictionary word at its position, which is in `P`, with its count and its distance
-- from the word searched for, and is not too far away.
pub record IsHit (P : ℕ → Type 0) (index : Index) (too_far : ℕ → Bool) (word : Word) (h : At)
    : Type 0 where
  pub found : P h.0
  pub entry : get_elem? index.dict h.0 ≡ some (h.1.word, h.1.occur_times)
  pub distance : min_edit word h.1.word ≡ some h.1.min_edit_dis
  pub near : too_far h.1.min_edit_dis ≡ false

pub take-min {ℓ} : {A : Type ℓ} (n : ℕ) (xs : List A) → take (min n (length xs)) xs ≡ take n xs
take-min n xs = elim (dec_le n (length xs)) [
  | yes h ↦ ap (λ k. take k xs) (omega arith)
  | no h ↦
      let e : min n (length xs) ≡ length xs = omega arith in
      rw e (
        take_of_length-le (length xs) xs (omega arith) ∙ sym (take_of_length-le n xs (omega arith)))
]

map_left {ℓ κ μ} : {A : Type ℓ} {B : Type κ} {C : Type μ} → (A → B) → A ⊎ C → B ⊎ C
map_left f (inl a) = inl (f a)
map_left f (inr c) = inr c

-- No result that is there comes from one of the positions to come.
abbrev pub Fresh : List ℕ → List At → Type 0
Fresh positions old = All (λ i. All (λ k. k.0 ≢ i) old) positions

module _ (index : Index) (too_far : ℕ → Bool) (word : Word) where
  -- The queue is ranked, and holds what it held before and one hit for each of the positions that
  -- has one.
  pub record Ranked (positions : List ℕ) (old : List At) (que : List SearchResult) : Type 0 where
    pub hits : List At
    pub same : results hits ≡ que
    pub ranked : IsRanked (results hits)
    pub once : OnceEach hits
    pub sound : (h : At) → In h hits → IsHit (λ i. In i positions) index too_far word h ⊎ In h old
    pub hit : (h : At) → IsHit (λ i. In i positions) index too_far word h → In h hits
    pub kept : (h : At) → In h old → In h hits

  -- A hit at a later position is a hit.
  later :
      (i : ℕ) (rest : List ℕ) {h : At}
      → IsHit (λ k. In k rest) index too_far word h
      → IsHit (λ k. In k (i ∷ rest)) index too_far word h
  later i rest h = record {
    found = inr h.found;
    entry = h.entry;
    distance = h.distance;
    near = h.near;
  }

  module _ (i : ℕ) (rest : List ℕ) (r : SearchResult)
      (entry : get_elem? index.dict i ≡ some (r.word, r.occur_times))
      (distance : min_edit word r.word ≡ some r.min_edit_dis) where
    -- A hit is either the result at the first position, or at a later position.
    IsHit-cases :
        (s : At)
        → IsHit (λ k. In k (i ∷ rest)) index too_far word s
        → (s ≡ (i, r)) × (too_far r.min_edit_dis ≡ false)
          ⊎ IsHit (λ k. In k rest) index too_far word s
    IsHit-cases s h = go h.found
      where
        go :
            In s.0 (i ∷ rest)
            → (s ≡ (i, r)) × (too_far r.min_edit_dis ≡ false)
              ⊎ IsHit (λ k. In k rest) index too_far word s
        go (inl here) =
            let same_word : s.1.word ≡ r.word = ground (arith, h.entry, entry, here) in
            let same_count : s.1.occur_times ≡ r.occur_times =
              ground (arith, h.entry, entry, here) in
            let same_dis : s.1.min_edit_dis ≡ r.min_edit_dis =
              ground (arith, h.distance, distance, same_word) in
            inl (
              (λ j. (
                here j,
                record {
                  min_edit_dis = same_dis j;
                  occur_times = same_count j;
                  word = same_word j;
                },
              )),
              subst (λ d. too_far d ≡ false) same_dis h.near,
            )
        go (inr there) =
            inr (record { found = there; entry = h.entry; distance = h.distance; near = h.near })

    skip-Ranked :
        {old : List At} {que : List SearchResult}
        → too_far r.min_edit_dis ≡ true
        → Ranked rest old que
        → Ranked (i ∷ rest) old que
    skip-Ranked far p = record {
      hits = p.hits;
      same = p.same;
      ranked = p.ranked;
      once = p.once;
      sound = λ s h. map_left (λ g. later i rest g) (p.sound s h);
      hit = λ s h. elim (IsHit-cases s h) [ inl (e, near) ↦ absurd (cc) | inr g ↦ p.hit s g ];
      kept = p.kept;
    }

    push-Ranked :
        {old : List At} {que : List SearchResult}
        → too_far r.min_edit_dis ≡ false
        → Ranked rest (push_at (i, r) old) que
        → Ranked (i ∷ rest) old que
    push-Ranked {old} near p = record {
      hits = p.hits;
      same = p.same;
      ranked = p.ranked;
      once = p.once;
      sound = λ s h. elim (p.sound s h) [
        | inl g ↦ inl (later i rest g)
        | inr g ↦ map_left (λ e. first (sym e)) (In-of_push_at s (i, r) old g)
      ];
      hit = λ s h. elim (IsHit-cases s h) [
        | inl (e, _) ↦ p.kept s (In-push_at s (i, r) old (inl e))
        | inr g ↦ p.hit s g
      ];
      kept = λ s h. p.kept s (In-push_at s (i, r) old (inr h));
    }
      where
        first : {s : At} → (i, r) ≡ s → IsHit (λ k. In k (i ∷ rest)) index too_far word s
        first e =
            subst (IsHit _ index too_far word) e
              (record { found = inl refl; entry = entry; distance = distance; near = near })

  push_at-Fresh :
      (h : At) (positions : List ℕ) (old : List At)
      → All (λ j. h.0 < j) positions
      → Fresh positions old
      → Fresh positions (push_at h old)
  push_at-Fresh h positions old above new =
      All-map (λ i. (h.0 < i) × All (λ k. k.0 ≢ i) old) (λ i. All (λ k. k.0 ≢ i) (push_at h old))
        positions (λ i g. All-push_at (λ k. k.0 ≢ i) h old (omega (arith, g.0)) g.1)
        (All-both (λ i. h.0 < i) (λ i. All (λ k. k.0 ≢ i) old) positions above new)

  pub rank_positions-Ranked :
      (positions : List ℕ) (old : List At)
      → ((i : ℕ) → In i positions → i < length index.dict)
      → Ascending positions
      → Fresh positions old
      → OnceEach old
      → IsRanked (results old)
      → Ends (Ranked positions old) (rank_positions index too_far word positions (results old))
  unfolding rank_positions
  rank_positions-Ranked [] old valid ascending fresh once ranked = ends (results old) (record {
    hits = old;
    same = refl;
    ranked = ranked;
    once = once;
    sound = λ r h. inr h;
    hit = λ r h. absurd h.found;
    kept = λ r h. h;
  })
  rank_positions-Ranked (i ∷ rest) old valid ascending fresh once ranked =
      let ((w, cnt), entry) = get_elem?-lt index.dict i (valid i (inl refl)) in
      let (d, distance, _, _) = min_edit_least word w in
      let r : SearchResult = record { min_edit_dis = d; occur_times = cnt; word = w } in
      rw (entry, distance)
        (elim (Bool-cases (too_far d)) [
          | inl far ↦ rw far (
              Ends-map
                (rank_positions-Ranked rest old (λ k h. valid k (inr h)) ascending.1 fresh.1 once
                  ranked)
                (λ que p. skip-Ranked i rest r entry distance far p))
          | inr near ↦ rw near (
              subst (λ q. Ends (Ranked (i ∷ rest) old) (rank_positions index too_far word rest q))
                (results-push_at (i, r) old)
                (Ends-map
                  (rank_positions-Ranked rest (push_at (i, r) old) (λ k h. valid k (inr h))
                    ascending.1 (push_at-Fresh (i, r) rest old ascending.0 fresh.1)
                    (push_at-OnceEach (i, r) old fresh.0 once) (push_at-IsRanked (i, r) old ranked))
                  (λ que p. push-Ranked i rest r entry distance near p)))
        ])
