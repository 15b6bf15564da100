-- ===== src/Search/Handle/Best.antt =====
-- What the handlers return: the first words of the ranking of all hits.
use kwd_server.Base.{
  ℕ, ◌<◌, min, ◌≡◌, refl, sym, ap, ◌∙◌, subst, Option-cases, ◌⊎◌, inl, inr, ◌↔◌, Bool, Option, none,
  some, List, [], ◌∷◌, map, arith, length, take, Word, lookup, In, Ends-result,
}
use kwd_server.Search.Rank.At.{At, results, OnceEach, map-take}
use kwd_server.Search.Rank.Order.{IsRanked, pop_words-eq-take}
use kwd_server.Search.Handle.{
  Index, char_key, collect_eng, too_far_eng, too_far_ch, best_words, handle_eng, handle_ch, keys_ch,
  collect_ch, rank_positions,
}
use kwd_server.Search.Handle.Hits.{IsIndexed, Fresh, IsHit, take-min, rank_positions-Ranked}
use kwd_server.Search.Handle.Sets.{
  insert_all, Ascending, insert_all-Ascending, In-insert_all, In-of_insert_all,
}

-- The results in `hits`, each with the position of the dictionary that it comes from, are ranked, are
-- exactly the hits at the positions in `P`, one for each such position, and the words of the first
-- `limit` of them are returned beside the word searched for.
pub record IsBest (P : ℕ → Type 0) (index : Index) (too_far : ℕ → Bool) (word : Word)
    (answer : Option (Word × List Word)) : Type 0 where
  pub hits : List At
  pub ranked : IsRanked (results hits)
  pub once : OnceEach hits
  pub sound : (h : At) → In h hits → IsHit P index too_far word h
  pub complete : (h : At) → IsHit P index too_far word h → In h hits
  pub returned : answer ≡ some (word, map (λ h. h.1.word) (take index.limit hits))

pub IsHit-map :
    (P Q : ℕ → Type 0) {index : Index} {too_far : ℕ → Bool} {word : Word} {h : At}
    → ((i : ℕ) → P i → Q i)
    → IsHit P index too_far word h
    → IsHit Q index too_far word h
IsHit-map P Q {h = h} f k = record {
  found = f h.0 k.found;
  entry = k.entry;
  distance = k.distance;
  near = k.near;
}

no_old : (positions : List ℕ) → Fresh positions []
no_old [] = tt
no_old (i ∷ positions) = (tt, no_old positions)

best_words-IsBest :
    (P : ℕ → Type 0) (index : Index) (too_far : ℕ → Bool) (word : Word) (positions : List ℕ)
    → ((i : ℕ) → In i positions → i < length index.dict)
    → Ascending positions
    → ((i : ℕ) → In i positions ↔ P i)
    → IsBest P index too_far word (best_words index too_far word positions)
unfolding best_words
best_words-IsBest P index too_far word positions valid ascending exactly =
    let (que, run, p) = Ends-result (
      rank_positions-Ranked index too_far word positions [] valid ascending (no_old positions) tt
        tt) in
    let run' : rank_positions index too_far word positions [] ≡ some (results p.hits) =
      run ∙ ap some (sym p.same) in
    let size = min index.limit (length (results p.hits)) in
    record {
      hits = p.hits;
      ranked = p.ranked;
      once = p.once;
      sound = λ r h. elim (p.sound r h) [
        | inl g ↦ IsHit-map _ P (λ i. (exactly i).0) g
        | inr g ↦ absurd g
      ];
      complete = λ r h. p.hit r (IsHit-map P _ (λ i. (exactly i).1) h);
      returned = rw (
        run',
        pop_words-eq-take size (results p.hits) (omega arith),
        take-min,
        map-take index.limit p.hits,
      );
    }

-- A position is found by a key if the index lists it there.
abbrev pub FoundBy : Index → Word → ℕ → Type 0
FoundBy index key i =
    (positions : List ℕ) × (lookup key index.refs ≡ some positions) × In i positions

-- One round of the first loop of the handlers.
abbrev collected : Option (List ℕ) → List ℕ → List ℕ
collected o s = elim o [ none ↦ s | some positions ↦ insert_all positions s ]

In-collected :
    (index : Index) (key : Word) (i : ℕ) (s : List ℕ)
    → In i (collected (lookup key index.refs) s) ↔ (FoundBy index key i ⊎ In i s)
In-collected index key i s = go (lookup key index.refs) refl
  where
    go :
        (o : Option (List ℕ))
        → lookup key index.refs ≡ o
        → In i (collected o s) ↔ (FoundBy index key i ⊎ In i s)
    go none e = ((λ h. inr h), elim [ inl h ↦ absurd (cc (e, h.1)) | inr h ↦ h ])
    go (some positions) e = (
      (λ h. elim (In-of_insert_all i positions s h) [
        | inl g ↦ inl (positions, e, g)
        | inr g ↦ inr g
      ]),
      elim [
        | inl h ↦
            let same : h.0 ≡ positions = ground (arith, h.1) in
            In-insert_all i positions s (inl (subst (In i) same h.2))
        | inr h ↦ In-insert_all i positions s (inr h)
      ],
    )

-- A position is found by a word's keys if it is found by one of them.
abbrev pub FoundByKeys : Index → List Word → ℕ → Type 0
FoundByKeys index keys i = (key : Word) × In key keys × FoundBy index key i

map_found : {A B C : Type 0} → (A → B) → A ⊎ C → B ⊎ C
map_found f (inl a) = inl (f a)
map_found f (inr c) = inr c

In-collect_ch :
    (index : Index) (keys : List Word) (i : ℕ) (s : List ℕ)
    → In i (collect_ch index keys s) ↔ (FoundByKeys index keys i ⊎ In i s)
unfolding collect_ch
In-collect_ch index [] i s = ((λ h. inr h), elim [ inl h ↦ absurd h.1 | inr h ↦ h ])
In-collect_ch index (key ∷ keys) i s =
    let here = collected (lookup key index.refs) s in
    let rest = In-collect_ch index keys i here in
    let round = In-collected index key i s in
    (
      (λ h. elim (rest.0 h) [
        | inl f ↦ inl (f.0, inr f.1, f.2)
        | inr g ↦ map_found (λ f. (key, inl refl, f)) (round.0 g)
      ]),
      (λ h. rest.1 (elim h [
        | inl (k, inl e, f) ↦ inr (round.1 (inl (subst (λ q. FoundBy index q i) e f)))
        | inl (k, inr g, f) ↦ inl (k, g, f)
        | inr g ↦ inr (round.1 (inr g))
      ])),
    )

collect_ch-Ascending :
    (index : Index) (keys : List Word) (s : List ℕ)
    → Ascending s
    → Ascending (collect_ch index keys s)
unfolding collect_ch
collect_ch-Ascending index [] s h = h
collect_ch-Ascending index (key ∷ keys) s h = elim (Option-cases (lookup key index.refs)) [
  | inl absent ↦ rw absent (collect_ch-Ascending index keys s h)
  | inr (positions, there) ↦ rw there (
      collect_ch-Ascending index keys (insert_all positions s) (insert_all-Ascending positions s h))
]

collect_eng-eq-collect_ch :
    (index : Index) (word : Word) (s : List ℕ)
    → collect_eng index word s ≡ collect_ch index (map char_key word) s
unfolding collect_eng collect_ch
collect_eng-eq-collect_ch index [] s = refl
collect_eng-eq-collect_ch index (c ∷ word) s =
    collect_eng-eq-collect_ch index word (collected (lookup (char_key c) index.refs) s)

IsBest-of_keys :
    (index : Index) (too_far : ℕ → Bool) (word : Word) (keys : List Word)
    → IsIndexed index
    → IsBest
        (FoundByKeys index keys)
        index
        too_far
        word
        (best_words index too_far word (collect_ch index keys []))
IsBest-of_keys index too_far word keys indexed =
    best_words-IsBest (FoundByKeys index keys) index too_far word _
      (λ i h. let f = (exactly i).0 h in indexed f.0 f.2.0 f.2.1 i f.2.2)
      (collect_ch-Ascending index keys [] tt) exactly
  where
    exactly : (i : ℕ) → In i (collect_ch index keys []) ↔ FoundByKeys index keys i
    exactly i =
        let e = In-collect_ch index keys i [] in
        ((λ h. elim (e.0 h) [ inl f ↦ f | inr g ↦ absurd g ]), λ f. e.1 (inl f))

-- `HandleENG` returns a result whenever the index lists positions of the dictionary only: the word
-- itself, and the words of the first `limit` entries of the ranking of the hits. The hits are
-- exactly the dictionary words that share a byte with the word by the index and are at edit
-- distance 3 at most, one for each position of the dictionary.
pub handle_eng-IsBest :
    (index : Index) (word : Word)
    → IsIndexed index
    → IsBest (FoundByKeys index (map char_key word)) index too_far_eng word (handle_eng index word)
unfolding handle_eng
handle_eng-IsBest index word indexed =
    rw (collect_eng-eq-collect_ch index word [])
      (IsBest-of_keys index too_far_eng word (map char_key word) indexed)

-- The same of `HandleCH`, whatever is read behind its unterminated keys: the hits are exactly the
-- dictionary words that the index lists under one of the keys and whose distance divided by three
-- is 3 at most, one for each position of the dictionary.
pub handle_ch-IsBest :
    (overrun : List Word) (index : Index) (word : Word)
    → IsIndexed index
    → IsBest
        (FoundByKeys index (keys_ch word overrun))
        index
        too_far_ch
        word
        (handle_ch overrun index word)
unfolding handle_ch
handle_ch-IsBest overrun index word indexed =
    IsBest-of_keys index too_far_ch word (keys_ch word overrun) indexed
