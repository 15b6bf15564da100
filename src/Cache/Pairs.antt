-- ===== src/Cache/Pairs.antt =====
-- The list of pairs of a cache, as the abstract LRU cache has it, and the map.
use kwd_server.Base.{
  ℕ, zero, suc, ◌≡◌, ◌≢◌, refl, sym, ◌∙◌, ap, subst, true, false, none, some, List, [], ◌∷◌, map,
  take, arith, All, All-map, All-both, Bool-cases, Option-cases, inl, inr, Word, word_eq,
  word_eq_iff, lookup, erase, ==_iff, ◌==◌,
}
use mathlib.Core.Option.{some-injective}
use kwd_server.Cache.{SearchRetPair, not_found, Node, Cache, deref, erase_node}
use kwd_server.Cache.Nodes.{Distinct}
use kwd_server.Cache.Linked.{IsLinked, IsMapped}

abbrev pub pairs : List Node → List SearchRetPair
pairs = map (λ n. n.pair)

-- The abstract cache: a search moves what it finds to the front, and an insertion keeps as much as
-- the cache may hold.
abbrev pub ideal_search : Word → List SearchRetPair → List SearchRetPair × SearchRetPair
ideal_search w v = elim (lookup w v) [
  | none ↦ (v, not_found)
  | some words ↦ ((w, words) ∷ erase w v, (w, words))
]

abbrev pub ideal_insert : ℕ → SearchRetPair → List SearchRetPair → List SearchRetPair
ideal_insert size p v = take size (p ∷ v)

pub pairs-take : (k : ℕ) (l : List Node) → pairs (take k l) ≡ take k (pairs l)
pairs-take zero l = refl
pairs-take (suc k) [] = refl
pairs-take (suc k) (n ∷ l) = ap (◌∷◌ n.pair) (pairs-take k l)

module _ (w : Word) where
  pub lookup-absent : (v : List SearchRetPair) → All (λ p. p.0 ≢ w) v → lookup w v ≡ none
  unfolding lookup
  lookup-absent [] h = refl
  lookup-absent (p ∷ v) h = elim (Bool-cases (word_eq p.0 w)) [
    | inl same ↦ absurd (h.0 ((word_eq_iff p.0 w).0 same))
    | inr other ↦ rw other (lookup-absent v h.1)
  ]

  erase_absent : (l : List Node) → All (λ n. n.pair.0 ≢ w) l → erase w (pairs l) ≡ pairs l
  unfolding erase
  erase_absent [] h = refl
  erase_absent (n ∷ l) h = elim (Bool-cases (word_eq n.pair.0 w)) [
    | inl same ↦ absurd (h.0 ((word_eq_iff n.pair.0 w).0 same))
    | inr other ↦ rw other (ap (◌∷◌ n.pair) (erase_absent l h.1))
  ]

  module _ (m : List (Word × ℕ)) where
    -- A word that the map does not have has no node.
    pub absent_of_unmapped :
        (l : List Node) → lookup w m ≡ none → All (IsMapped m) l → All (λ n. n.pair.0 ≢ w) l
    absent_of_unmapped l none_there =
        All-map (IsMapped m) (λ n. n.pair.0 ≢ w) l
          (λ n h e. absurd (cc (h, none_there, ap (λ v. lookup v m) e)))

    module _ (iter : ℕ) (there : lookup w m ≡ some iter) where
      id_of_key : (n : Node) → IsMapped m n → n.pair.0 ≡ w → n.id ≡ iter
      id_of_key n h e = some-injective _ _ (sym h ∙ ap (λ v. lookup v m) e ∙ there)

      not_key : (n : Node) → IsMapped m n → (iter == n.id) ≡ false → word_eq n.pair.0 w ≡ false
      not_key n h other = elim (Bool-cases (word_eq n.pair.0 w)) [
        | inl same ↦
            let e = id_of_key n h ((word_eq_iff n.pair.0 w).0 same) in
            absurd (cc (other, (==_iff iter n.id).1 (sym e)))
        | inr differ ↦ differ
      ]

      pub absent_of_apart :
          (l : List Node)
          → All (IsMapped m) l
          → All (λ n. n.id ≢ iter) l
          → All (λ n. n.pair.0 ≢ w) l
      absent_of_apart l h k =
          All-map (λ n. IsMapped m n × (n.id ≢ iter)) (λ n. n.pair.0 ≢ w) l
            (λ n g e. g.1 (id_of_key n g.0 e)) (All-both _ _ l h k)

      -- The node that the map has for a word is the pair that the abstract cache finds and removes.
      pub found-pairs :
          (l : List Node) (words : List Word)
          → All (IsMapped m) l
          → Distinct l
          → deref iter l ≡ some (w, words)
          → (lookup w (pairs l) ≡ some words) × (erase w (pairs l) ≡ pairs (erase_node iter l))
      unfolding lookup erase deref erase_node
      found-pairs [] words h d e = cc
      found-pairs (n ∷ l) words h d e = elim (Bool-cases (iter == n.id)) [
        | inl here ↦
            let same : iter ≡ n.id = (==_iff iter n.id).0 here in
            let pair : n.pair ≡ (w, words) = ground arith in
            let key : word_eq n.pair.0 w ≡ true = (word_eq_iff n.pair.0 w).1 (ap (λ p. p.0) pair) in
            let behind : All (λ k. k.id ≢ iter) l =
              subst (λ i. All (λ k. k.id ≢ i) l) (sym same) d.0 in
            rw (key, here) (ap (λ p. some p.1) pair, erase_absent l (absent_of_apart l h.1 behind))
        | inr other ↦
            let differ : word_eq n.pair.0 w ≡ false = not_key n h.0 other in
            let rest = found-pairs l words h.1 d.1 (rw other at e) in
            rw (differ, other) (rest.0, ap (◌∷◌ n.pair) rest.1)
      ]

pub lookup-pairs_absent :
    (w : Word) (l : List Node) → All (λ n. n.pair.0 ≢ w) l → lookup w (pairs l) ≡ none
unfolding lookup
lookup-pairs_absent w [] h = refl
lookup-pairs_absent w (n ∷ l) h = elim (Bool-cases (word_eq n.pair.0 w)) [
  | inl same ↦ absurd (h.0 ((word_eq_iff n.pair.0 w).0 same))
  | inr other ↦ rw other (lookup-pairs_absent w l h.1)
]

-- The map of a linked cache has the words of its list.
pub lookup-unmapped :
    (w : Word) (c : Cache)
    → IsLinked c
    → lookup w c.updater_map ≡ none
    → lookup w (pairs c.lru_list) ≡ none
lookup-unmapped w c k absent =
    lookup-pairs_absent w c.lru_list (absent_of_unmapped w c.updater_map c.lru_list absent k.mapped)

pub lookup-mapped :
    (w : Word) (c : Cache) (iter : ℕ)
    → IsLinked c
    → lookup w c.updater_map ≡ some iter
    → (words : List Word) × (lookup w (pairs c.lru_list) ≡ some words)
lookup-mapped w c iter k there =
    let (words, here) = k.leads w iter there in
    (words, (found-pairs w c.updater_map iter there c.lru_list words k.mapped k.distinct here).0)

-- A word that no pair has is not in the map.
pub unmapped_of_absent :
    (w : Word) (c : Cache)
    → IsLinked c
    → lookup w (pairs c.lru_list) ≡ none
    → lookup w c.updater_map ≡ none
unmapped_of_absent w c k absent = elim (Option-cases (lookup w c.updater_map)) [
  | inl e ↦ e
  | inr (iter, there) ↦
      let (words, here) = k.leads w iter there in
      absurd (
        cc (
          absent,
          (found-pairs w c.updater_map iter there c.lru_list words k.mapped k.distinct here).0,
        ))
]
