-- ===== src/Cache/Update/Copy.antt =====
-- What `ReadFromFirstCache` makes of a cache: the pairs of the first cache, rightly linked.
use kwd_server.Base.{
  ℕ, suc, ◌+◌, ◌≤◌, ◌<◌, ◌≡◌, ◌≢◌, refl, sym, ◌∙◌, ap, subst, ◌⊎◌, true, false, some, List, [], ◌∷◌,
  length, arith, All, All-map, All-both, Bool-cases, inl, inr, Word, word_eq, word_eq_iff,
  word_eq_ne, lookup, assign, lookup-assign, if◌then◌else◌,
}
use mathlib.Core.Option.{some-injective}
use kwd_server.Cache.{SearchRetPair, Node, Cache, deref}
use kwd_server.Cache.Nodes.{Distinct, deref-All}
use kwd_server.Cache.Linked.{IsLinked, IsMapped}
use kwd_server.Cache.Pairs.{pairs}
use kwd_server.Cache.Update.{copy_nodes, index_nodes, read_from_first, note_pairs, refresh}

-- No two nodes have the same word.
abbrev DistinctWords : List Node → Type 0
DistinctWords [] = Unit
DistinctWords (n ∷ rest) = All (λ m. m.pair.0 ≢ n.pair.0) rest × DistinctWords rest

DistinctWords-of_mapped :
    (m : List (Word × ℕ)) (l : List Node) → All (IsMapped m) l → Distinct l → DistinctWords l
DistinctWords-of_mapped m [] h d = tt
DistinctWords-of_mapped m (n ∷ l) h d = (
  All-map (λ k. IsMapped m k × (k.id ≢ n.id)) (λ k. k.pair.0 ≢ n.pair.0) l
      (λ k g e. g.1 (some-injective _ _ (sym g.0 ∙ ap (λ v. lookup v m) e ∙ h.0)))
      (All-both (IsMapped m) (λ k. k.id ≢ n.id) l h.1 d.0),
  DistinctWords-of_mapped m l h.1 d.1,
)

module _ (P : Word → Type 0) where
  copy_nodes-words :
      (i : ℕ) (l : List Node) → All (λ n. P n.pair.0) l → All (λ n. P n.pair.0) (copy_nodes i l)
  unfolding copy_nodes
  copy_nodes-words i [] h = tt
  copy_nodes-words i (n ∷ l) h = (h.0, copy_nodes-words (suc i) l h.1)

pub pairs-copy_nodes : (i : ℕ) (l : List Node) → pairs (copy_nodes i l) ≡ pairs l
unfolding copy_nodes
pairs-copy_nodes i [] = refl
pairs-copy_nodes i (n ∷ l) = ap (◌∷◌ n.pair) (pairs-copy_nodes (suc i) l)

length-copy_nodes : (i : ℕ) (l : List Node) → length (copy_nodes i l) ≡ length l
unfolding copy_nodes
length-copy_nodes i [] = refl
length-copy_nodes i (n ∷ l) = ap suc (length-copy_nodes (suc i) l)

copy_nodes-DistinctWords :
    (i : ℕ) (l : List Node) → DistinctWords l → DistinctWords (copy_nodes i l)
unfolding copy_nodes
copy_nodes-DistinctWords i [] d = tt
copy_nodes-DistinctWords i (n ∷ l) d =
    (copy_nodes-words (λ w. w ≢ n.pair.0) (suc i) l d.0, copy_nodes-DistinctWords (suc i) l d.1)

copy_nodes-range :
    (i : ℕ) (l : List Node) → All (λ n. (i ≤ n.id) × (n.id < i + length l)) (copy_nodes i l)
unfolding copy_nodes
copy_nodes-range i [] = tt
copy_nodes-range i (n ∷ l) = (
  omega arith,
  All-map _ _ (copy_nodes (suc i) l) (λ m h. omega arith) (copy_nodes-range (suc i) l),
)

copy_nodes-Distinct : (i : ℕ) (l : List Node) → Distinct (copy_nodes i l)
unfolding copy_nodes
copy_nodes-Distinct i [] = tt
copy_nodes-Distinct i (n ∷ l) = (
  All-map _ _ (copy_nodes (suc i) l) (λ m h. omega arith) (copy_nodes-range (suc i) l),
  copy_nodes-Distinct (suc i) l,
)

-- The map that is built from a list.
index_nodes-absent :
    (w : Word) (l : List Node) (m : List (Word × ℕ))
    → All (λ n. n.pair.0 ≢ w) l
    → lookup w (index_nodes l m) ≡ lookup w m
unfolding index_nodes
index_nodes-absent w [] m h = refl
index_nodes-absent w (n ∷ l) m h =
    index_nodes-absent w l (assign n.pair.0 n.id m) h.1
    ∙ lookup-assign n.pair.0 w n.id m
    ∙ (rw (word_eq_ne n.pair.0 w h.0))

index_nodes-IsMapped :
    (l : List Node) (m : List (Word × ℕ)) → DistinctWords l → All (IsMapped (index_nodes l m)) l
unfolding index_nodes
index_nodes-IsMapped [] m d = tt
index_nodes-IsMapped (n ∷ l) m d = (
  index_nodes-absent n.pair.0 l (assign n.pair.0 n.id m) d.0
      ∙ lookup-assign n.pair.0 n.pair.0 n.id m
      ∙ (rw ((word_eq_iff n.pair.0 n.pair.0).1 refl)),
  index_nodes-IsMapped l (assign n.pair.0 n.id m) d.1,
)

-- An entry comes from a node of the list, or was there before.
index_nodes-leads :
    (l : List Node) (m : List (Word × ℕ)) (w : Word) (iter : ℕ)
    → Distinct l
    → lookup w (index_nodes l m) ≡ some iter
    → ((words : List Word) × (deref iter l ≡ some (w, words))) ⊎ (lookup w m ≡ some iter)
unfolding index_nodes deref
index_nodes-leads [] m w iter d h = inr h
index_nodes-leads (n ∷ l) m w iter d h =
    elim (index_nodes-leads l (assign n.pair.0 n.id m) w iter d.1 h) [
      | inl (words, e) ↦
          let apart : iter ≢ n.id = deref-All (λ k. k.id ≢ n.id) iter l (w, words) e d.0 in
          inl (words, ground arith)
      | inr e ↦ assigned (Bool-cases (word_eq n.pair.0 w)) (sym (lookup-assign _ w _ m) ∙ e)
    ]
  where
    assigned :
        (word_eq n.pair.0 w ≡ true) ⊎ (word_eq n.pair.0 w ≡ false)
        → (if word_eq n.pair.0 w then some n.id else lookup w m) ≡ some iter
        → ((words : List Word) × (deref iter (n ∷ l) ≡ some (w, words))) ⊎ (lookup w m ≡ some iter)
    assigned (inl same) e =
        let key : n.pair.0 ≡ w = (word_eq_iff n.pair.0 w).0 same in
        let at : n.id ≡ iter = ground arith in inl (n.pair.1, ground arith)
    assigned (inr other) e = inr (rw other at e)

-- A cache that is as large as the first one takes over its list, with links of its own.
pub read_from_first-IsLinked :
    (m c : Cache) → IsLinked m → c.cache_size ≡ m.cache_size → IsLinked (read_from_first m c)
unfolding read_from_first
read_from_first-IsLinked m c k same = record {
  leads = λ w iter h.
      elim (index_nodes-leads copied [] w iter (copy_nodes-Distinct c.next_id m.lru_list) h) [
        | inl found ↦ found
        | inr e ↦ absurd (unfold lookup in ground arith)
      ];
  mapped = index_nodes-IsMapped copied [] (
      copy_nodes-DistinctWords c.next_id m.lru_list
        (DistinctWords-of_mapped m.updater_map m.lru_list k.mapped k.distinct));
  fresh = All-map _ _ copied (λ n h. omega arith) (copy_nodes-range c.next_id m.lru_list);
  distinct = copy_nodes-Distinct c.next_id m.lru_list;
  bounded = omega (arith, length-copy_nodes c.next_id m.lru_list, k.bounded);
}
  where
    copied : List Node
    copied = copy_nodes c.next_id m.lru_list

note_pairs-absent :
    (w : Word) (l : List Node) (m : List SearchRetPair)
    → All (λ n. n.pair.0 ≢ w) l
    → lookup w (note_pairs l m) ≡ lookup w m
unfolding note_pairs
note_pairs-absent w [] m h = refl
note_pairs-absent w (n ∷ l) m h =
    note_pairs-absent w l (assign n.pair.0 n.pair.1 m) h.1
    ∙ lookup-assign n.pair.0 w n.pair.1 m
    ∙ (rw (word_eq_ne n.pair.0 w h.0))

note_pairs-lookup :
    (l : List Node) (m : List SearchRetPair) (w : Word) (words : List Word)
    → DistinctWords l
    → lookup w (pairs l) ≡ some words
    → lookup w (note_pairs l m) ≡ some words
unfolding note_pairs lookup
note_pairs-lookup [] m w words d h = cc
note_pairs-lookup (n ∷ l) m w words d h = elim (Bool-cases (word_eq n.pair.0 w)) [
  | inl same ↦
      let key : n.pair.0 ≡ w = (word_eq_iff n.pair.0 w).0 same in
      let value : some n.pair.1 ≡ some words = ground arith in
      let behind : All (λ k. k.pair.0 ≢ w) l = subst (λ v. All (λ k. k.pair.0 ≢ v) l) key d.0 in
      note_pairs-absent w l (assign n.pair.0 n.pair.1 m) behind
      ∙ lookup-assign n.pair.0 w n.pair.1 m
      ∙ (rw same value)
  | inr other ↦ note_pairs-lookup l (assign n.pair.0 n.pair.1 m) w words d.1 (rw other at h)
]

-- What is in the list of a cache is found in its second map, too.
pub refresh-lookup :
    (c : Cache) (w : Word) (words : List Word)
    → IsLinked c
    → lookup w (pairs c.lru_list) ≡ some words
    → lookup w (refresh c).nonupdate ≡ some words
unfolding refresh
refresh-lookup c w words k =
    note_pairs-lookup c.lru_list c.nonupdate w words
      (DistinctWords-of_mapped c.updater_map c.lru_list k.mapped k.distinct)
