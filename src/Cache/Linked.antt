-- ===== src/Cache/Linked.antt =====
-- The list and the map of a cache point at each other, and stay so.
use kwd_server.Base.{
  ℕ, suc, ◌≤◌, ◌<◌, ◌≡◌, ◌≢◌, refl, sym, ◌∙◌, ap, subst, ◌⊎◌, true, false, none, some, List, [],
  ◌∷◌, length, take, take_of_length-le, arith, All, All-map, All-both, Bool-cases, inl, inr, Word,
  word_eq, word_eq_iff, lookup, erase, lookup-assign, lookup-erase, if◌then◌else◌, ltb,
}
use kwd_server.Cache.Nodes.{Distinct, IsPopped, pop_back-IsPopped, deref-All}
use mathlib.Core.Option.{some-injective}
use kwd_server.Cache.{Node, Cache, deref, push_front, evict}

-- What the map and the list of a cache have to do with each other: the entries of the map lead to
-- nodes with their words, every node is the one that the map has for its word, and the list is not
-- longer than the cache.
pub record IsLinked (c : Cache) : Type 0 where
  pub leads :
      (w : Word) (iter : ℕ)
      → lookup w c.updater_map ≡ some iter
      → (words : List Word) × (deref iter c.lru_list ≡ some (w, words))
  pub mapped : All (λ n. lookup n.pair.0 c.updater_map ≡ some n.id) c.lru_list
  pub fresh : All (λ n. n.id < c.next_id) c.lru_list
  pub distinct : Distinct c.lru_list
  pub bounded : length c.lru_list ≤ c.cache_size

abbrev pub IsMapped : List (Word × ℕ) → Node → Type 0
IsMapped m n = lookup n.pair.0 m ≡ some n.id

-- A new node in front, under the word of its pair, keeps everything but the bound, as long as no
-- other node has that word.
pub record IsOpen (c : Cache) : Type 0 where
  pub leads :
      (w : Word) (iter : ℕ)
      → lookup w c.updater_map ≡ some iter
      → (words : List Word) × (deref iter c.lru_list ≡ some (w, words))
  pub mapped : All (IsMapped c.updater_map) c.lru_list
  pub fresh : All (λ n. n.id < c.next_id) c.lru_list
  pub distinct : Distinct c.lru_list

pub push_front-IsOpen :
    (w : Word) (words : List Word) (c : Cache)
    → ((v : Word) (iter : ℕ)
        → w ≢ v
        → lookup v c.updater_map ≡ some iter
        → (words : List Word) × (deref iter c.lru_list ≡ some (v, words)))
    → All (IsMapped c.updater_map) c.lru_list
    → All (λ n. n.id < c.next_id) c.lru_list
    → Distinct c.lru_list
    → All (λ n. n.pair.0 ≢ w) c.lru_list
    → IsOpen (push_front w (w, words) c)
unfolding push_front
push_front-IsOpen w words c leads mapped fresh distinct others = record {
  leads = λ v iter h. lead v iter (Bool-cases (word_eq w v)) (sym (lookup-assign w v _ _) ∙ h);
  mapped = (
    rw (lookup-assign, (word_eq_iff w w).1 refl) refl,
    All-map (λ n. IsMapped c.updater_map n × (n.pair.0 ≢ w)) _ c.lru_list
        (λ n h. rw lookup-assign (mapped_behind n h.0 h.1))
        (All-both (IsMapped c.updater_map) (λ n. n.pair.0 ≢ w) c.lru_list mapped others),
  );
  fresh = (omega arith, All-map _ _ c.lru_list (λ n h. omega arith) fresh);
  distinct = (All-map _ _ c.lru_list (λ n h. omega arith) fresh, distinct);
}
  where
    lead :
        (v : Word) (iter : ℕ)
        → (word_eq w v ≡ true) ⊎ (word_eq w v ≡ false)
        → (if word_eq w v then some c.next_id else lookup v c.updater_map) ≡ some iter
        → (found : List Word) × (deref iter
              (record { id = c.next_id; pair = (w, words) } ∷ c.lru_list)
            ≡ some (v, found))
    lead v iter (inl same) h =
        let e : w ≡ v = (word_eq_iff w v).0 same in
        let at : c.next_id ≡ iter = ground (arith, same, h) in
        (words, unfold deref in ground (arith, e, at))
    lead v iter (inr other) h =
        let before : lookup v c.updater_map ≡ some iter = rw other at h in
        let differ : w ≢ v = λ e. cc (other, (word_eq_iff w v).1 e) in
        let (found, e) = leads v iter differ before in
        let old : iter < c.next_id =
          deref-All (λ n. n.id < c.next_id) iter c.lru_list (v, found) e fresh in
        (found, unfold deref in ground (arith, e, old))

    mapped_behind :
        (n : Node)
        → IsMapped c.updater_map n
        → n.pair.0 ≢ w
        → (if word_eq w n.pair.0 then some c.next_id else lookup n.pair.0 c.updater_map) ≡ some n.id
    mapped_behind n h ne = elim (Bool-cases (word_eq w n.pair.0)) [
      | inl same ↦ absurd (ne (sym ((word_eq_iff w n.pair.0).0 same)))
      | inr other ↦ rw other h
    ]

-- Nothing but the list, the map and the count of nodes differs.
abbrev pub Keeps : Cache → Cache → Type 0
Keeps c d = d ≡ record c { lru_list = d.lru_list; updater_map = d.updater_map; next_id = d.next_id }

pub Keeps-trans : (c d e : Cache) → Keeps c d → Keeps d e → Keeps c e
Keeps-trans c d e h k =
    k
    ∙ ap {A = Cache} {B = Cache}
        (λ x. record x { lru_list = e.lru_list; updater_map = e.updater_map; next_id = e.next_id })
        h

evict_last :
    (c : Cache) (last : Node) (front : List Node)
    → IsOpen c
    → length c.lru_list ≡ suc c.cache_size
    → IsPopped c.lru_list last front
    → IsLinked (record c { lru_list = front; updater_map = erase last.pair.0 c.updater_map })
evict_last c last front o full p = record {
  leads = leads;
  mapped =
      All-map (λ n. IsMapped c.updater_map n × (n.id ≢ last.id)) _ front
        (λ n h. rw lookup-erase (mapped_in_front n h.0 h.1))
        (All-both _ _ front mapped_parts.1 (p.apart o.distinct).1);
  fresh = (p.all (λ n. n.id < c.next_id) o.fresh).1;
  distinct = (p.apart o.distinct).0;
  bounded = omega (arith, p.taken);
}
  where
    mapped_parts : IsMapped c.updater_map last × All (IsMapped c.updater_map) front
    mapped_parts = p.all (IsMapped c.updater_map) o.mapped

    mapped_in_front :
        (n : Node)
        → IsMapped c.updater_map n
        → n.id ≢ last.id
        → (if word_eq last.pair.0 n.pair.0 then none else lookup n.pair.0 c.updater_map) ≡ some n.id
    mapped_in_front n h ne = elim (Bool-cases (word_eq last.pair.0 n.pair.0)) [
      | inl same ↦
          let e : last.pair.0 ≡ n.pair.0 = (word_eq_iff last.pair.0 n.pair.0).0 same in
          absurd (
            ne (
              some-injective _ _
                (sym h ∙ ap (λ w. lookup w c.updater_map) (sym e) ∙ mapped_parts.0)))
      | inr other ↦ rw other h
    ]

    leads :
        (w : Word) (iter : ℕ)
        → lookup w (erase last.pair.0 c.updater_map) ≡ some iter
        → (words : List Word) × (deref iter front ≡ some (w, words))
    leads w iter h = elim (Bool-cases (word_eq last.pair.0 w)) [
      | inl same ↦ absurd (ground (arith, lookup-erase last.pair.0 w c.updater_map))
      | inr other ↦
          let before : lookup w c.updater_map ≡ some iter =
            ground (arith, lookup-erase last.pair.0 w c.updater_map) in
          let (words, e) = o.leads w iter before in
          let (_, e') = o.leads last.pair.0 last.id mapped_parts.0 in
          let differ : iter ≢ last.id = λ same.
            let keys : last.pair.0 ≡ w = ground (arith, e, e', same) in
            cc (other, (word_eq_iff last.pair.0 w).1 keys) in
          (words, p.found iter differ ∙ e)
    ]

nonempty : (l : List Node) → 0 < length l → (n : Node) × (rest : List Node) × (l ≡ n ∷ rest)
nonempty [] h = absurd (omega arith)
nonempty (n ∷ l) h = (n, l, refl)

-- The eviction leaves the front of the list, as much as the cache may hold, and all links right.
pub evict-IsLinked :
    (c : Cache)
    → IsOpen c
    → length c.lru_list ≤ suc c.cache_size
    → (d : Cache) × (evict c ≡ some d)
      × IsLinked d
      × (d.lru_list ≡ take c.cache_size c.lru_list)
      × Keeps c d
unfolding evict
evict-IsLinked c o h = elim (Bool-cases (ltb c.cache_size (length c.lru_list))) [
  | inl over ↦
      let (n, l, shape) = nonempty c.lru_list (ground arith) in
      let (last, front, popped) = pop_back-IsPopped n l in
      let p : IsPopped c.lru_list last front =
        subst (λ x. IsPopped x last front) (sym shape) popped in
      let full : length c.lru_list ≡ suc c.cache_size = ground arith in
      let key = (p.all (IsMapped c.updater_map) o.mapped).0 in
      (
        record c { lru_list = front; updater_map = erase last.pair.0 c.updater_map },
        rw (over, p.popped) (rw key),
        evict_last c last front o full p,
        p.prefix c.cache_size (sym full),
        refl,
      )
  | inr fits ↦ (
    c,
    rw fits,
    record {
      leads = o.leads;
      mapped = o.mapped;
      fresh = o.fresh;
      distinct = o.distinct;
      bounded = ground arith;
    },
    sym (take_of_length-le c.cache_size c.lru_list (ground arith)),
    refl,
  )
]
