-- ===== src/Cache/Twice.antt =====
-- `InsertCache` (src/cache.cc) does not look whether the word is there already.
use kwd_server.Base.{
  ℕ, suc, ◌<◌, ◌≡◌, refl, sym, ◌∙◌, ap, subst, Bool, true, false, some, List, [], ◌∷◌, ◌++◌, length,
  arith, All, Word, word_eq_iff, lookup, lookup-assign, ltb,
}
use mathlib.Core.Option.{some-injective}
use kwd_server.Cache.{Cache, push_front, evict, lru, deref, insert_cache}
use kwd_server.Cache.Nodes.{deref-All}
use kwd_server.Cache.Linked.{IsLinked, IsMapped}

mapped_new :
    (w : Word) (words : List Word) (c : Cache)
    → lookup w (push_front w (w, words) c).updater_map ≡ some c.next_id
unfolding push_front
mapped_new w words c = lookup-assign w w c.next_id c.updater_map ∙ (rw ((word_eq_iff w w).1 refl))

-- A list that still has a node of a word, behind a new node of that word, is not linked.
not-IsLinked :
    (w : Word) (words : List Word) (c d : Cache) (iter : ℕ)
    → IsLinked c
    → lookup w c.updater_map ≡ some iter
    → d.updater_map ≡ (push_front w (w, words) c).updater_map
    → d.lru_list ≡ (push_front w (w, words) c).lru_list
    → ¬ IsLinked d
unfolding push_front
not-IsLinked w words c d iter k there same_map same_list l =
    let (old, here) = k.leads w iter there in
    let mapped : All (IsMapped d.updater_map) d.lru_list = l.mapped in
    let mapped' : All (IsMapped d.updater_map) c.lru_list =
      (subst (All (IsMapped d.updater_map)) same_list mapped).1 in
    let stale : lookup w d.updater_map ≡ some iter =
      deref-All (IsMapped d.updater_map) iter c.lru_list (w, old) here mapped' in
    let fresh : lookup w d.updater_map ≡ some c.next_id =
      ap (lookup w) same_map ∙ mapped_new w words c in
    let same : c.next_id ≡ iter = some-injective _ _ (sym fresh ∙ stale) in
    let below : iter < c.next_id =
      deref-All (λ n. n.id < c.next_id) iter c.lru_list (w, old) here k.fresh in
    omega arith

-- `InsertCache` of a word that is in the cache already, with room for one more pair, succeeds and
-- leaves a cache whose list and map no longer agree: its list is a new node with the pair in front of
-- the old list, which still has a node of the word, where the map led; and the map leads to the new
-- node.
pub insert_cache_twice :
    (is_first : Bool) (w : Word) (words : List Word) (c : Cache) (iter : ℕ)
    → IsLinked c
    → lookup w c.updater_map ≡ some iter
    → length c.lru_list < c.cache_size
    → (d : Cache) × (old : List Word) × (insert_cache is_first (w, words) c ≡ some d)
      × (d.lru_list ≡ record { id = c.next_id; pair = (w, words) } ∷ c.lru_list)
      × (deref iter c.lru_list ≡ some (w, old))
      × (lookup w d.updater_map ≡ some c.next_id)
      × ¬ IsLinked d
unfolding insert_cache lru push_front evict
insert_cache_twice true w words c iter k there room =
    let fits : ltb c.cache_size (suc (length c.lru_list)) ≡ false = ground arith in
    let d = push_front w (w, words) c in
    let (old, here) = k.leads w iter there in
    (
      d,
      old,
      rw fits,
      refl,
      here,
      mapped_new w words c,
      not-IsLinked w words c d iter k there refl refl,
    )
insert_cache_twice false w words c iter k there room =
    let fits : ltb c.cache_size (suc (length c.lru_list)) ≡ false = ground arith in
    let p = push_front w (w, words) c in
    let d : Cache = record p { new_search_list = p.new_search_list ++ (w, words) ∷ [] } in
    let (old, here) = k.leads w iter there in
    (
      d,
      old,
      rw fits,
      refl,
      here,
      mapped_new w words c,
      not-IsLinked w words c d iter k there refl refl,
    )
