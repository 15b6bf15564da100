-- ===== src/Cache/Refine.antt =====
-- A cache implements the abstract LRU cache: the list of its pairs, the most recently used first.
use kwd_server.Base.{
  ℕ, ◌≡◌, ◌≢◌, refl, sym, ◌∙◌, ap, Bool, true, false, not, none, some, List, [], ◌∷◌, ◌++◌, ◌<◌,
  arith, All, Option-cases, inl, inr, Word, lookup, erase, if◌then◌else◌,
}
use kwd_server.Cache.{
  SearchRetPair, not_found, Cache, deref, erase_node, push_front, lru, search_lru, search_nonupdate,
  search_cache, insert_cache,
}
use kwd_server.Cache.Nodes.{
  erase_node-gone, erase_node-Distinct, All-erase_node, length-erase_node, deref-erase_node,
}
use kwd_server.Cache.Linked.{IsLinked, IsOpen, IsMapped, Keeps, push_front-IsOpen, evict-IsLinked}
use kwd_server.Cache.Pairs.{
  absent_of_apart, absent_of_unmapped, found-pairs, ideal_insert, ideal_search, lookup-pairs_absent,
  pairs, pairs-take,
}

-- What a call makes of a cache: a cache whose list is linked, and nothing else is touched.
pub record IsAfter (c d : Cache) (v : List SearchRetPair) : Type 0 where
  pub linked : IsLinked d
  pub keeps : Keeps c d
  pub view : pairs d.lru_list ≡ v

pub lru_new :
    (w : Word) (words : List Word) (c : Cache)
    → IsLinked c
    → lookup w c.updater_map ≡ none
    → (d : Cache) × (lru (w, words) none c ≡ some d)
      × IsAfter c d (ideal_insert c.cache_size (w, words) (pairs c.lru_list))
unfolding lru push_front
lru_new w words c k absent =
    let o =
      push_front-IsOpen w words c (λ v iter ne h. k.leads v iter h) k.mapped k.fresh k.distinct
        (absent_of_unmapped w c.updater_map c.lru_list absent k.mapped) in
    let (d, run, linked, taken, keeps) =
      evict-IsLinked (push_front w (w, words) c) o (omega arith) in
    (
      d,
      run,
      record {
        linked = linked;
        keeps = keeps;
        view =
            ap pairs taken
            ∙ pairs-take c.cache_size (record { id = c.next_id; pair = (w, words) } ∷ c.lru_list);
      },
    )

lru_found :
    (w : Word) (words : List Word) (iter : ℕ) (c : Cache)
    → IsLinked c
    → lookup w c.updater_map ≡ some iter
    → deref iter c.lru_list ≡ some (w, words)
    → (d : Cache) × (lru (w, words) (some iter) c ≡ some d)
      × IsAfter c d ((w, words) ∷ erase w (pairs c.lru_list))
unfolding lru push_front
lru_found w words iter c k there here = (
  push_front w (w, words) c',
  rw here,
  record {
    linked = record {
      leads = o.leads;
      mapped = o.mapped;
      fresh = o.fresh;
      distinct = o.distinct;
      bounded = omega (arith, length-erase_node iter c.lru_list (w, words) here);
    };
    keeps = refl;
    view =
        ap (◌∷◌ (w, words)) (
          sym (found-pairs w c.updater_map iter there c.lru_list words k.mapped k.distinct here).1);
  },
)
  where
    c' : Cache
    c' = record c { lru_list = erase_node iter c.lru_list }

    gone : All (λ n. n.id ≢ iter) (erase_node iter c.lru_list)
    gone = erase_node-gone iter c.lru_list k.distinct

    mapped : All (IsMapped c.updater_map) (erase_node iter c.lru_list)
    mapped = All-erase_node iter (IsMapped c.updater_map) c.lru_list k.mapped

    leads :
        (v : Word) (j : ℕ)
        → w ≢ v
        → lookup v c.updater_map ≡ some j
        → (found : List Word) × (deref j (erase_node iter c.lru_list) ≡ some (v, found))
    leads v j ne h =
        let (found, e) = k.leads v j h in
        let differ : j ≢ iter = λ same. ne (ground (arith, e, here, same)) in
        (found, deref-erase_node iter j c.lru_list differ ∙ e)

    o : IsOpen (push_front w (w, words) c')
    o =
        push_front-IsOpen w words c' leads mapped
          (All-erase_node iter (λ n. n.id < c.next_id) c.lru_list k.fresh)
          (erase_node-Distinct iter c.lru_list k.distinct)
          (absent_of_apart w c.updater_map iter there (erase_node iter c.lru_list) mapped gone)

set_reading-IsLinked : (b : Bool) (c : Cache) → IsLinked c → IsLinked (record c { is_reading = b })
set_reading-IsLinked b c k = record {
  leads = k.leads;
  mapped = k.mapped;
  fresh = k.fresh;
  distinct = k.distinct;
  bounded = k.bounded;
}

-- While no update runs, `SearchCache` has a result on a cache with right links; it returns what the
-- abstract cache returns, leaves the list that the abstract cache leaves, keeps the links and the
-- bound, and touches nothing else.
pub search_cache-refines :
    (w : Word) (c : Cache)
    → IsLinked c
    → c.update ≡ false
    → c.is_reading ≡ false
    → (d : Cache) × (answer : SearchRetPair) × (search_cache w c ≡ some (d, answer))
      × IsLinked d
      × Keeps c d
      × (◌≡◌ {A = List SearchRetPair × SearchRetPair}
          (pairs d.lru_list, answer)
          (ideal_search w (pairs c.lru_list)))
unfolding search_cache search_lru
search_cache-refines w c k idle quiet = elim (Option-cases (lookup w c.updater_map)) [
  | inl absent ↦ (
    record c { is_reading = false },
    not_found,
    branch ∙ (rw (absent, search_lru)),
    set_reading-IsLinked false c k,
    (λ j. record c { is_reading = sym quiet j }),
    rw (
      lookup-pairs_absent w c.lru_list
          (absent_of_unmapped w c.updater_map c.lru_list absent k.mapped),
      ideal_search,
    ),
  )
  | inr (iter, there) ↦
      let (words, here) = k.leads w iter there in
      let reading : Cache = record c { is_reading = true } in
      let (moved, run, p) =
        lru_found w words iter reading (set_reading-IsLinked true c k) there here in
      (
        record moved { is_reading = false },
        (w, words),
        branch ∙ (rw (there, search_lru, here, run)),
        set_reading-IsLinked false moved p.linked,
        ap {A = Cache} {B = Cache} (λ x. record x { is_reading = false }) p.keeps ∙ (λ j. record c {
          is_reading = sym quiet j;
          lru_list = moved.lru_list;
          updater_map = moved.updater_map;
          next_id = moved.next_id;
        }),
        rw
            (
              (found-pairs w c.updater_map iter there c.lru_list words k.mapped k.distinct here).0,
              ideal_search,
            )
            (ap (λ v. (v, (w, words))) p.view),
      )
]
  where
    branch : search_cache w c ≡ search_lru w c
    branch = ap (λ b. if not b then search_lru w c else search_nonupdate w c) idle

-- `InsertCache` of a word that the map does not have has a result on a cache with right links; it
-- leaves the list that the abstract cache leaves, never longer than the cache may be, keeps the
-- links, and records the pair for the next update unless this is the first cache.
pub insert_cache-refines :
    (is_first : Bool) (w : Word) (words : List Word) (c : Cache)
    → IsLinked c
    → lookup w c.updater_map ≡ none
    → (d : Cache) × (insert_cache is_first (w, words) c ≡ some d)
      × IsLinked d
      × (pairs d.lru_list ≡ ideal_insert c.cache_size (w, words) (pairs c.lru_list))
      × (d.new_search_list
          ≡ (if is_first then c.new_search_list else c.new_search_list ++ (w, words) ∷ []))
unfolding insert_cache
insert_cache-refines true w words c k absent =
    let (d, run, p) = lru_new w words c k absent in
    (d, rw run, p.linked, p.view, ap (λ x. x.new_search_list) p.keeps)
insert_cache-refines false w words c k absent =
    let (d, run, p) = lru_new w words c k absent in
    (
      record d { new_search_list = d.new_search_list ++ (w, words) ∷ [] },
      rw run,
      record {
        leads = p.linked.leads;
        mapped = p.linked.mapped;
        fresh = p.linked.fresh;
        distinct = p.linked.distinct;
        bounded = p.linked.bounded;
      },
      p.view,
      ap (λ x. x.new_search_list ++ (w, words) ∷ []) p.keeps,
    )
