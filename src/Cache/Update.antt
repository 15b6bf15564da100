-- ===== src/Cache/Update.antt =====
-- `Cache::UpdateCache`, `WriteToFirstCache` and `ReadFromFirstCache` (src/cache.cc): the timer merges
-- what the caches found since the last update into the first cache, and copies that to the others.
pub mod Merge
pub mod Copy
pub mod Agree
use kwd_server.Base.{
  ℕ, suc, ◌+◌, Bool, true, false, Option, none, some, List, [], ◌∷◌, map, length, if◌then◌else◌,
  ◌>>=◌, Word, lookup, assign,
}
use kwd_server.Cache.{SearchRetPair, Node, Cache, lru}

-- `cache_list`, never empty when an update runs: the first cache belongs to the timer's callback.
pub record Caches : Type 0 where
  pub first : Cache
  pub others : List Cache

-- `WriteToFirstCache`, over `new_search_list_`
unfoldable pub write_to_first : List SearchRetPair → Cache → Option Cache
write_to_first [] main_cache = some main_cache
write_to_first (new_pair ∷ rest) main_cache = do
  written ← elim (lookup new_pair.0 main_cache.updater_map) [
    | none ↦ lru new_pair none main_cache
    | some _ ↦ some main_cache
  ]
  write_to_first rest written

-- The loop that waits for each other cache, merges it into the first one and clears its list of new
-- pairs.
unfoldable pub merge_all : List Cache → Cache → Option (Cache × List Cache)
merge_all [] main_cache = some (main_cache, [])
merge_all (c ∷ rest) main_cache = if c.is_reading then none else (do
  written ← write_to_first c.new_search_list main_cache
  (merged, cleared) ← merge_all rest written
  some (merged, record c { new_search_list = [] } ∷ cleared))

-- `cache_LRU_list = main_cache->cache_LRU_list`: new nodes for the same pairs.
unfoldable pub copy_nodes : ℕ → List Node → List Node
copy_nodes next_id [] = []
copy_nodes next_id (n ∷ rest) =
    record { id = next_id; pair = n.pair } ∷ copy_nodes (suc next_id) rest

-- for (auto it = begin(); it != end(); ++it) cache_updater_map_[it->first] = it;
unfoldable pub index_nodes : List Node → List (Word × ℕ) → List (Word × ℕ)
index_nodes [] m = m
index_nodes (n ∷ rest) m = index_nodes rest (assign n.pair.0 n.id m)

-- `ReadFromFirstCache`
unfoldable pub read_from_first : Cache → Cache → Cache
read_from_first main_cache c = record c {
  lru_list = copy_nodes c.next_id main_cache.lru_list;
  updater_map = index_nodes (copy_nodes c.next_id main_cache.lru_list) [];
  next_id = c.next_id + length main_cache.lru_list;
}

-- for (word_pair : cache_LRU_list) cache_nonupdate_[word_pair.first] = word_pair.second;
unfoldable pub note_pairs : List Node → List SearchRetPair → List SearchRetPair
note_pairs [] m = m
note_pairs (n ∷ rest) m = note_pairs rest (assign n.pair.0 n.pair.1 m)

unfoldable pub refresh : Cache → Cache
refresh c = record c { nonupdate = note_pairs c.lru_list c.nonupdate }

-- `UpdateCache` of the first cache. Beside the caches it gives the pairs that are written to the
-- cache file, in the order of the hash map, which is not determined.
unfoldable pub update_cache : Caches → Option (Caches × List SearchRetPair)
update_cache s =
    let flagged = map (λ (c : Cache). record c { update = true }) s.others in
    if s.first.is_reading then none else (do
      (merged, cleared) ← merge_all flagged s.first
      let read = map (read_from_first merged) cleared
      let first' = refresh (record merged { update = false })
      some (record { first = first'; others = map refresh read }, first'.nonupdate))
