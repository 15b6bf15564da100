-- ===== src/Cache.antt =====
-- `Cache` (src/cache.cc, include/cache.hpp): one LRU cache for each worker thread, and the periodic
-- update through the first of them. A call is a function from the state before it to the state after
-- it; it has no result if it uses an iterator of no element (an erased node, or `end()`), or if it
-- spins on `is_reading_`, which only another thread could reset.
pub mod Nodes
pub mod Linked
pub mod Pairs
pub mod Refine
pub mod Twice
pub mod Update
pub mod File
pub mod Saved
pub mod Kept
pub mod Race
use kwd_server.Base.{
  ℕ, suc, ◌+◌, Bool, true, false, not, Option, none, some, List, [], ◌∷◌, ◌++◌, map, length, ltb,
  ◌==◌, if◌then◌else◌, ◌>>=◌, Word, lookup, assign, erase,
}

abbrev pub SearchRetPair : Type 0
SearchRetPair = Word × List Word

-- An element of `list<SearchRetPair>`. Its identity is what an iterator keeps.
pub record Node : Type 0 where
  pub id : ℕ
  pub pair : SearchRetPair

-- `next_id` counts the nodes made so far. `MutexLock lock_for_update` and `cache_file_path_` have no
-- part in the calls as modelled.
pub record Cache : Type 0 where
  pub update : Bool
  pub is_reading : Bool
  pub cache_size : ℕ
  pub lru_list : List Node
  pub next_id : ℕ
  pub updater_map : List (Word × ℕ)
  pub nonupdate : List SearchRetPair
  pub new_search_list : List SearchRetPair

abbrev pub empty_cache : ℕ → Cache
empty_cache cache_size = record {
  update = false;
  is_reading = false;
  cache_size = cache_size;
  lru_list = [];
  next_id = 0;
  updater_map = [];
  nonupdate = [];
  new_search_list = [];
}

-- `*iter`
unfoldable pub deref : ℕ → List Node → Option SearchRetPair
deref iter [] = none
deref iter (n ∷ rest) = if iter == n.id then some n.pair else deref iter rest

-- `cache_LRU_list.erase(iter)`
unfoldable pub erase_node : ℕ → List Node → List Node
erase_node iter [] = []
erase_node iter (n ∷ rest) = if iter == n.id then rest else n ∷ erase_node iter rest

-- `back()` and, beside it, what `pop_back()` leaves
unfoldable pub pop_back : List Node → Option (Node × List Node)
pop_back [] = none
pop_back (n ∷ []) = some (n, [])
pop_back (n ∷ m ∷ rest) = do (last, front) ← pop_back (m ∷ rest); some (last, n ∷ front)

-- `emplace_front(pair)` and `cache_updater_map_[key] = begin()`
unfoldable pub push_front : Word → SearchRetPair → Cache → Cache
push_front key pair c = record c {
  lru_list = record { id = c.next_id; pair = pair } ∷ c.lru_list;
  updater_map = assign key c.next_id c.updater_map;
  next_id = c.next_id + 1;
}

-- the eviction in `LRU`
unfoldable pub evict : Cache → Option Cache
evict c =
    if ltb c.cache_size (length c.lru_list)
    then (do
      (last, front) ← pop_back c.lru_list
      found ← lookup last.pair.0 c.updater_map
      some (record c { lru_list = front; updater_map = erase last.pair.0 c.updater_map }))
    else some c

-- `LRU(ret_pair, ret_iter)`, where `none` is `end()`
unfoldable pub lru : SearchRetPair → Option ℕ → Cache → Option Cache
lru ret_pair none c = evict (push_front ret_pair.0 ret_pair c)
lru ret_pair (some ret_iter) c = do
  copied ← deref ret_iter c.lru_list
  some (push_front ret_pair.0 copied (record c { lru_list = erase_node ret_iter c.lru_list }))

abbrev pub not_found : SearchRetPair
not_found = ([], [])

-- `SearchCache` while no update runs
unfoldable pub search_lru : Word → Cache → Option (Cache × SearchRetPair)
search_lru word c =
    let reading : Cache = record c { is_reading = true } in
    elim (lookup word reading.updater_map) [
      | none ↦ some (record reading { is_reading = false }, not_found)
      | some ret_iter ↦ do
        ret_pair ← deref ret_iter reading.lru_list
        moved ← lru ret_pair (some ret_iter) reading
        some (record moved { is_reading = false }, ret_pair)
    ]

-- `SearchCache` during an update
unfoldable pub search_nonupdate : Word → Cache → Option (Cache × SearchRetPair)
search_nonupdate word c = elim (lookup word c.nonupdate) [
  | none ↦ some (c, not_found)
  | some words ↦ some (c, (word, words))
]

-- `SearchCache`
unfoldable pub search_cache : Word → Cache → Option (Cache × SearchRetPair)
search_cache word c = if not c.update then search_lru word c else search_nonupdate word c

-- `InsertCache`; `is_first` tells whether this is `cache_list[0]`.
unfoldable pub insert_cache : Bool → SearchRetPair → Cache → Option Cache
insert_cache is_first ret_pair c = do
  inserted ← lru ret_pair none c
  some (
      if is_first
      then inserted
      else record inserted { new_search_list = inserted.new_search_list ++ ret_pair ∷ [] })
