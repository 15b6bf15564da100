-- ===== src/Search/Edit.antt =====
-- `SearchModule::Min` and `SearchModule::MinEdit` (src/search_module.cc): the edit distance of two
-- strings by filling a table. The table remembers which cells were allocated and which were written:
-- `new int[n]` leaves its cells unwritten, and a read of such a cell, or an access outside the
-- table, has no result.
pub mod Script
pub mod Table
pub mod Metric
use kwd_server.Base.{
  ℕ, zero, suc, ◌+◌, ◌-◌, Bool, true, false, ◌&&◌, Option, none, some, List, length, get_elem?, ltb,
  ◌==◌, if◌then◌else◌, ◌>>=◌, loop,
}

-- `int **ptr`
pub record Grid : Type 0 where
  pub height : ℕ
  pub width : ℕ
  pub cell : ℕ → ℕ → Option ℕ

-- new int*[height], and new int[width] for each row
abbrev pub allocate : ℕ → ℕ → Grid
allocate height width = record { height = height; width = width; cell = λ i j. none }

abbrev pub in_grid : Grid → ℕ → ℕ → Bool
in_grid t i j = ltb i t.height && ltb j t.width

-- ptr[i][j], read
unfoldable pub load : Grid → ℕ → ℕ → Option ℕ
load t i j = if in_grid t i j then t.cell i j else none

-- ptr[i][j] = v
unfoldable pub store : Grid → ℕ → ℕ → ℕ → Option Grid
store t i j v =
    if in_grid t i j
    then some (record t { cell = λ k l. if k == i && l == j then some v else t.cell k l })
    else none

-- `Min`
unfoldable pub min3 : ℕ → ℕ → ℕ → ℕ
min3 a b c = if ltb (if ltb a b then a else b) c then (if ltb a b then a else b) else c

unfoldable pub substitution : ℕ → ℕ → ℕ
substitution x y = if x == y then 0 else 1

-- the body of the inner loop of `MinEdit`
unfoldable pub fill_cell : List ℕ → List ℕ → ℕ → ℕ → Grid → Option Grid
fill_cell word1 word2 i j ptr = do
  up ← load ptr (i - 1) j
  left ← load ptr i (j - 1)
  diagonal ← load ptr (i - 1) (j - 1)
  x ← get_elem? word1 (i - 1)
  y ← get_elem? word2 (j - 1)
  store ptr i j (min3 (up + 1) (left + 1) (diagonal + substitution x y))

-- the whole table, before it is freed
unfoldable pub fill_grid : List ℕ → List ℕ → Option Grid
fill_grid word1 word2 = do
  let max1 = length word1
  let max2 = length word2
  let fresh = allocate (max1 + 1) (max2 + 1)
  left_column ← loop (max1 + 1) 0 (λ i ptr. store ptr i 0 i) fresh
  borders ← loop (max2 + 1) 0 (λ i ptr. store ptr 0 i i) left_column
  loop max1 1 (λ i ptr. loop max2 1 (fill_cell word1 word2 i) ptr) borders

unfoldable pub min_edit : List ℕ → List ℕ → Option ℕ
min_edit word1 word2 = do ptr ← fill_grid word1 word2; load ptr (length word1) (length word2)
