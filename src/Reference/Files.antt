-- ===== src/Reference/Files.antt =====
-- The files of `RefFileCreator`: the dictionary that `SetDict` reads, and the index that `WriteRef`
-- writes and `ReadRef` reads. A number below zero in a file has no result in the model.
use kwd_server.Base.{ℕ, zero, suc, Option, none, some, List, [], ◌∷◌, ◌++◌, ◌>>=◌, length, Word}
use kwd_server.Text.{
  blank, newline, get_lines, lines_of, read_word, ended, below_zero, refused, got, read_int,
  decimal,
}
use kwd_server.Reference.{add_ref, set_ref}

-- `>> word_cnt`, where the number keeps its value if the stream has ended
unfoldable pub read_count : ℕ → Word → Option ℕ
read_count word_cnt stream = elim (read_int stream) [
  | ended ↦ some word_cnt
  | below_zero ↦ none
  | refused n ↦ some n
  | got n rest ↦ some n
]

-- `iss >> word >> word_cnt`, which are variables outside of the loop: a line without a word leaves
-- both as they are.
unfoldable pub read_entry : Word × ℕ → Word → Option (Word × ℕ)
read_entry (word, word_cnt) line = elim (read_word line) [
  | none ↦ some (word, word_cnt)
  | some (found, rest) ↦ do n ← read_count word_cnt rest; some (found, n)
]

unfoldable pub read_entries : Word × ℕ → List Word → Option (List (Word × ℕ))
read_entries last [] = some []
read_entries last (line ∷ lines) = do
  entry ← read_entry last line
  rest ← read_entries entry lines
  some (entry ∷ rest)

-- `SetDict`; the count has no value at first, `garbage` is what it holds.
unfoldable pub set_dict : ℕ → Option Word → Option (List (Word × ℕ))
set_dict garbage file = read_entries ([], garbage) (lines_of file)

unfoldable pub positions_text : List ℕ → Word
positions_text [] = []
positions_text (word_pos ∷ rest) = blank ∷ (decimal word_pos ++ positions_text rest)

-- `WriteRef`, with the entries in the order in which the map is walked.
unfoldable pub write_ref : List (Word × List ℕ) → Word
write_ref [] = []
write_ref ((key, positions) ∷ refs) =
    (key ++ positions_text positions) ++ (newline ∷ write_ref refs)

-- `while (iss >> word_cnt) ref_[word].insert(word_cnt)`. Each round takes a byte at least, so the
-- bytes of the stream are rounds enough.
unfoldable pub read_positions :
    ℕ → Word → Word → List (Word × List ℕ) → Option (List (Word × List ℕ))
read_positions zero word stream refs = some refs
read_positions (suc rounds) word stream refs = elim (read_int stream) [
  | ended ↦ some refs
  | below_zero ↦ none
  | refused n ↦ some refs
  | got n rest ↦ read_positions rounds word rest (add_ref word n refs)
]

-- A line without a word has no numbers either.
unfoldable pub read_ref_line : Word → List (Word × List ℕ) → Option (List (Word × List ℕ))
read_ref_line line refs = elim (read_word line) [
  | none ↦ some refs
  | some (word, rest) ↦ read_positions (length rest) word rest refs
]

unfoldable pub read_ref : List Word → List (Word × List ℕ) → Option (List (Word × List ℕ))
read_ref [] refs = some refs
read_ref (line ∷ lines) refs = do after ← read_ref_line line refs; read_ref lines after

-- `Init`: the dictionary, the index, and the file of the index afterwards. If there was none, the
-- index is built, and written in the order in which `walk` walks the map.
unfoldable pub init :
    (List (Word × List ℕ) → List (Word × List ℕ))
    → ℕ
    → (ℕ → List Word)
    → Option Word
    → Option Word
    → Option (List (Word × ℕ) × List (Word × List ℕ) × Word)
init walk garbage overrun dict_file none = do
  dict ← set_dict garbage dict_file
  let refs = set_ref overrun dict
  some (dict, refs, write_ref (walk refs))
init walk garbage overrun dict_file (some ref_file) = do
  dict ← set_dict garbage dict_file
  refs ← read_ref (get_lines ref_file) []
  some (dict, refs, ref_file)
