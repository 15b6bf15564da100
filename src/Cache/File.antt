-- ===== src/Cache/File.antt =====
-- The file of a cache (src/cache.cc): what `UpdateCache` writes at its end, and `Init`, which fills a
-- new cache from it.
use kwd_server.Base.{ℕ, zero, suc, Option, none, some, List, [], ◌∷◌, ◌++◌, ◌>>=◌, length, Word}
use kwd_server.Text.{blank, newline, get_lines, read_word}
use kwd_server.Cache.{SearchRetPair, Cache, lru}
use kwd_server.Cache.Update.{refresh}

-- for (auto word : ret_pair.second) ofs << word << " ";
unfoldable pub words_text : List Word → Word
words_text [] = []
words_text (word ∷ words) = word ++ (blank ∷ words_text words)

-- The loop over `cache_nonupdate_`, in the order in which the map is walked.
unfoldable pub write_cache : List SearchRetPair → Word
write_cache [] = []
write_cache ((word, words) ∷ rest) =
    (word ++ (blank ∷ words_text words)) ++ (newline ∷ write_cache rest)

-- while (iss >> tmp_ret_word) search_ret_vec.push_back(tmp_ret_word);
-- Each round takes a byte at least, so the bytes of the stream are rounds enough.
unfoldable pub read_words : ℕ → Word → List Word
read_words zero stream = []
read_words (suc rounds) stream = elim (read_word stream) [
  | none ↦ []
  | some (tmp_ret_word, rest) ↦ tmp_ret_word ∷ read_words rounds rest
]

-- The pair of a line; a line without a word has the empty word and no others.
unfoldable pub read_pair : Word → SearchRetPair
read_pair line = elim (read_word line) [
  | none ↦ ([], [])
  | some (search_word, rest) ↦ (search_word, read_words (length rest) rest)
]

unfoldable pub init_lines : List Word → Cache → Option Cache
init_lines [] c = some c
init_lines (line ∷ lines) c = do next ← lru (read_pair line) none c; init_lines lines next

-- `Init` of a new cache, with its file if there is one. The loop at its end is that of `UpdateCache`.
unfoldable pub init : Option Word → Cache → Option Cache
init none c = some c
init (some text) c = do filled ← init_lines (get_lines text) c; some (refresh filled)
