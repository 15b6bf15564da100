-- ===== src/Search/Handle.antt =====
-- `SearchModule::SearchWord`, `HandleENG` and `HandleCH` (src/search_module.cc), with `IsEnglish` of
-- include/search_module.hpp. The dictionary and the inverted index are those of `RefFileCreator`.
-- No result means that the dictionary was read past its end.
pub mod Sets
pub mod Hits
pub mod Best
pub mod View
use kwd_server.Base.{
  ℕ, zero, suc, ◌+◌, ◌-◌, ◌/◌, min, Bool, true, false, ◌&&◌, Option, none, some, List, [], ◌∷◌, map,
  length, get_elem?, ltb, leb, ◌==◌, if◌then◌else◌, ◌>>=◌, Word, lookup,
}
use kwd_server.Search.Edit.{min_edit}
use kwd_server.Search.Rank.{SearchResult, push, pop_words}
use Sets.{insert_all}

-- What a search reads: `ref_creator_->get_dict()`, `ref_creator_->get_ref()` and
-- `search_word_list_size_`.
pub record Index : Type 0 where
  pub dict : List (Word × ℕ)
  pub refs : List (Word × List ℕ)
  pub limit : ℕ

-- `!(word[0] >> 7)`; the first byte of an empty string is its terminator, 0.
unfoldable pub is_english : Word → Bool
is_english [] = true
is_english (c ∷ rest) = ltb c 128

-- `if (::isupper(i)) i += 32;`
unfoldable pub to_lower : ℕ → ℕ
to_lower c = if leb b'A' c && leb c b'Z' then c + 32 else c

-- `string(i_tmp)` for `char i_tmp[2] = {i, '\0'}`: a zero byte ends the string.
unfoldable pub char_key : ℕ → Word
char_key c = if c == 0 then [] else c ∷ []

-- The first loop of `HandleENG`, from the set that is already there.
unfoldable pub collect_eng : Index → Word → List ℕ → List ℕ
collect_eng index [] word_dict_pos = word_dict_pos
collect_eng index (i ∷ word) word_dict_pos =
    collect_eng index word (elim (lookup (char_key i) index.refs) [
      | none ↦ word_dict_pos
      | some positions ↦ insert_all positions word_dict_pos
    ])

-- `HandleENG` skips a word at distance above 3; `HandleCH` counts three bytes for a character.
unfoldable pub too_far_eng : ℕ → Bool
too_far_eng dis = ltb 3 dis

unfoldable pub too_far_ch : ℕ → Bool
too_far_ch dis = ltb 3 (dis / 3)

-- The second loop of both handlers, over the collected positions in ascending order.
unfoldable pub rank_positions :
    Index → (ℕ → Bool) → Word → List ℕ → List SearchResult → Option (List SearchResult)
rank_positions index too_far word [] ret_que = some ret_que
rank_positions index too_far word (i ∷ rest) ret_que = do
  (dict_word, dict_word_cnt) ← get_elem? index.dict i
  dis ← min_edit word dict_word
  let ret_tmp : SearchResult = record {
    min_edit_dis = dis;
    occur_times = dict_word_cnt;
    word = dict_word;
  }
  rank_positions index too_far word rest (if too_far dis then ret_que else push ret_tmp ret_que)

-- From the collected positions to the words that are returned.
unfoldable pub best_words : Index → (ℕ → Bool) → Word → List ℕ → Option (Word × List Word)
best_words index too_far word word_dict_pos = do
  ret_que ← rank_positions index too_far word word_dict_pos []
  search_word_list ← pop_words (min index.limit (length ret_que)) ret_que
  some (word, search_word_list)

unfoldable pub handle_eng : Index → Word → Option (Word × List Word)
handle_eng index word = best_words index too_far_eng word (collect_eng index word [])

-- `HandleCH` builds its keys from `char char_tmp[3]`, which has no room for a terminator: what
-- `string(char_tmp)` reads behind the three bytes is not determined by the program, and is given
-- for each round of the loop by `overrun`. A zero byte among the three ends the string.
unfoldable pub chars_key : List ℕ → Word → Word
chars_key [] overrun = overrun
chars_key (c ∷ rest) overrun = if c == 0 then [] else c ∷ chars_key rest overrun

-- The loop `while (pos < word.size()-1)` on what is left of the word: `word[word.size()]` is the
-- terminator, and a last single byte is not read.
unfoldable pub keys_ch : Word → List Word → List Word
keys_ch (a ∷ b ∷ c ∷ rest) (behind ∷ overrun) =
    chars_key (a ∷ b ∷ c ∷ []) behind ∷ keys_ch rest overrun
keys_ch (a ∷ b ∷ c ∷ rest) [] = chars_key (a ∷ b ∷ c ∷ []) [] ∷ keys_ch rest []
keys_ch (a ∷ b ∷ []) overrun = chars_key (a ∷ b ∷ 0 ∷ []) [] ∷ []
keys_ch _ _ = []

unfoldable pub collect_ch : Index → List Word → List ℕ → List ℕ
collect_ch index [] word_dict_pos = word_dict_pos
collect_ch index (key ∷ keys) word_dict_pos = collect_ch index keys (elim (lookup key index.refs) [
  | none ↦ word_dict_pos
  | some positions ↦ insert_all positions word_dict_pos
])

unfoldable pub handle_ch : List Word → Index → Word → Option (Word × List Word)
handle_ch overrun index word =
    best_words index too_far_ch word (collect_ch index (keys_ch word overrun) [])

unfoldable pub search_word : List Word → Index → Word → Option (Word × List Word)
search_word overrun index word =
    if is_english word then handle_eng index (map to_lower word) else handle_ch overrun index word
