-- ===== src/Search/Rank.antt =====
-- The ranking of search results: `SearchModule::SearchResult`, `operator>` and the priority queue
-- of `HandleENG` and `HandleCH` (src/search_module.cc). The queue is ordered by
-- `std::greater<SearchResult>`, so its top is a result that is greater than no other. It is a list
-- with the top in front; `push` puts a result behind those that it is greater than.
pub mod Order
pub mod At
use kwd_server.Base.{
  ℕ, zero, suc, Bool, true, false, Option, none, some, List, [], ◌∷◌, ltb, ◌==◌, if◌then◌else◌,
  ◌>>=◌, Word, word_gt,
}

pub record SearchResult : Type 0 where
  pub min_edit_dis : ℕ
  pub occur_times : ℕ
  pub word : Word

-- `operator>`
unfoldable pub result_gt : SearchResult → SearchResult → Bool
result_gt lhs rhs =
    if lhs.min_edit_dis == rhs.min_edit_dis
    then (if lhs.occur_times == rhs.occur_times
        then word_gt lhs.word rhs.word
        else ltb lhs.occur_times rhs.occur_times)
    else ltb rhs.min_edit_dis lhs.min_edit_dis

-- `ret_que.push`
unfoldable pub push : SearchResult → List SearchResult → List SearchResult
push r [] = r ∷ []
push r (top ∷ rest) = if result_gt r top then top ∷ push r rest else r ∷ top ∷ rest

-- The last loop of the handlers: `size` times the word of `ret_que.top()`, which is then popped.
unfoldable pub pop_words : ℕ → List SearchResult → Option (List Word)
pop_words zero que = some []
pop_words (suc size) [] = none
pop_words (suc size) (top ∷ rest) = do words ← pop_words size rest; some (top.word ∷ words)
