-- ===== src/Search/Rank/Order.antt =====
-- `operator>` is a strict total order, and the queue pops the results in that order.
use kwd_server.Base.{
  ℕ, zero, suc, ◌≤◌, ◌≡◌, refl, subst, inl, inr, true, false, some, List, [], ◌∷◌, map, arith,
  Bool-cases, length, take, word_gt_irrefl, word_gt_trans, word_gt_connected, All, All-map,
}
use kwd_server.Search.Rank.{SearchResult, result_gt, push, pop_words}

-- `operator>` is a strict total order of results: none is greater than itself, it is transitive,
-- and of two different results one is greater.
result_gt_order :
    (a b c : SearchResult)
    → (result_gt a a ≡ false)
      × (result_gt a b ≡ true → result_gt b c ≡ true → result_gt a c ≡ true)
      × (result_gt a b ≡ false → result_gt b a ≡ false → a ≡ b)
result_gt_order a b c = (irrefl, trans, connected)
  where
    irrefl : result_gt a a ≡ false
    irrefl = unfold result_gt in ground (arith, word_gt_irrefl a.word)

    trans : result_gt a b ≡ true → result_gt b c ≡ true → result_gt a c ≡ true
    trans = unfold result_gt in λ h k. ground (arith, word_gt_trans a.word b.word c.word)

    connected : result_gt a b ≡ false → result_gt b a ≡ false → a ≡ b
    connected = unfold result_gt in λ h k. ground (arith, word_gt_connected a.word b.word)

-- No result is greater than one behind it.
abbrev pub IsRanked : List SearchResult → Type 0
IsRanked [] = Unit
IsRanked (r ∷ q) = All (λ s. result_gt r s ≡ false) q × IsRanked q

not_gt_trans :
    (a b c : SearchResult) → result_gt a b ≡ false → result_gt b c ≡ false → result_gt a c ≡ false
not_gt_trans a b c h k = elim (Bool-cases (result_gt a c)) [
  | inl gt ↦ elim (Bool-cases (result_gt b a)) [
    | inl back ↦ absurd (cc (k, (result_gt_order b a c).1 back gt))
    | inr level ↦
        let e : a ≡ b = (result_gt_order a b c).2 h level in
        absurd (cc (k, subst (λ d. result_gt d c ≡ true) e gt))
  ]
  | inr le ↦ le
]

not_gt_of_gt : (a b : SearchResult) → result_gt a b ≡ true → result_gt b a ≡ false
not_gt_of_gt a b h = elim (Bool-cases (result_gt b a)) [
  | inl back ↦ absurd (cc ((result_gt_order a b a).1 h back, (result_gt_order a a a).0))
  | inr le ↦ le
]

All-push :
    (P : SearchResult → Type 0) (r : SearchResult) (q : List SearchResult)
    → P r
    → All P q
    → All P (push r q)
unfolding push
All-push P r [] h k = (h, tt)
All-push P r (s ∷ q) h k = ground (arith, All-push P r q h)

pub push-IsRanked : (r : SearchResult) (q : List SearchResult) → IsRanked q → IsRanked (push r q)
unfolding push
push-IsRanked r [] h = (tt, tt)
push-IsRanked r (s ∷ q) h = elim (Bool-cases (result_gt r s)) [
  | inl gt ↦ rw gt (All-push _ r q (not_gt_of_gt r s gt) h.0, push-IsRanked r q h.1)
  | inr le ↦ rw le ((le, All-map _ _ q (λ t. not_gt_trans r s t le) h.0), h)
]

-- With no more pops than results, the words popped are those of the first results.
pub pop_words-eq-take :
    (n : ℕ) (q : List SearchResult)
    → n ≤ length q
    → pop_words n q ≡ some (map (λ r. r.word) (take n q))
unfolding pop_words
pop_words-eq-take zero q h = refl
pop_words-eq-take (suc n) [] h = absurd (omega arith)
pop_words-eq-take (suc n) (r ∷ q) h = rw (pop_words-eq-take n q (omega arith))
