-- ===== src/Search/Rank/At.antt =====
-- The queue of results, each with the position in the dictionary that it comes from.
use kwd_server.Base.{
  ℕ, ◌≡◌, ◌≢◌, refl, sym, ap, subst, ◌⊎◌, inl, inr, List, [], ◌∷◌, map, take, zero, suc, Bool-cases,
  if◌then◌else◌, In, All,
}
use kwd_server.Search.Rank.{SearchResult, result_gt, push}
use kwd_server.Search.Rank.Order.{IsRanked, push-IsRanked}

abbrev pub At : Type 0
At = ℕ × SearchResult

abbrev pub results : List At → List SearchResult
results = map (λ h. h.1)

-- No two results come from one position.
abbrev pub OnceEach : List At → Type 0
OnceEach [] = Unit
OnceEach (h ∷ hits) = All (λ k. k.0 ≢ h.0) hits × OnceEach hits

-- `push` of a result with its position.
unfoldable pub push_at : At → List At → List At
push_at h [] = h ∷ []
push_at h (top ∷ rest) =
    let later = push_at h rest in if result_gt h.1 top.1 then top ∷ later else h ∷ top ∷ rest

pub results-push_at : (h : At) (l : List At) → results (push_at h l) ≡ push h.1 (results l)
unfolding push_at push
results-push_at h [] = refl
results-push_at h (top ∷ l) = elim (Bool-cases (result_gt h.1 top.1)) [
  | inl gt ↦ rw gt (ap (λ q. top.1 ∷ q) (results-push_at h l))
  | inr le ↦ rw le refl
]

pub push_at-IsRanked :
    (h : At) (l : List At) → IsRanked (results l) → IsRanked (results (push_at h l))
push_at-IsRanked h l ranked =
    subst IsRanked (sym (results-push_at h l)) (push-IsRanked h.1 (results l) ranked)

pub All-push_at : (P : At → Type 0) (h : At) (l : List At) → P h → All P l → All P (push_at h l)
unfolding push_at
All-push_at P h [] p all = (p, tt)
All-push_at P h (top ∷ l) p all = elim (Bool-cases (result_gt h.1 top.1)) [
  | inl gt ↦ rw gt (all.0, All-push_at P h l p all.1)
  | inr le ↦ rw le (p, all)
]

pub push_at-OnceEach :
    (h : At) (l : List At) → All (λ k. k.0 ≢ h.0) l → OnceEach l → OnceEach (push_at h l)
unfolding push_at
push_at-OnceEach h [] new once = (tt, tt)
push_at-OnceEach h (top ∷ l) new once = elim (Bool-cases (result_gt h.1 top.1)) [
  | inl gt ↦ rw gt (
    All-push_at (λ k. k.0 ≢ top.0) h l (λ e. new.0 (sym e)) once.0,
    push_at-OnceEach h l new.1 once.1,
  )
  | inr le ↦ rw le (new, once)
]

pub In-of_push_at : (k h : At) (l : List At) → In k (push_at h l) → (k ≡ h) ⊎ In k l
unfolding push_at
In-of_push_at k h [] i = i
In-of_push_at k h (top ∷ l) i = elim (Bool-cases (result_gt h.1 top.1)) [
  | inl gt ↦ elim (rw gt at i) [
    | inl e ↦ inr (inl e)
    | inr g ↦ elim (In-of_push_at k h l g) [ inl e ↦ inl e | inr j ↦ inr (inr j) ]
  ]
  | inr le ↦ rw le at i
]

pub In-push_at : (k h : At) (l : List At) → (k ≡ h) ⊎ In k l → In k (push_at h l)
unfolding push_at
In-push_at k h [] i = i
In-push_at k h (top ∷ l) i = elim (Bool-cases (result_gt h.1 top.1)) [
  | inl gt ↦ rw gt (elim i [
    | inl e ↦ inr (In-push_at k h l (inl e))
    | inr (inl e) ↦ inl e
    | inr (inr j) ↦ inr (In-push_at k h l (inr j))
  ])
  | inr le ↦ rw le i
]

pub map-take :
    (n : ℕ) (l : List At) → map (λ r. r.word) (take n (results l)) ≡ map (λ h. h.1.word) (take n l)
map-take zero l = refl
map-take (suc n) [] = refl
map-take (suc n) (h ∷ l) = ap (λ q. h.1.word ∷ q) (map-take n l)
