-- ===== src/Cache/Nodes.antt =====
-- The linked list of a cache: the nodes that iterators point at.
use kwd_server.Base.{
  ℕ, suc, ◌≡◌, ◌≢◌, refl, sym, ap, subst, some, List, [], ◌∷◌, length, take, arith, All, Bool-cases,
  inl, inr, ◌==◌, ==_iff,
}
use kwd_server.Cache.{SearchRetPair, Node, deref, erase_node, pop_back}

-- No two nodes have the same identity.
abbrev pub Distinct : List Node → Type 0
Distinct [] = Unit
Distinct (n ∷ rest) = All (λ m. m.id ≢ n.id) rest × Distinct rest

module _ (iter : ℕ) where
  pub All-erase_node : (P : Node → Type 0) (l : List Node) → All P l → All P (erase_node iter l)
  unfolding erase_node
  All-erase_node P [] h = tt
  All-erase_node P (n ∷ l) h = ground (arith, All-erase_node P l h.1)

  pub erase_node-gone : (l : List Node) → Distinct l → All (λ n. n.id ≢ iter) (erase_node iter l)
  unfolding erase_node
  erase_node-gone [] h = tt
  erase_node-gone (n ∷ l) h = elim (Bool-cases (iter == n.id)) [
    | inl here ↦ rw here (subst (λ k. All (λ m. m.id ≢ k) l) (sym ((==_iff iter n.id).0 here)) h.0)
    | inr other ↦ rw other ((λ e. ground arith), erase_node-gone l h.1)
  ]

  pub erase_node-Distinct : (l : List Node) → Distinct l → Distinct (erase_node iter l)
  unfolding erase_node
  erase_node-Distinct [] h = tt
  erase_node-Distinct (n ∷ l) h = elim (Bool-cases (iter == n.id)) [
    | inl here ↦ rw here h.1
    | inr other ↦ rw other (All-erase_node (λ m. m.id ≢ n.id) l h.0, erase_node-Distinct l h.1)
  ]

  pub length-erase_node :
      (l : List Node) (p : SearchRetPair)
      → deref iter l ≡ some p
      → suc (length (erase_node iter l)) ≡ length l
  unfolding erase_node deref
  length-erase_node [] p h = cc
  length-erase_node (n ∷ l) p h = ground (arith, length-erase_node l p)

  pub deref-erase_node :
      (j : ℕ) (l : List Node) → j ≢ iter → deref j (erase_node iter l) ≡ deref j l
  unfolding erase_node deref
  deref-erase_node j [] h = refl
  deref-erase_node j (n ∷ l) h = ground (arith, deref-erase_node j l h)

-- The last node of a list, and the nodes before it.
pub record IsPopped (l : List Node) (last : Node) (front : List Node) : Type 1 where
  pub popped : pop_back l ≡ some (last, front)
  pub taken : suc (length front) ≡ length l
  pub prefix : (k : ℕ) → suc k ≡ length l → front ≡ take k l
  pub all : (P : Node → Type 0) → All P l → P last × All P front
  pub apart : Distinct l → Distinct front × All (λ n. n.id ≢ last.id) front
  pub found : (j : ℕ) → j ≢ last.id → deref j front ≡ deref j l

pub pop_back-IsPopped :
    (n : Node) (l : List Node) → (last : Node) × (front : List Node) × IsPopped (n ∷ l) last front
unfolding pop_back deref
pop_back-IsPopped n [] = (
  n,
  [],
  record {
    popped = refl;
    taken = refl;
    prefix = λ k h. rw (zero_of k h);
    all = λ P h. h;
    apart = λ h. (tt, tt);
    found = λ j h. ground arith;
  },
)
  where
    zero_of : (k : ℕ) → suc k ≡ 1 → k ≡ 0
    zero_of k h = omega arith
pop_back-IsPopped n (m ∷ l) =
    let (last, front, p) = pop_back-IsPopped m l in
    (
      last,
      n ∷ front,
      record {
        popped = rw p.popped;
        taken = ap suc p.taken;
        prefix = λ k h.
            let e : k ≡ suc (length l) = omega arith in
            rw e (ap (◌∷◌ n) (p.prefix (length l) refl));
        all = λ P h. let (a, b) = p.all P h.1 in (a, (h.0, b));
        apart = λ h.
            let (front_distinct, front_apart) = p.apart h.1 in
            let (last_ne, front_ne) = p.all (λ x. x.id ≢ n.id) h.0 in
            ((front_ne, front_distinct), ((λ e. last_ne (sym e)), front_apart));
        found = λ j h. ground (arith, p.found j h);
      },
    )

-- What holds of every node holds of the one that an iterator points at.
pub deref-All :
    (P : Node → Type 0) (iter : ℕ) (l : List Node) (p : SearchRetPair)
    → deref iter l ≡ some p
    → All P l
    → P (record { id = iter; pair = p })
unfolding deref
deref-All P iter [] p e h = cc
deref-All P iter (n ∷ l) p e h = elim (Bool-cases (iter == n.id)) [
  | inl here ↦
      let same : iter ≡ n.id = (==_iff iter n.id).0 here in
      let pairs : n.pair ≡ p = ground arith in
      let whole : n ≡ record { id = iter; pair = p } =
        λ j. record { id = sym same j; pair = pairs j } in
      subst P whole h.0
  | inr other ↦ deref-All P iter l p (rw other at e) h.1
]
