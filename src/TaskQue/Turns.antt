-- ===== src/TaskQue/Turns.antt =====
-- What one turn of `Push` and of `Pop` does.
use kwd_server.Base.{
  ℕ, suc, ◌+◌, ◌-◌, ◌%◌, ◌≤◌, ◌<◌, ◌≡◌, true, Bool, none, some, [], ◌∷◌, ◌++◌, length,
  length-append, arith, ◌==◌,
}
use kwd_server.TaskQue.{TaskQue, push_turn, sleeps, took, pop_turn, size_mod}

-- A turn of `Push` finds room, appends the element, and notifies if it is now the only one.
pub push_turn_lem :
    (x : ℕ) (q q' : TaskQue) (notify : Bool)
    → push_turn x q ≡ some (q', notify)
    → length q.que ≤ q.que_size
    → (q' ≡ record q { que = q.que ++ x ∷ [] })
      × (length q.que < q.que_size)
      × (notify ≡ (1 == length q'.que))
      × (length q'.que ≡ suc (length q.que))
unfolding push_turn
push_turn_lem x q q' notify h bound = ground (arith, length-append q.que (x ∷ []))

pub pop_turn_lem :
    (q : TaskQue) (x : ℕ) (q' : TaskQue) (notify : Bool)
    → pop_turn q ≡ took x q' notify
    → 0 < q.que_size
    → q.que_size < size_mod
    → (q.que ≡ x ∷ q'.que)
      × (q' ≡ record q { que = q'.que })
      × (notify ≡ (q.que_size - 1 == length q'.que))
unfolding pop_turn
pop_turn_lem q x q' notify h pos small =
    let wrap : (q.que_size + size_mod - 1) % size_mod ≡ q.que_size - 1 = omega arith in
    ground (arith, wrap)

pub pop_turn-sleeps : (q : TaskQue) → pop_turn q ≡ sleeps → (q.flag ≡ true) × (length q.que ≡ 0)
unfolding pop_turn
pop_turn-sleeps q h = ground arith

pub push_turn-waits : (x : ℕ) (q : TaskQue) → push_turn x q ≡ none → length q.que ≡ q.que_size
unfolding push_turn
push_turn-waits x q h = ground arith
