-- ===== src/TaskQue/Safe.antt =====
-- What holds in every state that the threads reach.
use kwd_server.Base.{
  ℕ, suc, ◌≤◌, ◌<◌, ◌≡◌, ◌≢◌, refl, sym, ◌∙◌, ap, subst, Bool, true, false, some, [], ◌∷◌, ◌++◌,
  length, arith, if◌then◌else◌,
}
use mathlib.Core.List.{append_assoc}
use kwd_server.TaskQue.{TaskQue, push_turn, took, pop_turn, wake_up, size_mod}
use kwd_server.TaskQue.Turns.{push_turn_lem, pop_turn_lem, pop_turn-sleeps, push_turn-waits}
use kwd_server.TaskQue.Threads.{
  Producer, free, pushing, awaits_room, Worker, working, popping, asleep, Threads, update,
  wake_producer, Notified, woken, nobody, Step, call_push, push_waits, push_quiet, push_notifies,
  call_pop, pop_sleeps, pop_takes, pop_null, worker_wakes, producer_wakes, shut_down,
  shut_down_missed, start, Reach, here, next,
}

-- The queue holds what was pushed and not yet popped, in order, and never more than its size. A
-- producer that waits has a full queue before it. While the queue runs and has an element, some
-- worker is not asleep.
pub record IsSafe (n que_size : ℕ) (s : Threads) : Type 0 where
  pub size : s.queue.que_size ≡ que_size
  pub bounded : length s.queue.que ≤ que_size
  pub order : s.pushed ≡ s.popped ++ s.queue.que
  pub full : (x : ℕ) → s.producer ≡ awaits_room x → length s.queue.que ≡ que_size
  pub awake :
      0 < length s.queue.que → s.queue.flag ≡ true → (j : ℕ) × (j < n) × (s.worker j ≢ asleep)

-- A producer that waits after a pop was not notified by it.
still_waits :
    (p : Producer) (notify : Bool) (y : ℕ)
    → (if notify then wake_producer p else p) ≡ awaits_room y
    → (notify ≡ false) × (p ≡ awaits_room y)
still_waits free true y h = cc
still_waits (pushing z) true y h = cc
still_waits (awaits_room z) true y h = cc
still_waits p false y h = (refl, h)

start-IsSafe : (n que_size : ℕ) → IsSafe n que_size (start que_size)
start-IsSafe n que_size = record {
  size = refl;
  bounded = omega arith;
  order = refl;
  full = λ x h. cc;
  awake = λ h. absurd (omega arith);
}

module _ {n que_size : ℕ} (workers : 0 < n) (room : 0 < que_size)
    (small : que_size < size_mod) where
  -- A worker that is made something else than asleep is awake.
  awake_here :
      (i : ℕ) (w : ℕ → Worker) (p : Worker)
      → i < n
      → p ≢ asleep
      → (j : ℕ) × (j < n) × (update w i p j ≢ asleep)
  awake_here i w p h ne = (i, h, ground arith)

  -- A worker that is awake stays so when another one, or itself, is made something else than asleep.
  awake_there :
      (i : ℕ) (w : ℕ → Worker) (p : Worker)
      → p ≢ asleep
      → (j : ℕ) × (j < n) × (w j ≢ asleep)
      → (j : ℕ) × (j < n) × (update w i p j ≢ asleep)
  awake_there i w p ne (j, h, up) = (j, h, ground arith)

  worker-IsSafe :
      {s : Threads} (i : ℕ) (p : Worker)
      → p ≢ asleep
      → IsSafe n que_size s
      → IsSafe n que_size (record s { worker = update s.worker i p })
  worker-IsSafe {s} i p ne k = record {
    size = k.size;
    bounded = k.bounded;
    order = k.order;
    full = k.full;
    awake = λ h f. awake_there i s.worker p ne (k.awake h f);
  }

  pushed-IsSafe :
      {s : Threads} (x : ℕ) (q : TaskQue) (notify : Bool) (after : ℕ → Worker)
      → IsSafe n que_size s
      → push_turn x s.queue ≡ some (q, notify)
      → (0 < length q.que → q.flag ≡ true → (j : ℕ) × (j < n) × (after j ≢ asleep))
      → IsSafe n que_size
          (record s { queue = q; producer = free; worker = after; pushed = s.pushed ++ x ∷ [] })
  pushed-IsSafe {s} x q notify after k run awake =
      let (shape, below, _, longer) = push_turn_lem x s.queue q notify run (omega arith) in
      record {
        size = ap (λ r. r.que_size) shape ∙ k.size;
        bounded = omega arith;
        order =
            ap (λ l. l ++ x ∷ []) k.order
            ∙ append_assoc s.popped s.queue.que (x ∷ [])
            ∙ ap (λ r. s.popped ++ r.que) (sym shape);
        full = λ y h. cc;
        awake = awake;
      }

  popped-IsSafe :
      {s : Threads} (i x : ℕ) (q : TaskQue) (notify : Bool)
      → IsSafe n que_size s
      → i < n
      → pop_turn s.queue ≡ took x q notify
      → IsSafe n que_size (record s {
        queue = q;
        producer = if notify then wake_producer s.producer else s.producer;
        worker = update s.worker i working;
        popped = s.popped ++ x ∷ [];
      })
  popped-IsSafe {s} i x q notify k lt run =
      let (shape, rest, told) = pop_turn_lem s.queue x q notify run (omega arith) (omega arith) in
      let shorter : length s.queue.que ≡ suc (length q.que) = ap length shape in
      record {
        size = ap (λ r. r.que_size) rest ∙ k.size;
        bounded = omega arith;
        order =
            k.order ∙ ap (λ l. s.popped ++ l) shape ∙ sym (append_assoc s.popped (x ∷ []) q.que);
        full = λ y h.
            let (silent, waits) = still_waits s.producer notify y h in
            absurd (ground (arith, told, silent, k.full y waits, k.size));
        awake = λ h f. awake_here i s.worker working lt (λ e. cc);
      }

  shut_down-IsSafe :
      {s : Threads} (after : ℕ → Worker)
      → IsSafe n que_size s
      → IsSafe n que_size (record s { queue = wake_up s.queue; worker = after })
  unfolding wake_up
  shut_down-IsSafe after k = record {
    size = k.size;
    bounded = k.bounded;
    order = k.order;
    full = k.full;
    awake = λ h f. absurd (cc f);
  }

  -- What a notification leaves has an awake worker.
  Notified-awake :
      {before after : ℕ → Worker} → Notified n before after → (j : ℕ) × (j < n) × (after j ≢ asleep)
  Notified-awake {before} {after} (woken j lt sleepy e) =
      let (i, h, up) = awake_here j before popping lt (λ e. cc) in
      (i, h, λ p. up (sym (ap (λ (f : ℕ → Worker). f i) e) ∙ p))
  Notified-awake {before} {after} (nobody none_asleep e) =
      (0, workers, λ p. none_asleep 0 workers (sym (ap (λ (f : ℕ → Worker). f 0) e) ∙ p))

  Step-IsSafe : {s t : Threads} → Step n s t → IsSafe n que_size s → IsSafe n que_size t
  Step-IsSafe {s} (call_push x at e) k = subst (IsSafe n que_size) (sym e) (record {
    size = k.size;
    bounded = k.bounded;
    order = k.order;
    full = λ y h. cc;
    awake = k.awake;
  })
  Step-IsSafe {s} (push_waits x at run e) k = subst (IsSafe n que_size) (sym e) (record {
    size = k.size;
    bounded = k.bounded;
    order = k.order;
    full = λ y h. push_turn-waits x s.queue run ∙ k.size;
    awake = k.awake;
  })
  Step-IsSafe {s} (push_quiet x q at run e) k =
      subst (IsSafe n que_size) (sym e)
        (pushed-IsSafe x q false s.worker k run (push_quiet_awake x q k run))
    where
      push_quiet_awake :
          (x : ℕ) (q : TaskQue)
          → IsSafe n que_size s
          → push_turn x s.queue ≡ some (q, false)
          → 0 < length q.que
          → q.flag ≡ true
          → (j : ℕ) × (j < n) × (s.worker j ≢ asleep)
      push_quiet_awake x q k run h f =
          let (shape, _, told, longer) = push_turn_lem x s.queue q false run (omega arith) in
          k.awake (ground arith) (sym (ap (λ r. r.flag) shape) ∙ f)
  Step-IsSafe {s} (push_notifies x q after at run woke e) k =
      subst (IsSafe n que_size) (sym e)
        (pushed-IsSafe x q true after k run (λ h f. Notified-awake woke))
  Step-IsSafe {s} (call_pop i lt at e) k =
      subst (IsSafe n que_size) (sym e) (worker-IsSafe i popping (λ e. cc) k)
  Step-IsSafe {s} (pop_sleeps i lt at run e) k = subst (IsSafe n que_size) (sym e) (record {
    size = k.size;
    bounded = k.bounded;
    order = k.order;
    full = k.full;
    awake = λ h f. absurd (omega (arith, (pop_turn-sleeps s.queue run).1));
  })
  Step-IsSafe {s} (pop_takes i x q notify lt at run e) k =
      subst (IsSafe n que_size) (sym e) (popped-IsSafe i x q notify k lt run)
  Step-IsSafe {s} (pop_null i lt at run e) k =
      subst (IsSafe n que_size) (sym e) (worker-IsSafe i working (λ e. cc) k)
  Step-IsSafe {s} (worker_wakes i lt at e) k =
      subst (IsSafe n que_size) (sym e) (worker-IsSafe i popping (λ e. cc) k)
  Step-IsSafe {s} (producer_wakes e) k = subst (IsSafe n que_size) (sym e) (record {
    size = k.size;
    bounded = k.bounded;
    order = k.order;
    full = λ y h. absurd (cc ((still_waits s.producer true y h).0));
    awake = k.awake;
  })
  Step-IsSafe (shut_down e) k = subst (IsSafe n que_size) (sym e) (shut_down-IsSafe _ k)
  Step-IsSafe (shut_down_missed i lt at run e) k =
      subst (IsSafe n que_size) (sym e) (shut_down-IsSafe _ k)

  -- In every state that is reached by the event loop and at least one worker, in any interleaving
  -- of their turns, with any wake-up for no reason, and with a queue of at least one place: what was
  -- popped and what is in the queue is what was pushed, in that order, and the queue is within its
  -- size; a producer that waits has a full queue before it; and while the queue runs, whenever an
  -- element is in it some worker is not asleep, so not all threads wait.
  pub Reach-IsSafe : {s : Threads} → Reach n que_size s → IsSafe n que_size s
  Reach-IsSafe here = start-IsSafe n que_size
  Reach-IsSafe (next r st) = Step-IsSafe st (Reach-IsSafe r)
