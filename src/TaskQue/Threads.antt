-- ===== src/TaskQue/Threads.antt =====
-- The threads at a queue: the event loop as the only producer (`ThreadPool::PushTask`), and `n`
-- workers (`Worker::DoWork`, `ThreadPool::GetTask`). A notification wakes one waiting thread, if
-- there is one; a wait may also end for no reason. After a wait a thread needs a new turn. `WakeUp`
-- does not take the lock: it may come between the test and the wait of a worker that has the lock,
-- which then sleeps and has missed it.
use kwd_server.Base.{
  ℕ, ◌<◌, ◌≡◌, ◌≢◌, Bool, true, false, none, some, List, [], ◌∷◌, ◌++◌, ◌==◌, if◌then◌else◌,
}
use kwd_server.TaskQue.{TaskQue, new_que, push_turn, sleeps, took, null, pop_turn, wake_up}

pub data Producer : Type 0 where
  free : Producer
  pushing : ℕ → Producer
  awaits_room : ℕ → Producer

pub data Worker : Type 0 where
  working popping asleep : Worker

-- `pushed` and `popped` are the elements that went in and out so far, in this order.
pub record Threads : Type 0 where
  pub queue : TaskQue
  pub producer : Producer
  pub worker : ℕ → Worker
  pub pushed : List ℕ
  pub popped : List ℕ

abbrev pub update {ℓ} : {A : Type ℓ} → (ℕ → A) → ℕ → A → ℕ → A
update f i a j = if j == i then a else f j

abbrev pub wake : Worker → Worker
wake asleep = popping
wake other = other

abbrev pub wake_producer : Producer → Producer
wake_producer (awaits_room x) = pushing x
wake_producer other = other

-- `cond_empty_.Notify()`
pub data Notified (n : ℕ) (before after : ℕ → Worker) : Type 0 where
  woken :
      (j : ℕ)
      → j < n
      → before j ≡ asleep
      → after ≡ update before j popping
      → Notified n before after
  nobody : ((j : ℕ) → j < n → before j ≢ asleep) → after ≡ before → Notified n before after

pub data Step (n : ℕ) (s t : Threads) : Type 0 where
  call_push : (x : ℕ) → s.producer ≡ free → t ≡ record s { producer = pushing x } → Step n s t
  push_waits :
      (x : ℕ)
      → s.producer ≡ pushing x
      → push_turn x s.queue ≡ none
      → t ≡ record s { producer = awaits_room x }
      → Step n s t
  push_quiet :
      (x : ℕ) (q : TaskQue)
      → s.producer ≡ pushing x
      → push_turn x s.queue ≡ some (q, false)
      → t ≡ record s { queue = q; producer = free; pushed = s.pushed ++ x ∷ [] }
      → Step n s t
  push_notifies :
      (x : ℕ) (q : TaskQue) (after : ℕ → Worker)
      → s.producer ≡ pushing x
      → push_turn x s.queue ≡ some (q, true)
      → Notified n s.worker after
      → t ≡ record s { queue = q; producer = free; worker = after; pushed = s.pushed ++ x ∷ [] }
      → Step n s t
  call_pop :
      (i : ℕ)
      → i < n
      → s.worker i ≡ working
      → t ≡ record s { worker = update s.worker i popping }
      → Step n s t
  pop_sleeps :
      (i : ℕ)
      → i < n
      → s.worker i ≡ popping
      → pop_turn s.queue ≡ sleeps
      → t ≡ record s { worker = update s.worker i asleep }
      → Step n s t
  pop_takes :
      (i x : ℕ) (q : TaskQue) (notify : Bool)
      → i < n
      → s.worker i ≡ popping
      → pop_turn s.queue ≡ took x q notify
      → t ≡ record s {
        queue = q;
        producer = if notify then wake_producer s.producer else s.producer;
        worker = update s.worker i working;
        popped = s.popped ++ x ∷ [];
      }
      → Step n s t
  pop_null :
      (i : ℕ)
      → i < n
      → s.worker i ≡ popping
      → pop_turn s.queue ≡ null
      → t ≡ record s { worker = update s.worker i working }
      → Step n s t
  worker_wakes :
      (i : ℕ)
      → i < n
      → s.worker i ≡ asleep
      → t ≡ record s { worker = update s.worker i popping }
      → Step n s t
  producer_wakes : t ≡ record s { producer = wake_producer s.producer } → Step n s t
  shut_down : t ≡ record s { queue = wake_up s.queue; worker = λ j. wake (s.worker j) } → Step n s t
  shut_down_missed :
      (i : ℕ)
      → i < n
      → s.worker i ≡ popping
      → pop_turn s.queue ≡ sleeps
      → t ≡ record s { queue = wake_up s.queue; worker = update (λ j. wake (s.worker j)) i asleep }
      → Step n s t

abbrev pub start : ℕ → Threads
start que_size = record {
  queue = new_que que_size;
  producer = free;
  worker = λ j. working;
  pushed = [];
  popped = [];
}

pub data Reach (n que_size : ℕ) : Threads → Type 0 where
  here : Reach n que_size (start que_size)
  next : {s t : Threads} → Reach n que_size s → Step n s t → Reach n que_size t
