-- ===== src/Thread.antt =====
-- `Thread` (src/thread.cc, include/thread.hpp), a thread object over the calls of the thread library.
-- `A` says what a thread runs; the number of a thread is what `pthread_create` stores.
use kwd_server.Base.{
  ℕ, Bool, true, false, Option, none, some, List, [], ◌∷◌, if◌then◌else◌, Word, codes, word_eq,
}

pub record ThreadData (A : Type 0) : Type 0 where
  pub func : Option A
  pub name : Word

pub record Thread (A : Type 0) : Type 0 where
  pub thread_id : ℕ
  pub process : Option A
  pub is_running : Bool
  pub name : Word

-- A call of `pthread_create`, `pthread_join` or `pthread_detach`.
pub data Pthread (A : Type 0) : Type 0 where
  not_created : Pthread A
  created : ℕ → ThreadData A → Pthread A
  joined : ℕ → Pthread A
  detached : ℕ → Pthread A

-- What `pthread_create` gives: the number of a new thread, or a failure, with what it leaves in the
-- place for the number then, which is not determined.
pub data Creation : Type 0 where
  new_id left_id : ℕ → Creation

module _ {A : Type 0} where
  abbrev pub new_thread : Option A → Word → Thread A
  new_thread process name = record {
    thread_id = 0;
    process = process;
    is_running = false;
    name = name;
  }

  -- `DataFunc`: the name that the thread has, and what it runs.
  unfoldable data_func : ThreadData A → Word × Option A
  data_func d = (if word_eq [] d.name then codes "thread" else d.name, d.func)

  -- `ThreadFunc`: what a new thread runs; a null pointer is nothing to run.
  unfoldable thread_func : Option (ThreadData A) → Option (Word × Option A)
  thread_func none = none
  thread_func (some tmp) = some (data_func tmp)

  -- `ThreadStart` with what `pthread_create` gives.
  unfoldable pub thread_start : Creation → Thread A → Thread A × Pthread A
  thread_start (left_id id) t = (record t { thread_id = id }, not_created)
  thread_start (new_id id) t = (
    record t { thread_id = id; is_running = true },
    created id (record { func = t.process; name = t.name }),
  )

  -- `ThreadJoin`
  unfoldable pub thread_join : Thread A → Pthread A
  thread_join t = joined t.thread_id

  -- the destructor
  unfoldable pub thread_out : Thread A → List (Pthread A)
  thread_out t = if t.is_running then detached t.thread_id ∷ [] else []
