-- ===== src/Pool/Calls.antt =====
-- The calls of the thread library that the threads of a pool take.
use kwd_server.Base.{
  ℕ, zero, suc, ◌+◌, ◌≤◌, ◌≡◌, refl, some, List, [], ◌∷◌, ◌++◌, map, length, get_elem?-lt, Word,
  arith,
}
use kwd_server.Text.{decimal}
use kwd_server.Cache.{Cache}
use kwd_server.Thread.{
  Thread, Creation, new_id, left_id, Pthread, not_created, created, joined, detached, new_thread,
  thread_start, thread_join, thread_out,
}
use kwd_server.Pool.{Work, do_work, make_threads, start_threads, all_out}

-- The call by which a thread is started, what is joined for it, and what its destructor does, for
-- the number that `pthread_create` has stored, or what it has left there.
abbrev pub start_call : Creation → Work → Word → Pthread Work
start_call (left_id id) work name = not_created
start_call (new_id id) work name = created id (record { func = some work; name = name })

abbrev pub number_of : Creation → ℕ
number_of (left_id id) = id
number_of (new_id id) = id

abbrev pub out_calls : Creation → List (Pthread Work)
out_calls (left_id id) = []
out_calls (new_id id) = detached id ∷ []

-- For the numbers from `i` on, `k` of them.
abbrev pub each {ℓ} : {A : Type ℓ} → (ℕ → A) → ℕ → ℕ → List A
each f zero i = []
each f (suc k) i = f i ∷ each f k (suc i)

abbrev pub each_all {ℓ} : {A : Type ℓ} → (ℕ → List A) → ℕ → ℕ → List A
each_all f zero i = []
each_all f (suc k) i = f i ++ each_all f k (suc i)

abbrev pub worker : ℕ → Thread Work
worker i = new_thread (some (do_work i)) (decimal i)

pub make_threads-eq :
    (k i : ℕ) (caches : List Cache)
    → i + k ≤ length caches
    → make_threads k i caches ≡ some (each worker k i)
unfolding make_threads
make_threads-eq zero i caches h = refl
make_threads-eq (suc k) i caches h =
    let (cache, found) = get_elem?-lt caches i (omega arith) in
    rw (found, make_threads-eq k (suc i) caches (omega arith))

pub start-call :
    (create : Creation) (work : Work) (name : Word)
    → (thread_start create (new_thread (some work) name)).1 ≡ start_call create work name
unfolding thread_start
start-call (left_id id) work name = refl
start-call (new_id id) work name = refl

pub join-start :
    (create : Creation) (work : Work) (name : Word)
    → thread_join (thread_start create (new_thread (some work) name)).0 ≡ joined (number_of create)
unfolding thread_start thread_join
join-start (left_id id) work name = refl
join-start (new_id id) work name = refl

pub out-start :
    (create : Creation) (work : Work) (name : Word)
    → thread_out (thread_start create (new_thread (some work) name)).0 ≡ out_calls create
unfolding thread_start thread_out
out-start (left_id id) work name = refl
out-start (new_id id) work name = refl

module _ (create : ℕ → Creation) where
  abbrev pub start_calls : ℕ → ℕ → List (Pthread Work)
  start_calls = each λ i. start_call (create i) (do_work i) (decimal i)

  abbrev pub joins : ℕ → ℕ → List (Pthread Work)
  joins = each λ i. joined (number_of (create i))

  abbrev pub outs : ℕ → ℕ → List (Pthread Work)
  outs = each_all λ i. out_calls (create i)

  pub start_threads-calls :
      (k i : ℕ) → (start_threads create i (each worker k i)).1 ≡ start_calls k i
  unfolding start_threads
  start_threads-calls zero i = refl
  start_threads-calls (suc k) i =
      rw (start-call (create i) (do_work i) (decimal i), start_threads-calls k (suc i))

  pub start_threads-joins :
      (k i : ℕ) → map thread_join (start_threads create i (each worker k i)).0 ≡ joins k i
  unfolding start_threads
  start_threads-joins zero i = refl
  start_threads-joins (suc k) i =
      rw (join-start (create i) (do_work i) (decimal i), start_threads-joins k (suc i))

  pub start_threads-outs :
      (k i : ℕ) → all_out (start_threads create i (each worker k i)).0 ≡ outs k i
  unfolding start_threads all_out
  start_threads-outs zero i = refl
  start_threads-outs (suc k) i =
      rw (out-start (create i) (do_work i) (decimal i), start_threads-outs k (suc i))
