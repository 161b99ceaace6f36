-- ===== src/ThreadPool.antt =====
-- The default thread pool of src/thread-pool.c: its counters, its work queue and its workers. What
-- `pthread_create` returns for each thread, and whether `realloc` succeeds, are arguments.
pub mod Counts
pub mod Order
pub mod Job
pub mod Done
use aml.Base.{
  ℕ, zero, suc, ◌+◌, ◌-◌, Bool, true, Option, none, some, List, [], ◌∷◌, ◌++◌, ◌==◌, ltb,
  if◌then◌else◌,
}
use aml.Base.Int.{ℤ, pos, minus_one, is_negative, is_zero}
use aml.World.{Ptr}

-- `struct default_work`: without work it tells the workers to leave.
pub data DefaultWork : Type 0 where
  sentinel : DefaultWork
  job : Ptr → DefaultWork

-- The static variables. `workers` is the number of threads that run.
pub record Pool : Type 0 where
  pub work_queue : List DefaultWork
  pub n_thread_pool_users : ℕ
  pub n_threads : ℕ
  pub workers : ℕ

-- `enqueue_work`, with what `calloc` succeeded in.
unfoldable pub enqueue_work : DefaultWork → Pool → Pool
enqueue_work work s = record s { work_queue = s.work_queue ++ work ∷ [] }

-- `dequeue_work` once the queue is not empty: the sentinel stays for the other workers.
unfoldable pub dequeue_work : List DefaultWork → Option (DefaultWork × List DefaultWork)
dequeue_work [] = none
dequeue_work (sentinel ∷ rest) = some (sentinel, sentinel ∷ rest)
dequeue_work (job p ∷ rest) = some (job p, rest)

-- `reap_threads`. Joining a thread that was never created has no meaning: `none`.
unfoldable pub reap_threads : Pool → Option Pool
unfolding enqueue_work
reap_threads s =
    let s' = enqueue_work sentinel s in
    if s'.workers == s'.n_threads then some (record s' { workers = 0; work_queue = [] }) else none

-- The loop of `thread_pool_acquire_default`, with `k` threads to go from index `i`: the index that it
-- ends with, the last result, and the threads that run.
unfoldable pub create_threads : (ℕ → ℤ) → ℕ → ℕ → ℤ → ℕ → ℕ × ℤ × ℕ
create_threads create zero i rc workers = (i, rc, workers)
create_threads create (suc k) i rc workers =
    let rest =
      create_threads create k (i + 1) (create i)
        (if is_zero (create i) then workers + 1 else workers) in
    if is_negative (create i) then (i, create i, workers) else rest

-- The end of `thread_pool_acquire_default`, from the assignment of n_threads on.
abbrev counted : Pool → ℕ × ℤ × ℕ → Option (Pool × ℤ)
counted s (i, rc, workers) =
    let s' : Pool = record s { n_threads = i; workers = workers } in
    if is_negative rc
    then (elim (reap_threads s') [ none ↦ none | some s'' ↦ some (s'', minus_one) ])
    else some (record s' { n_thread_pool_users = s.n_thread_pool_users + 1 }, rc)

-- `memory` is whether `realloc` succeeds.
unfoldable pub thread_pool_acquire_default : Bool → (ℕ → ℤ) → ℕ → Pool → Option (Pool × ℤ)
unfolding create_threads reap_threads
thread_pool_acquire_default memory create n s =
    if (if ltb s.n_threads n then memory else true)
    then counted s (create_threads create (n - s.n_threads) s.n_threads (pos 0) s.workers)
    else some (s, minus_one)

-- The counter is an int that the callers keep above 0: one release for each acquire.
unfoldable pub thread_pool_release_default : Pool → Option Pool
unfolding reap_threads
thread_pool_release_default s =
    let s' : Pool = record s { n_thread_pool_users = s.n_thread_pool_users - 1 } in
    if s'.n_thread_pool_users == 0 then reap_threads s' else some s'

-- With what `calloc` succeeded in.
unfoldable pub thread_pool_enqueue_default : Ptr → Pool → Pool
unfolding enqueue_work
thread_pool_enqueue_default p s = enqueue_work (job p) s
