-- ===== src/ThreadPool/Counts.antt =====
-- The counters of src/thread-pool.c across acquire and release.
use aml.Base.{
  ℕ, zero, suc, ◌+◌, ◌-◌, ◌≡◌, ◌≤◌, Bool, true, false, some, [], if◌then◌else◌, arith, refl,
}
use aml.Base.Int.{ℤ, pos, is_negative, is_zero}
use aml.ThreadPool.{
  Pool, create_threads, reap_threads, thread_pool_acquire_default, thread_pool_release_default,
}

-- The results that pthread_create documents: 0, or a positive error number.
abbrev pub Documented : (ℕ → ℤ) → Type 0
Documented create = (i : ℕ) → is_negative (create i) ≡ false

-- How many of the `k` threads from index `i` on are created.
abbrev pub created : (ℕ → ℤ) → ℕ → ℕ → ℕ
created create zero i = 0
created create (suc k) i = (if is_zero (create i) then 1 else 0) + created create k (i + 1)

create_threads-created :
    (create : ℕ → ℤ) (k i : ℕ) (rc : ℤ) (workers : ℕ)
    → Documented create
    → is_negative rc ≡ false
    → ((create_threads create k i rc workers).0 ≡ i + k)
      × (is_negative (create_threads create k i rc workers).1 ≡ false)
      × ((create_threads create k i rc workers).2 ≡ workers + created create k i)
unfolding create_threads
create_threads-created create zero i rc workers documented ok = (omega arith, ok, omega arith)
create_threads-created create (suc k) i rc workers documented ok =
    let ih =
      create_threads-created create k (i + 1) (create i)
        (if is_zero (create i) then workers + 1 else workers) documented (documented i) in
    rw (documented i) (ground (arith, ih.0), ih.1, ground (arith, ih.2))

-- The pool and the result after an acquire that asks for `n` threads.
pub record IsAcquired (create : ℕ → ℤ) (n : ℕ) (s s' : Pool) (rc : ℤ) : Type 0 where
  pub accepted : is_negative rc ≡ false
  pub users : s'.n_thread_pool_users ≡ s.n_thread_pool_users + 1
  pub counted_threads : s'.n_threads ≡ s.n_threads + (n - s.n_threads)
  pub running : s'.workers ≡ s.workers + created create (n - s.n_threads) s.n_threads
  pub same_queue : s'.work_queue ≡ s.work_queue

-- If realloc succeeds and pthread_create returns 0 or a positive error number,
-- thread_pool_acquire_default of n threads succeeds with one user more: n_threads becomes the
-- larger of itself and n, only the new threads for which pthread_create returned 0 run besides the
-- old ones, and the queue is the same.
pub thread_pool_acquire_default-IsAcquired :
    (create : ℕ → ℤ) (n : ℕ) (s : Pool)
    → Documented create
    → (s' : Pool) × (rc : ℤ) × (thread_pool_acquire_default true create n s ≡ some (s', rc))
      × IsAcquired create n s s' rc
unfolding thread_pool_acquire_default
thread_pool_acquire_default-IsAcquired create n s documented =
    let all =
      create_threads-created create (n - s.n_threads) s.n_threads (pos 0) s.workers documented
        refl in
    let run = create_threads create (n - s.n_threads) s.n_threads (pos 0) s.workers in
    let s' : Pool = record s {
      n_thread_pool_users = s.n_thread_pool_users + 1;
      n_threads = run.0;
      workers = run.2;
    } in
    (
      s',
      run.1,
      ground (arith, all.1),
      record {
        accepted = all.1;
        users = refl;
        counted_threads = all.0;
        running = all.2;
        same_queue = refl;
      },
    )

-- When the last user releases a pool whose threads all run, the queue is emptied and a later
-- acquire of at most n_threads threads returns 0 with no thread running, whatever realloc and
-- pthread_create would do.
pub thread_pool_release_default-acquire_stale :
    (memory : Bool) (create : ℕ → ℤ) (n : ℕ) (s : Pool)
    → s.n_thread_pool_users ≡ 1
    → s.workers ≡ s.n_threads
    → n ≤ s.n_threads
    → (s1 : Pool) × (thread_pool_release_default s ≡ some s1)
      × (s1.work_queue ≡ [])
      × (s2 : Pool) × (thread_pool_acquire_default memory create n s1 ≡ some (s2, pos 0))
      × (s2.workers ≡ 0)
unfolding thread_pool_acquire_default thread_pool_release_default reap_threads create_threads
thread_pool_release_default-acquire_stale memory create n s last all small =
    let s1 : Pool = record s { n_thread_pool_users = 0; workers = 0; work_queue = [] } in
    let idle : n - s.n_threads ≡ 0 = omega arith in
    let s2 : Pool = record s1 { n_thread_pool_users = 1 } in
    (s1, ground arith, refl, s2, rw idle (ground arith), refl)
