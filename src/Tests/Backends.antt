-- ===== src/Tests/Backends.antt =====
-- The theorems on src/epoll.c, src/posix.c, src/kqueue.c and src/thread-pool.c at concrete inputs.
use aml.Base.{
  List, ◌≡◌, ◌+◌, ℕ, none, some, arith, refl, ◌==◌, if◌then◌else◌, true, false, [], ◌∷◌, inl, inr,
  Bool-cases,
}
use aml.Base.Int.{ℤ, pos}
use aml.World.{Ptr}
use aml.Posix.{FdOp, add_fd_op, mod_fd_op, del_fd_op, apply_fd_ops, PollFd, Table, Handlers}
use aml.Posix.Maps.{RowMap, Refines, map_op, map_ops}
use aml.Posix.Ops.{Applied, apply_fd_ops-Applied}
use aml.Posix.Rows.{Row, IsTable}
use aml.Kqueue.{changes, removals}
use aml.Kqueue.Filters.{apply_changes, filters_of, apply_changes-changes}
use aml.ThreadPool.{Pool, job, thread_pool_acquire_default, thread_pool_release_default}
use aml.ThreadPool.Counts.{
  Documented, IsAcquired, thread_pool_acquire_default-IsAcquired,
  thread_pool_release_default-acquire_stale,
}

-- Handlers with the descriptor 10 above their address, and the constants of Linux.
abbrev handlers : Handlers
handlers = record { fd_of = λ p. p + 10; mask_of = λ p. 1; pollin = 1; pollpri = 2; pollout = 4 }

abbrev no_fd : PollFd
no_fd = record { fd = 0; events = 0; revents = 0 }

-- Two places, both in use.
abbrev table : Table
table = record {
  fds = λ i. no_fd;
  handlers = λ i. if i == 0 then 4 else 6;
  max_fds = 2;
  num_fds = 2;
  fd_ops = [];
}

table-IsTable : IsTable table
table-IsTable = record {
  room = omega arith;
  some_room = omega arith;
  fits = omega arith;
  unique = λ i j li lj e. ground arith;
}

apply_changes-changes_example :
    (apply_changes (changes 7 1 6) (filters_of 1) ≡ some (filters_of 6))
    × (apply_changes (removals 7 1) (filters_of 1)
        ≡ some (record { reading = false; writing = false }))
apply_changes-changes_example = apply_changes-changes 7 1 6 (omega arith) (omega arith)

-- Two threads run for one user, and work is queued.
abbrev pool : Pool
pool = record { work_queue = job 8 ∷ []; n_thread_pool_users = 1; n_threads = 2; workers = 2 }

-- The third thread cannot be created: EAGAIN.
abbrev create : ℕ → ℤ
create i = if i == 2 then pos 11 else pos 0

create-Documented : Documented create
create-Documented i = elim (Bool-cases (i == 2)) [ inl e ↦ rw e refl | inr e ↦ rw e refl ]

thread_pool_acquire_default-IsAcquired_example :
    (s' : Pool) × (rc : ℤ) × (thread_pool_acquire_default true create 4 pool ≡ some (s', rc))
    × IsAcquired create 4 pool s' rc
thread_pool_acquire_default-IsAcquired_example =
    thread_pool_acquire_default-IsAcquired create 4 pool create-Documented

thread_pool_release_default-acquire_stale_example :
    (s1 : Pool) × (thread_pool_release_default pool ≡ some s1)
    × (s1.work_queue ≡ [])
    × (s2 : Pool) × (thread_pool_acquire_default true create 2 s1 ≡ some (s2, pos 0))
    × (s2.workers ≡ 0)
thread_pool_release_default-acquire_stale_example =
    thread_pool_release_default-acquire_stale true create 2 pool refl refl (omega arith)

-- The rows of the table by handler.
abbrev table_rows : RowMap
table_rows p = if p == 4 then some no_fd else if p == 6 then some no_fd else none

table-Refines : Refines table table_rows
table-Refines = record {
  table = table-IsTable;
  rows = λ q r. (to q r, from q r);
  small = omega arith;
}
  where
    to : (q : Ptr) (r : PollFd) → Row table q r → table_rows q ≡ some r
    to q r (i, li, hi, fi) = ground arith

    from : (q : Ptr) (r : PollFd) → table_rows q ≡ some r → Row table q r
    from q r e = elim (Bool-cases (q == 4)) [
      | inl first ↦ (0, omega arith, ground arith, ground arith)
      | inr other ↦ (1, omega arith, ground arith, ground arith)
    ]

-- A handler is deleted, another added, and a third one changes its mask.
abbrev operations : List (FdOp × Ptr)
operations = (del_fd_op, 4) ∷ (add_fd_op, 7) ∷ (mod_fd_op, 6) ∷ []

apply_fd_ops-Applied_example :
    Applied handlers
      (map_ops handlers operations table_rows)
      (apply_fd_ops handlers true operations table)
unfolding map_op
apply_fd_ops-Applied_example =
    apply_fd_ops-Applied handlers operations table table_rows table-Refines (omega arith)
      (tt, (refl, (tt, tt)))
