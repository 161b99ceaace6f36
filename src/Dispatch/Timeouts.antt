-- ===== src/Dispatch/Timeouts.antt =====
-- The timeout of `aml_poll` in src/aml.c on its way through the backends of src/kqueue.c and
-- src/posix.c.
use aml.Base.{ℕ, ◌+◌, ◌*◌, ◌/◌, ◌%◌, ◌^◌, ◌≤◌, ◌<◌, ◌≡◌, ◌∙◌, ap, some, arith, refl, true, ltb}
use aml.Base.Int.{pos}
use aml.Dispatch.{timeout_ms}
use aml.Kqueue.Poll.{timespec_of}
use aml.Posix.Poller.{wait_until, wait_until_bounds}

-- A timeout that fits an int of milliseconds.
abbrev pub int_us : ℕ
int_us = 1000 * 2 ^ 31

timeout_ms_lem : (t : ℕ) → t < int_us → timeout_ms (pos t) ≡ pos (t / 1000)
unfolding timeout_ms
timeout_ms_lem t small =
    let fits : t / 1000 % 2 ^ 32 ≡ t / 1000 = omega arith in
    let low : ltb (t / 1000) (2 ^ 31) ≡ true = ground arith in rw (fits, low) refl

-- What a timeout of `t` microseconds is to the backends: `ms` milliseconds, for kevent() as a timespec,
-- and from the clock `(sec, nsec)` on for pthread_cond_timedwait().
pub record Waits (t ms sec nsec : ℕ) : Type 0 where
  pub poll : timeout_ms (pos t) ≡ pos ms
  pub not_after : ms * 1000 ≤ t
  pub not_before : t < ms * 1000 + 1000
  pub kqueue :
      (ts : ℕ × ℕ) × (timespec_of (timeout_ms (pos t)) ≡ some ts)
      × (ts.0 * 1000 + ts.1 / 1000000 ≡ ms)
      × (ts.1 < 1000000000)
  pub posix :
      let (sec', nsec') = wait_until ms sec nsec in
      (nsec' < 1000000000) × (sec' * 1000 + nsec' / 1000000 ≡ sec * 1000 + nsec / 1000000 + ms)

-- For a timeout of t microseconds, 0 <= t < 1000 * 2 ^ 31, aml_poll passes t / 1000 milliseconds to
-- the backend, which is at most t and less than a millisecond below it: the timespec that
-- src/kqueue.c makes of it, and the time that src/posix.c makes of it from a valid time on, have
-- their nanoseconds below 10 ^ 9 and are exactly that many milliseconds, or that many later, in
-- whole milliseconds.
pub timeout_ms_bounds :
    (t sec nsec : ℕ) → t < int_us → nsec < 1000000000 → Waits t (t / 1000) sec nsec
unfolding timespec_of
timeout_ms_bounds t sec nsec small valid = record {
  poll = timeout_ms_lem t small;
  not_after = omega arith;
  not_before = omega arith;
  kqueue = (
    (t / 1000 / 1000, t / 1000 % 1000 * 1000000),
    ap timespec_of (timeout_ms_lem t small) ∙ refl,
    omega arith,
    omega arith,
  );
  posix = wait_until_bounds (t / 1000) sec nsec (omega arith) valid;
}
