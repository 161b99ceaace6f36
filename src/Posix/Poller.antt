-- ===== src/Posix/Poller.antt =====
-- The poller thread of src/posix.c and the thread that runs the loop: `posix_poll_thread`,
-- `posix_wake_up_main`, `posix_poll` and `posix_post_dispatch`, one critical section a step. A thread
-- that waits on a condition variable takes its step once the condition holds.
use aml.Base.{ℕ, ◌+◌, ◌*◌, ◌/◌, ◌%◌, ◌^◌, ◌≡◌, ◌≢◌, ◌<◌, arith, Bool, true, false}
use aml.Base.Int.{ℤ, pos}

-- Where the poller thread stands.
pub data PollerPc : Type 0 where
  running : PollerPc  -- applies the operations, or is in poll()
  polled : (nfds : ℤ) → PollerPc  -- start of `posix_wake_up_main`
  flagged : (nfds : ℤ) → PollerPc  -- before it locks `wait_mutex`
  parked : PollerPc  -- waits for the dispatch

-- Where the thread that calls `aml_poll` and `aml_dispatch` in turn stands.
pub data MainPc : Type 0 where
  polling : MainPc  -- in `posix_poll`, before it takes `nfds`
  dispatching : (nfds : ℤ) → MainPc  -- from there to the end of `posix_post_dispatch`

pub record Threads : Type 0 where
  pub nfds : ℤ
  pub waiting_for_dispatch : Bool
  pub poller : PollerPc
  pub main : MainPc

-- `calloc`, with both threads at the start.
abbrev pub started : Threads
started = record { nfds = pos 0; waiting_for_dispatch = false; poller = running; main = polling }

-- Where `blocking` is true, `posix_poll` is called with a negative timeout only.
pub data Step (blocking : Bool) (s : Threads) : Threads → Type 0 where
  poll_again : s.poller ≡ running → Step blocking s s
  poll_returns :
      (n : ℤ) → n ≢ pos 0 → s.poller ≡ running → Step blocking s (record s { poller = polled n })
  flag :
      (n : ℤ)
      → s.poller ≡ polled n
      → Step blocking s (record s { waiting_for_dispatch = true; poller = flagged n })
  publish :
      (n : ℤ) → s.poller ≡ flagged n → Step blocking s (record s { nfds = n; poller = parked })
  leave :
      s.poller ≡ parked
      → s.waiting_for_dispatch ≡ false
      → Step blocking s (record s { poller = running })
  take :
      s.main ≡ polling
      → s.nfds ≢ pos 0
      → Step blocking s (record s { nfds = pos 0; main = dispatching s.nfds })
  give_up :
      blocking ≡ false
      → s.main ≡ polling
      → Step blocking s (record s { nfds = pos 0; main = dispatching s.nfds })
  post_dispatch :
      (n : ℤ)
      → s.main ≡ dispatching n
      → Step blocking s (record s { waiting_for_dispatch = false; main = polling })

pub data Reach (blocking : Bool) (s : Threads) : Threads → Type 0 where
  here : Reach blocking s s
  next : {t u : Threads} → Reach blocking s t → Step blocking t u → Reach blocking s u

-- The time until which `posix_poll` waits for a positive timeout, in seconds and nanoseconds.
unfoldable pub wait_until : (timeout sec nsec : ℕ) → ℕ × ℕ
wait_until timeout sec nsec =
    let ms = (timeout + nsec / 1000000) % 2 ^ 32 in (sec + ms / 1000, ms % 1000 * 1000000)

-- For a timeout below 2^31 milliseconds and a valid nanosecond part of the clock, the time until
-- which posix_poll waits is the timeout after the clock to the millisecond, although it is computed
-- in 32 bits, and its nanosecond part is below 10^9.
pub wait_until_bounds :
    (timeout sec nsec : ℕ)
    → timeout < 2 ^ 31
    → nsec < 1000000000
    → let (sec', nsec') = wait_until timeout sec nsec in
      (nsec' < 1000000000) × (sec' * 1000 + nsec' / 1000000 ≡ sec * 1000 + nsec / 1000000 + timeout)
unfolding wait_until
wait_until_bounds timeout sec nsec small valid = (omega arith, omega arith)
