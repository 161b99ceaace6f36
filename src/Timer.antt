-- ===== src/Timer.antt =====
-- Timers and tickers of src/aml.c: the clock, the timer with the earliest deadline, and timeouts.
pub mod Earliest
use aml.Base.{
  ℕ, zero, suc, ◌+◌, ◌*◌, ◌-◌, ◌/◌, ◌%◌, ◌^◌, Bool, true, false, not, ◌&&◌, Option, none, some,
  List, [], ◌∷◌, ltb, if◌then◌else◌,
}
use aml.World.{
  Ptr, Obj, ObjType, timer, ticker, Cmd, ok, out_of_fuel, pure, fail, ◌>>=◌, ◌>>◌, load, store, get,
  when,
}
use aml.World.Env.{Env}
use aml.Queue.{aml_emit}

abbrev pub uint64_max : ℕ
uint64_max = 2 ^ 64 - 1

-- The test in the loop: not expired, and before the best so far.
abbrev pub is_earlier : Obj → ℕ → Bool
is_earlier o deadline = not o.expired && ltb o.deadline deadline

module _ {S : Type 0} where
  unfoldable pub scan_timers : List Ptr → ℕ → Option Ptr → Cmd S (Option Ptr)
  scan_timers [] deadline result = pure result
  scan_timers (p ∷ ps) deadline result = do
    o ← load p
    let better = is_earlier o deadline
    scan_timers ps (if better then o.deadline else deadline) (if better then some p else result)

  -- `aml__get_timer_with_earliest_deadline`
  unfoldable pub get_timer_with_earliest_deadline : Cmd S (Option Ptr)
  get_timer_with_earliest_deadline = do
    timers ← get (λ w. w.timer_list)
    scan_timers timers uint64_max none

  -- The switch in `aml__handle_timeout`.
  abbrev pub after_timeout : ObjType → Ptr → Cmd S (Unit {0})
  after_timeout timer p = do o ← load p; store p (record o { expired = true })
  after_timeout ticker p = do
    o ← load p
    store p (record o { deadline = (o.deadline + o.timeout) % 2 ^ 64 })
  after_timeout _ p = fail

  abbrev pub fire_timer : Ptr → Cmd S Bool
  fire_timer p = do aml_emit p 0; o ← load p; after_timeout o.kind p; pure true

  abbrev pub timeout_of : ℕ → Option Ptr → Cmd S Bool
  timeout_of now none = pure false
  timeout_of now (some p) = do o ← load p; if ltb now o.deadline then pure false else fire_timer p

  -- `aml__handle_timeout`
  unfoldable pub handle_timeout : ℕ → Cmd S Bool
  handle_timeout now = do t ← get_timer_with_earliest_deadline; timeout_of now t

  -- `while (aml__handle_timeout(self, now));`
  unfoldable pub handle_timeouts : ℕ → ℕ → Cmd S (Unit {0})
  handle_timeouts zero now = λ w. out_of_fuel
  handle_timeouts (suc fuel) now = do
    more ← handle_timeout now
    when more (handle_timeouts fuel now)

  -- `aml__gettime_us`
  unfoldable pub gettime_us : Env S → Cmd S ℕ
  gettime_us env =
      λ w. ok ((env.clock_sec w * 1000000 % 2 ^ 64 + env.clock_nsec w / 1000) % 2 ^ 64) w
