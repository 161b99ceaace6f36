-- ===== src/Tests/Safety.antt =====
-- The theorems on src/aml.c at the store of `Tests.Store`.
use aml.Base.{◌≡◌, Option, none, arith, ◌==◌, if◌then◌else◌}
use aml.World.{Ptr, ok}
use aml.World.Safe.{Safe, Partial}
use aml.Timer.{get_timer_with_earliest_deadline, handle_timeout, handle_timeouts}
use aml.Timer.Earliest.{AllLive, IsEarliest, get_timer_with_earliest_deadline-IsEarliest}
use aml.Unref.{aml_unref}
use aml.Registry.{aml_start, aml_stop}
use aml.Dispatch.{handle_events}
use aml.Inv.{Held, ◌⊕◌, grab, Inv, Kept}
use aml.Inv.Step.{Inv-held}
use aml.Inv.Unref.{aml_unref-Kept}
use aml.Inv.Timeouts.{NothingDue, AfterTimeout, handle_timeout-AfterTimeout}
use aml.Inv.Firing.{IsPeriodic}
use aml.Inv.Ticks.{CaughtUp, handle_timeouts-CaughtUp}
use aml.Inv.Stopping.{aml_stop-Kept}
use aml.Inv.Starting.{aml_start-Kept}
use aml.Inv.Handling.{handle_events-Kept}
use aml.Tests.Quiet.{stopping, stopping-IsTame}
use aml.Tests.Store.{world, nobody, user, world-Inv}

handle_events-Kept_example : Partial (λ _. Kept 1 user) (handle_events stopping 3 world)
handle_events-Kept_example =
    handle_events-Kept stopping (stopping-IsTame 1) 3 nobody user world world-Inv (omega arith)

world-IsPeriodic : IsPeriodic 3900 world
world-IsPeriodic q x n at t active = ground arith

handle_timeouts-CaughtUp_example :
    Safe
      (λ _ w'. Inv 1 (nobody ⊕ user) w' × NothingDue 3900 w' × CaughtUp 3900 world w')
      (handle_timeouts 1000 3900 world)
handle_timeouts-CaughtUp_example =
    handle_timeouts-CaughtUp 3900 1000 world-Inv (omega arith) world-IsPeriodic (omega arith)

handle_timeout-AfterTimeout_example :
    Safe (AfterTimeout 1 (nobody ⊕ user) 3900 world) (handle_timeout 3900 world)
handle_timeout-AfterTimeout_example = handle_timeout-AfterTimeout 3900 world-Inv (omega arith)

aml_start-Kept_example : Safe (λ _. Kept 1 user) (aml_start stopping 4 world)
aml_start-Kept_example =
    aml_start-Kept stopping (stopping-IsTame 1) nobody user world 4 world-Inv (omega arith)
      (omega arith) (λ o at e. ground arith)

aml_stop-Kept_example : Safe (λ _. Kept 1 user) (aml_stop stopping 3 world)
aml_stop-Kept_example =
    aml_stop-Kept stopping (stopping-IsTame 1) nobody user world 3 world-Inv (omega arith)
      (omega arith)

-- The user without a reference to the handler.
abbrev pub but_handler : Held
but_handler p = if p == 1 then 1 else if p == 2 then 1 else if p == 3 then 1 else 0

pub world_grabbed : Inv 1 (nobody ⊕ grab 4 but_handler) world
world_grabbed = Inv-held (λ p. ground arith) world-Inv

aml_unref-Kept_example :
    Safe (λ n w'. Kept 1 but_handler w' × (n ≡ 0 → w'.objs 4 ≡ none)) (aml_unref stopping 4 world)
aml_unref-Kept_example =
    aml_unref-Kept stopping (stopping-IsTame 1).free nobody but_handler world 4 world_grabbed
      (omega arith)

world-AllLive : AllLive world world.timer_list
world-AllLive q n = ground arith

get_timer_with_earliest_deadline-IsEarliest_example :
    (res : Option Ptr) × (get_timer_with_earliest_deadline world ≡ ok res world)
    × IsEarliest world res
get_timer_with_earliest_deadline-IsEarliest_example =
    get_timer_with_earliest_deadline-IsEarliest world world-AllLive
