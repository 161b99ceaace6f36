-- ===== src/Inv/Returning.antt =====
-- `aml_dispatch` of src/aml.c returns where callbacks emit nothing: its three loops have enough fuel.
use aml.Base.{
  ℕ, zero, suc, ◌+◌, ◌*◌, ◌/◌, ◌%◌, ◌^◌, ◌≤◌, ◌<◌, ◌≡◌, Option, none, some, Bool, true, false,
  arith, refl, ap, length, inl, inr, ◌⊎◌, ltb, ◌∙◌,
}
use aml.World.{Ptr, World, when}
use aml.World.Env.{Env}
use aml.World.Safe
use aml.World.Safe.{Safe, returns, Within-Safe}
use aml.World.Keeps.{with_IfOk}
use aml.World.Calm.{
  pending_events, IsCalm, pure-IsCalm, fail-IsCalm, if-IsCalm, load-IsCalm, bind-IsCalm,
}
use aml.Timer.{uint64_max, handle_timeouts, gettime_us}
use aml.Timer.Earliest.{get_timer_with_earliest_deadline-IsEarliest}
use aml.Dispatch.{announce_deadline, aml_dispatch}
use aml.Calm.{IsCalmEnv}
use aml.Inv.{Held, ◌⊕◌, Inv, Kept}
use aml.Inv.Timeouts.{Fired, NothingDue, Due, handle_timeout-AfterTimeout, timers_live}
use aml.Inv.Firing.{IsPeriodic, total_firings, firings-Fired, IsPeriodic-Fired}
use aml.Inv.Draining.{pending_events-Fired, handle_events-Within}
use aml.Inv.Idle.{handle_idle-Within}
use aml.Inv.Running.{IsRunning, announce_deadline-Kept, or_skip-Kept}

-- No more events than one for each firing that was due, and the idle list as it was.
abbrev Timed : {S : Type 0} → Ptr → Held → ℕ → World S → World S → Type 0
Timed loop held now w w' =
    Inv loop held w'
    × NothingDue now w'
    × (pending_events w' ≤ pending_events w + total_firings now w w.timer_list)
    × (w'.idle_list ≡ w.idle_list)

module _ {S : Type 0} {loop : Ptr} {held : Held} (now : ℕ) (bound : now < uint64_max) where
  handle_timeouts-Timed :
      (fuel : ℕ) (w : World S)
      → Inv loop held w
      → IsPeriodic now w
      → total_firings now w w.timer_list < fuel
      → Safe (λ _. Timed loop held now w) (handle_timeouts fuel now w)
  unfolding handle_timeouts
  handle_timeouts-Timed zero w v periodic enough = absurd (omega arith)
  handle_timeouts-Timed (suc fuel) w v periodic enough =
      Safe.bind (handle_timeout-AfterTimeout now v bound)
        λ more w' (v', after). next (handle_timeouts-Timed fuel) more w' v' after
    where
      next :
          ((w' : World S)
            → Inv loop held w'
            → IsPeriodic now w'
            → total_firings now w' w'.timer_list < fuel
            → Safe (λ _. Timed loop held now w') (handle_timeouts fuel now w'))
          → (more : Bool) (w' : World S) → Inv loop held w'
          → ((more ≡ false) × (w' ≡ w) × NothingDue now w)
            ⊎ ((more ≡ true) × (d : Due now w) × Fired d.timer d.obj w w')
          → Safe (λ _. Timed loop held now w) (when more (handle_timeouts fuel now) w')
      next ih more w' v' (inl (e, same, quiet)) =
          rw (e, same) (returns (v, quiet, omega arith, refl))
      next ih more w' v' (inr (e, d, f)) =
          let less = firings-Fired v periodic d f in
          let grown = pending_events-Fired v d.timer d.obj d.at f in
          rw e (
            Safe.mono (ih w' v' (IsPeriodic-Fired v periodic d f) (omega (arith, less)))
              λ _ w'' (v'', quiet, few, same).
                (v'', quiet, omega (arith, few, grown, less), same ∙ f.idle_list))

module _ {S : Type 0} (env : Env S) {loop : Ptr} (is : IsRunning loop env)
    (calm : IsCalmEnv env) where
  announce_deadline-IsCalm : (now : ℕ) (p : Option Ptr) → IsCalm (announce_deadline env now p)
  announce_deadline-IsCalm now none = pure-IsCalm tt
  announce_deadline-IsCalm now (some p) = load-IsCalm p λ w o at.
      (if-IsCalm (ltb now o.deadline)
          (bind-IsCalm (calm.set_deadline o.deadline) λ _. pure-IsCalm tt) fail-IsCalm).calm
        w

  -- The time that `aml_dispatch` reads.
  abbrev pub clock_us : World S → ℕ
  clock_us w = (env.clock_sec w * 1000000 % 2 ^ 64 + env.clock_nsec w / 1000) % 2 ^ 64

  -- From a store that satisfies the invariant and in which the caller holds the loop,
  -- aml_dispatch returns and never faults, unless a reference count would pass INT_MAX, with
  -- fuel above the number of pending events and of firings that are due together, and above the
  -- number of idle objects: the invariant and the references of the caller are kept, if each
  -- started ticker that has not expired has a period other than 0 with now + period below 2^64,
  -- the backend and the user code return, give up only references of their own and add no event
  -- to the queue and no object to the idle list, the callback of an idle object, called while
  -- the object is on the idle list, takes nothing off that list but its own object, with what
  -- it starts in front, and the clock stays below UINT64_MAX.
  pub aml_dispatch-Returns :
      (fuel : ℕ) (u k : Held) (w : World S)
      → Inv loop (u ⊕ k) w
      → 0 < k loop
      → IsPeriodic (clock_us w) w
      → pending_events w + total_firings (clock_us w) w w.timer_list < fuel
      → length w.idle_list < fuel
      → Safe (λ _. Kept loop k) (aml_dispatch env fuel w)
  unfolding aml_dispatch gettime_us
  aml_dispatch-Returns fuel u k w v l periodic enough idle =
      let now = clock_us w in
      Safe.bind (handle_timeouts-Timed now (is.clock w) fuel w v periodic (omega arith))
        λ _ w1 (v1, quiet, few, same).
          let (res, run, earliest) =
            get_timer_with_earliest_deadline-IsEarliest w1 (timers_live 0 v1) in
          rw run (
            Safe.bind
              (with_IfOk (announce_deadline-Kept env is now u k w1 res v1 l quiet earliest)
                ((announce_deadline-IsCalm now res).calm w1))
              λ _ w2 ((u2, v2), c2).
                Safe.bind
                  (Within-Safe (omega (arith, few, c2.events))
                    (handle_events-Within env is.tame calm fuel u2 k w2 v2 l))
                  λ _ w3 ((u3, v3), short).
                    let as_long : length w1.idle_list ≡ length w.idle_list = ap length same in
                    Safe.bind
                      (Within-Safe (omega (arith, c2.idle, as_long, short))
                        (handle_idle-Within env is.idle fuel u3 k w3 v3 l))
                      λ _ w4 (u4, v4).
                        or_skip-Kept env is env.backend.post_dispatch refl u4 k w4 v4 l)
