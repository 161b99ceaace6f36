-- ===== src/Inv/Running.antt =====
-- `aml_dispatch` and `aml_run` of src/aml.c as a whole, and the invariant.
use aml.Base.{
  ap, ◌∙◌, if◌then◌else◌, ℕ, zero, suc, ◌+◌, ◌*◌, ◌/◌, ◌%◌, ◌^◌, ◌≡◌, ◌<◌, Option, none, some, Bool,
  true, false, ltb, arith, refl, inl, inr, ◌⊎◌,
}
use aml.Base.Int.{ℤ, pos, minus_one}
use aml.World.{pure, Ptr, World, Cmd, load, when}
use aml.World.Env.{Env}
use aml.World.Safe
use aml.World.Safe.{Safe, Partial, returns, done, starves, Within-Partial}
use aml.Timer.{uint64_max, handle_timeouts, gettime_us}
use aml.Timer.Earliest.{IsEarliest, get_timer_with_earliest_deadline-IsEarliest}
use aml.Stop.{or_skip}
use aml.Dispatch.{announce_deadline, aml_dispatch, aml_poll, run_rounds, aml_run, timeout_ms}
use aml.Inv.{Held, ◌⊕◌, Inv, Kept, Frames}
use aml.Inv.Tame.{IsTame, discard-Frames}
use aml.Inv.Timeouts.{Fired, NothingDue, Due, handle_timeout-AfterTimeout, timers_live}
use aml.Inv.Handling.{handle_events-Kept}
use aml.Inv.Idle.{StopsOnlyItself, handle_idle-Within}

-- What the backend and the user code keep to while the loop runs; the clock has not come to its end.
pub record IsRunning {S : Type 0} (loop : Ptr) (env : Env S) : Type 0 where
  pub tame : IsTame loop env
  pub idle : StopsOnlyItself loop env
  pub poll : (timeout : ℤ) → Frames loop (env.backend.poll timeout)
  pub post_dispatch : (c : Cmd S (Unit {0})) → env.backend.post_dispatch ≡ some c → Frames loop c
  pub clock :
      (w : World S)
      → (env.clock_sec w * 1000000 % 2 ^ 64 + env.clock_nsec w / 1000) % 2 ^ 64 < uint64_max

module _ {S : Type 0} {loop : Ptr} {held : Held} (now : ℕ) (bound : now < uint64_max) where
  -- The loop over the timeouts, with any fuel.
  handle_timeouts-Partial :
      (fuel : ℕ) (w : World S)
      → Inv loop held w
      → Partial (λ _ w'. Inv loop held w' × NothingDue now w') (handle_timeouts fuel now w)
  unfolding handle_timeouts
  handle_timeouts-Partial zero w v = starves
  handle_timeouts-Partial (suc fuel) w v =
      Safe.bind-Partial (Safe.Safe-Partial (handle_timeout-AfterTimeout now v bound))
        λ more w' (v', after). next (handle_timeouts-Partial fuel w' v') more after v'
    where
      next :
          {w' : World S}
          → Partial (λ _ w''. Inv loop held w'' × NothingDue now w'') (handle_timeouts fuel now w')
          → (more : Bool)
          → ((more ≡ false) × (w' ≡ w) × NothingDue now w)
            ⊎ ((more ≡ true) × (d : Due now w) × Fired d.timer d.obj w w')
          → Inv loop held w'
          → Partial
              (λ _ w''. Inv loop held w'' × NothingDue now w'')
              (when more (handle_timeouts fuel now) w')
      next again true after v' = again
      next again false (inl (e, same, quiet)) v' = done (v', rw same quiet)
      next again false (inr (e, d, fired)) v' = absurd (cc)

module _ {S : Type 0} {loop : Ptr} {held : Held} {w : World S} {b : Bool} where
  pub do_exit-Inv : Inv loop held w → Inv loop held (record w { do_exit = b })
  do_exit-Inv v = record {
    core = record {
      this = v.core.this;
      balance = v.core.balance;
      queued = v.core.queued;
      fits = v.core.fits;
      once = v.core.once;
      typed = v.core.typed;
      one_loop = v.core.one_loop;
      is_loop = v.core.is_loop;
      linked = v.core.linked;
      linking = v.core.linking;
    };
    timers = v.timers;
    idles = v.idles;
  }

module _ {S : Type 0} (env : Env S) {loop : Ptr} (is : IsRunning loop env) where
  pub announce_deadline-Kept :
      (now : ℕ) (u k : Held) (w : World S) (res : Option Ptr)
      → Inv loop (u ⊕ k) w
      → 0 < k loop
      → NothingDue now w
      → IsEarliest w res
      → Safe (λ _. Kept loop k) (announce_deadline env now res w)
  announce_deadline-Kept now u k w none v l quiet e = returns (u, v)
  announce_deadline-Kept now u k w (some p) v l quiet (inl (e, _)) = absurd (cc)
  announce_deadline-Kept now u k w (some p) v l quiet (inr (q, e, best)) =
      let same : p ≡ q = cc in
      let at : w.objs p ≡ some best.obj = ap w.objs same ∙ best.at in
      let later : ltb now best.obj.deadline ≡ true =
        ground (arith, quiet q best.obj best.listed best.at best.active) in
      rw (at, load, later) (discard-Frames (is.tame.set_deadline best.obj.deadline) u k w v l)

  pub or_skip-Kept :
      (c : Option (Cmd S (Unit {0}))) → env.backend.post_dispatch ≡ c → Frames loop (or_skip c)
  or_skip-Kept none e u k w v l = returns (u, v)
  or_skip-Kept (some c) e u k w v l = is.post_dispatch c e u k w v l

  -- From a store that satisfies the invariant and in which the caller holds the loop,
  -- aml_dispatch with any fuel never faults, the assertion on the earliest deadline included:
  -- it ends with the invariant and the references of the caller kept, or a reference count
  -- would pass INT_MAX, or the fuel runs out, if the backend and the user code return and give
  -- up only references of their own, the callback of an idle object, called while the object is
  -- on the idle list, takes nothing off that list but its own object, with what it starts in
  -- front, and the clock stays below UINT64_MAX.
  pub aml_dispatch-Kept :
      (fuel : ℕ) (u k : Held) (w : World S)
      → Inv loop (u ⊕ k) w
      → 0 < k loop
      → Partial (λ _. Kept loop k) (aml_dispatch env fuel w)
  unfolding aml_dispatch gettime_us
  aml_dispatch-Kept fuel u k w v l =
      let now = (env.clock_sec w * 1000000 % 2 ^ 64 + env.clock_nsec w / 1000) % 2 ^ 64 in
      Safe.bind-Partial (handle_timeouts-Partial now (is.clock w) fuel w v) λ _ w1 (v1, quiet).
        let (res, run, earliest) =
          get_timer_with_earliest_deadline-IsEarliest w1 (timers_live 0 v1) in
        rw run (
          Safe.bind-Partial
            (Safe.Safe-Partial (announce_deadline-Kept now u k w1 res v1 l quiet earliest))
            λ _ w2 (u2, v2).
              Safe.bind-Partial (handle_events-Kept env is.tame fuel u2 k w2 v2 l) λ _ w3 (u3, v3).
                Safe.bind-Partial
                  (Within-Partial (handle_idle-Within env is.idle fuel u3 k w3 v3 l))
                  λ _ w4 (u4, v4).
                    Safe.Safe-Partial (or_skip-Kept env.backend.post_dispatch refl u4 k w4 v4 l))

  -- What `aml_run` returns.
  abbrev pub Exited : Held → ℤ → World S → Type 0
  Exited k res w = (res ≡ pos 0) × (w.do_exit ≡ true) × Kept loop k w

  run_rounds-Exited :
      (fuel : ℕ) (u k : Held) (w : World S)
      → Inv loop (u ⊕ k) w
      → 0 < k loop
      → Partial (Exited k) (run_rounds env fuel w)
  unfolding run_rounds aml_poll
  run_rounds-Exited zero u k w v l = starves
  run_rounds-Exited (suc fuel) u k w v l =
      Safe.bind-Partial (Safe.Safe-Partial (is.poll (timeout_ms minus_one) u k w v l))
        λ _ w1 (u1, v1). Safe.bind-Partial (aml_dispatch-Kept fuel u1 k w1 v1 l) λ _ w2 (u2, v2).
          exit_or (run_rounds env fuel) u2 w2 (run_rounds-Exited fuel u2 k w2 v2 l) v2 w2.do_exit
            refl
    where
      exit_or :
          (again : Cmd S ℤ) (u2 : Held) (w2 : World S)
          → Partial (Exited k) (again w2)
          → Inv loop (u2 ⊕ k) w2
          → (b : Bool) → w2.do_exit ≡ b
          → Partial (Exited k) ((if b then pure (pos 0) else again) w2)
      exit_or again u2 w2 r v2 true e = done (refl, e, (u2, v2))
      exit_or again u2 w2 r v2 false e = r

  -- From a store that satisfies the invariant and in which the caller holds the loop, aml_run
  -- with any fuel never faults, the assertion on the earliest deadline included: it returns 0
  -- with do_exit set and the invariant and the references of the caller kept, or a reference
  -- count would pass INT_MAX, or the fuel runs out, since the loop goes on until aml_exit, if
  -- the backend and the user code return and give up only references of their own, the callback
  -- of an idle object, called while the object is on the idle list, takes nothing off that list
  -- but its own object, with what it starts in front, and the clock stays below UINT64_MAX.
  pub aml_run-Exited :
      (fuel : ℕ) (u k : Held) (w : World S)
      → Inv loop (u ⊕ k) w
      → 0 < k loop
      → Partial (Exited k) (aml_run env fuel w)
  unfolding aml_run
  aml_run-Exited fuel u k w v l =
      run_rounds-Exited fuel u k (record w { do_exit = false }) (do_exit-Inv v) l
