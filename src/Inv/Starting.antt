-- ===== src/Inv/Starting.antt =====
-- `aml_start` and the invariant.
use aml.Base.{
  ◌+◌, ◌*◌, ◌/◌, ◌%◌, ◌^◌, ◌≡◌, ◌<◌, Option, none, some, true, false, arith, ◌==◌, count, refl,
  Bool-cases, inl, inr, has, count-has, ltb,
}
use aml.World.{
  Ptr, ObjType, unspec, main_loop, handler, timer, ticker, signal, work, idle, Obj, World, Cmd, ok,
  pure, ◌>>=◌, ◌>>◌, load, put, Rc, success, failure, int_limit,
}
use aml.World.Env.{Env}
use aml.Object.{is_timer, is_ticker, is_idle}
use aml.World.Views.{kind_at}
use aml.World.Safe
use aml.World.Safe.{Safe, returns, overflows}
use aml.Timer.{gettime_us}
use aml.Timer.Earliest.{get_timer_with_earliest_deadline-IsEarliest}
use aml.Stop.{set_parent, on_success}
use aml.Registry.{
  obj_try_add, aml_interrupt, interrupt_or, points_to, start_handler, start_expired, arm_timer,
  start_timer, start_kind, start_added, or_remove, aml_start,
}
use aml.Inv.{Held, ◌⊕◌, Core, Inv, Kept, Frames}
use aml.Inv.Step.{put-Core}
use aml.Inv.Refs.{with_ref, find, aml_ref_lem}
use aml.Inv.Events.{aml_emit-Inv}
use aml.Inv.Timeouts.{timers_live}
use aml.Inv.Tame.{IsTame, FramesStart, discard-Frames}
use aml.Inv.Stopping.{set_parent-Kept, obj_remove_lem, unlisted-Inv}
use aml.Inv.Listed.{listed, listed-Core, listed-Inv, timer-Inv, idle-Inv}

module _ {S : Type 0} (env : Env S) {loop : Ptr} (tame : IsTame loop env) where
  interrupt_or-Frames :
      (c : Option (Cmd S (Unit {0}))) → env.backend.interrupt ≡ c → Frames loop (interrupt_or env c)
  interrupt_or-Frames none e u k w v l = tame.write w.self_pipe_wfd u k w v l
  interrupt_or-Frames (some c) e u k w v l = tame.interrupt c e u k w v l

  pub aml_interrupt-Frames : Frames loop (aml_interrupt env)
  unfolding aml_interrupt
  aml_interrupt-Frames = interrupt_or-Frames env.backend.interrupt refl

  start_handler-Frames : (p : Ptr) → FramesStart loop p (start_handler env p)
  unfolding start_handler
  start_handler-Frames p u k w v l lp n = Safe.bind (tame.add_fd p u k w v l lp n) next
    where
      next :
          (rc : Rc) (w' : World S)
          → Kept loop k w'
            × (rc ≡ failure → (0 < count p w'.obj_list) × (kind_at w' p ≡ kind_at w p))
          → Safe
              (λ rc w'.
                Kept loop k w'
                × (rc ≡ failure → (0 < count p w'.obj_list) × (kind_at w' p ≡ kind_at w p)))
              (on_success rc
                ((λ w. ok w.self w) >>= λ self. set_parent p (some self) >> pure success)
                w')
      next failure w' after = returns after
      next success w' ((u', v'), _) =
          Safe.bind (set_parent-Kept env tame u' k w' p (some w'.self) v' lp)
            λ _ _ kept. returns (kept, λ e. absurd (cc))

  module _ (u k : Held) (w : World S) (p : Ptr) (o : Obj) (v : Inv loop (u ⊕ k) w)
      (at : w.objs p ≡ some o) (l : 0 < k loop) (lp : 0 < k p) where
    start_expired-Kept :
        is_ticker o.kind ≡ false
        → Safe (λ rc w'. Kept loop k w' × (rc ≡ success)) (start_expired env p w)
    unfolding start_expired
    start_expired-Kept t =
        rw (at, load, t)
          (Safe.bind (aml_emit-Inv v p 0 (ground (arith, v.core.balance p))) λ _ w1 v1.
            Safe.bind (aml_interrupt-Frames u k w1 v1 l) λ _ w2 kept. returns (kept, refl))

    arm_timer-Kept : Safe (λ rc w'. Kept loop k w' × (rc ≡ success)) (arm_timer env p w)
    unfolding arm_timer
    arm_timer-Kept =
        let (res, run, _) = get_timer_with_earliest_deadline-IsEarliest w (timers_live 0 v) in
        rw (run, at, load)
          (elim (Bool-cases (points_to res p)) [
            | inl is ↦ rw is (
                Safe.bind (discard-Frames (tame.set_deadline o.deadline) u k w v l)
                  λ _ w1 kept. returns (kept, refl))
            | inr other ↦ rw other (returns ((u, v), refl))
          ])

  -- After `aml__start_unchecked`: where it fails, only `obj_list` has the object.
  abbrev AfterStart : Held → Ptr → Rc → World S → Type 0
  AfterStart k p rc w' =
      Kept loop k w'
      × (rc ≡ failure
          → (0 < count p w'.obj_list)
            × (is_timer (kind_at w' p) ≡ false)
            × (is_idle (kind_at w' p) ≡ false))

  module _ (u k : Held) (w : World S) (p : Ptr) (o : Obj) (v : Inv loop (u ⊕ k) w)
      (at : w.objs p ≡ some o) (stopped : has p w.obj_list ≡ false)
      (small : ltb (o.ref + 1) int_limit ≡ true) (l : 0 < k loop) (lp : 0 < k p) where
    -- Of the types whose start is a call of the backend.
    outside-After :
        (c : Cmd S Rc)
        → is_timer o.kind ≡ false
        → is_idle o.kind ≡ false
        → FramesStart loop p c
        → Safe (AfterStart k p) (c (listed p o w))
    outside-After c t i f =
        Safe.mono (f u k (listed p o w) (listed-Inv v p o at stopped small t i) l lp (ground arith))
          λ rc w' (kept, on_failure). (
            kept,
            λ e.
                let (n, same) = on_failure e in (n, rw same (ground arith), rw same (ground arith)),
          )

    start_timer-After :
        is_timer o.kind ≡ true
        → (o.timeout ≡ 0 → is_ticker o.kind ≡ false)
        → Safe (AfterStart k p) (start_timer env p (listed p o w))
    unfolding start_timer gettime_us
    start_timer-After t periodic =
        let now =
          (env.clock_sec (listed p o w) * 1000000 % 2 ^ 64 + env.clock_nsec (listed p o w) / 1000)
          % 2 ^ 64 in
        let o' : Obj = record o {
          ref = o.ref + 1;
          deadline = (now + o.timeout) % 2 ^ 64;
          expired = false;
        } in
        let at1 : (listed p o w).objs p ≡ some (with_ref o (o.ref + 1)) = ground arith in
        let c : Core loop (u ⊕ k) (put p o' (listed p o w)) =
          put-Core (listed-Core v p o at stopped small) at1 o'
            (record { kind = refl; weak_refs = refl; ref = refl; n_events = refl }) in
        let v' = timer-Inv v p o at stopped small o' refl t c in
        rw (at1, load)
          (elim (Bool-cases (o.timeout == 0)) [
            | inl is ↦ rw is (
                Safe.mono
                  (start_expired-Kept u k _ p o' v' (ground arith) l lp (periodic (ground arith)))
                  λ rc w' (kept, e). (kept, λ f. absurd (cc)))
            | inr other ↦ rw other (
                Safe.mono (arm_timer-Kept u k _ p o' v' (ground arith) l lp)
                  λ rc w' (kept, e). (kept, λ f. absurd (cc)))
          ])

    start_kind-After :
        (kind : ObjType)
        → o.kind ≡ kind
        → (o.timeout ≡ 0 → is_ticker o.kind ≡ false)
        → Safe (AfterStart k p) (start_kind env kind p (listed p o w))
    unfolding start_kind
    start_kind-After unspec e periodic = absurd (v.core.typed p o at e)
    start_kind-After main_loop e periodic = returns (
      (u, listed-Inv v p o at stopped small (ground arith) (ground arith)),
      λ f. (ground arith, ground arith, ground arith),
    )
    start_kind-After handler e periodic =
        outside-After (start_handler env p) (ground arith) (ground arith) (start_handler-Frames p)
    start_kind-After timer e periodic = start_timer-After (ground arith) periodic
    start_kind-After ticker e periodic = start_timer-After (ground arith) periodic
    start_kind-After signal e periodic =
        outside-After _ (ground arith) (ground arith) (tame.add_signal p)
    start_kind-After work e periodic =
        outside-After _ (ground arith) (ground arith) (tame.enqueue p)
    start_kind-After idle e periodic =
        returns ((u, idle-Inv v p o at stopped small (ground arith)), λ f. absurd (cc))

  or_remove-Kept :
      (k : Held) (p : Ptr) (rc : Rc) (w : World S)
      → AfterStart k p rc w
      → 0 < k loop
      → 0 < k p
      → Safe (λ _. Kept loop k) (or_remove env rc p w)
  or_remove-Kept k p success w (kept, _) l lp = returns kept
  or_remove-Kept k p failure w ((u, v), on_failure) l lp =
      let (n, t, i) = on_failure refl in
      let started = count-has p w.obj_list n in
      let (o, at) = find {p = p} v.core (ground (arith, v.core.balance p)) in
      rw (obj_remove_lem env tame u k w p o v at started l lp)
        (returns (u, unlisted-Inv v p o at started (ground arith) (ground arith)))

  module _ (u k : Held) (w : World S) (p : Ptr) (o : Obj) (v : Inv loop (u ⊕ k) w)
      (at : w.objs p ≡ some o) (l : 0 < k loop) (lp : 0 < k p) where
    start_added-Kept :
        has p w.obj_list ≡ false
        → ltb (o.ref + 1) int_limit ≡ true
        → (o.timeout ≡ 0 → is_ticker o.kind ≡ false)
        → Safe (λ _. Kept loop k) (start_added env p (listed p o w))
    unfolding start_added
    start_added-Kept stopped small periodic =
        let at1 : (listed p o w).objs p ≡ some (with_ref o (o.ref + 1)) = ground arith in
        rw (at1, load)
          (Safe.bind (start_kind-After u k w p o v at stopped small l lp o.kind refl periodic)
            λ rc w' after. or_remove-Kept k p rc w' after l lp)

    start-at :
        (o.timeout ≡ 0 → is_ticker o.kind ≡ false) → Safe (λ _. Kept loop k) (aml_start env p w)
    unfolding aml_start obj_try_add
    start-at periodic = elim (Bool-cases (has p w.obj_list)) [
      | inl started ↦ rw started (returns (u, v))
      | inr stopped ↦
          rw (stopped, aml_ref_lem w p o at)
            (elim (Bool-cases (ltb (o.ref + 1) int_limit)) [
              | inl small ↦ rw small (start_added-Kept stopped small periodic)
              | inr big ↦ rw big overflows
            ])
    ]

  -- From a store that satisfies the invariant, aml_start of an object that the caller holds along
  -- with the loop, and that is not a ticker with a timeout of 0, never faults: unless a reference
  -- count would pass INT_MAX the invariant and the references of the caller are kept, whether the
  -- backend accepts the object or not, if the backend and the user code, in whatever state they are
  -- called, return and give up only references of their own.
  pub aml_start-Kept :
      (u k : Held) (w : World S) (p : Ptr)
      → Inv loop (u ⊕ k) w
      → 0 < k loop
      → 0 < k p
      → ((o : Obj) → w.objs p ≡ some o → o.timeout ≡ 0 → is_ticker o.kind ≡ false)
      → Safe (λ _. Kept loop k) (aml_start env p w)
  aml_start-Kept u k w p v l lp periodic =
      let (o, at) = find {p = p} v.core (ground (arith, v.core.balance p)) in
      start-at u k w p o v at l lp (periodic o at)
