-- ===== src/Inv/Handling.antt =====
-- `aml__handle_event`, the loop over the event queue, and the invariant.
use Prim.Native.Nat.{bit_and}
use aml.Base.{
  ℕ, zero, suc, ◌≡◌, ◌<◌, Option, none, some, Bool, true, false, not, arith, ◌==◌, refl, Bool-cases,
  inl, inr, has,
}
use aml.World.{Ptr, Fn, World, Cmd, Rc, load, when}
use aml.World.Env.{Env}
use aml.Object.{is_handler, obj_is_single_shot}
use aml.World.Safe
use aml.World.Safe.{Safe, Partial, returns, done, starves}
use aml.Unref.{discard}
use aml.Registry.{aml_is_started, aml_stop}
use aml.Dispatch.{
  mod_fd, mod_fd_or, edge_triggered, call_callback, handle_started, rearm_handler, handle_event,
  handle_dequeued, handle_events,
}
use aml.Inv.{Held, ◌⊕◌, grab, Inv, Kept, FramesAt}
use aml.Inv.Step.{put-Inv, Inv-held}
use aml.Inv.Refs.{find, aml_ref-Inv}
use aml.Inv.Unref.{aml_unref-Kept}
use aml.Inv.Dequeue.{Dequeued, event_dequeue-Dequeued}
use aml.Inv.Stopping.{aml_stop-Kept}
use aml.Inv.Tame.{IsTame, discard-FramesAt}

module _ {S : Type 0} (env : Env S) {loop : Ptr} (tame : IsTame loop env) where
  call_callback-Kept : (f : Option Fn) (p : Ptr) → FramesAt loop p (call_callback env f p)
  call_callback-Kept none p u k w v l lp = returns (u, v)
  call_callback-Kept (some f) p u k w v l lp = tame.callback f p u k w v l lp

  mod_fd_or-Kept :
      (f : Option (Ptr → Cmd S Rc))
      → env.backend.mod_fd ≡ f
      → (p : Ptr) → FramesAt loop p (mod_fd_or env f p)
  mod_fd_or-Kept none e p u k w v l lp =
      Safe.bind (tame.del_fd p u k w v l lp) λ _ w' (u', v'). tame.add_fd_again p u' k w' v' l lp
  mod_fd_or-Kept (some f) e p u k w v l lp = tame.mod_fd f e p u k w v l lp

  pub mod_fd-Kept : (p : Ptr) → FramesAt loop p (mod_fd env p)
  unfolding mod_fd
  mod_fd-Kept = mod_fd_or-Kept env.backend.mod_fd refl

  rearm_handler-Kept : (p : Ptr) → FramesAt loop p (rearm_handler env p)
  unfolding rearm_handler
  rearm_handler-Kept p u k w v l lp =
      let (o, at) = find {p = p} v.core (ground (arith, v.core.balance p)) in
      let v' =
        put-Inv v at (record o { revents = 0 })
          (record { kind = refl; weak_refs = refl; ref = refl; n_events = refl }) in
      rw (at, load)
        (elim (Bool-cases (is_handler o.kind)) [
          | inl is ↦
              rw is (elim (Bool-cases (not (bit_and env.backend.flags edge_triggered == 0))) [
                | inl edge ↦ rw edge (discard-FramesAt (mod_fd-Kept p) u k _ v' l lp)
                | inr level ↦ rw level (returns (u, v'))
              ])
          | inr other ↦ rw other (returns (u, v))
        ])

  stop_single-Kept : (b : Bool) (p : Ptr) → FramesAt loop p (when b (discard (aml_stop env p)))
  stop_single-Kept false p u k w v l lp = returns (u, v)
  stop_single-Kept true p u k w v l lp =
      Safe.bind (aml_stop-Kept env tame u k w p v l (ground (arith, v.core.balance p)))
        λ _ _ kept. returns kept

  handle_started-Kept : (p : Ptr) → FramesAt loop p (handle_started env p)
  unfolding handle_started
  handle_started-Kept p u k w v l lp =
      let (o, at) = find {p = p} v.core (ground (arith, v.core.balance p)) in
      rw (at, load)
        (Safe.bind (stop_single-Kept (obj_is_single_shot o.kind) p u k w v l lp) λ _ w' (u', v').
          let (o', at') = find {p = p} v'.core (ground (arith, v'.core.balance p)) in
          rw (at', load) (call_callback-Kept o'.cb p u' k w' v' l lp))

  callback_if-Kept : (b : Bool) (p : Ptr) → FramesAt loop p (when b (handle_started env p))
  callback_if-Kept false p u k w v l lp = returns (u, v)
  callback_if-Kept true p u k w v l lp = handle_started-Kept p u k w v l lp

  -- From a store that satisfies the invariant, aml__handle_event of an object that the caller holds
  -- along with the loop never faults: unless a reference count would pass INT_MAX the invariant and
  -- the references of the caller are kept, if the backend and the user code, in whatever state they
  -- are called, return and give up only references of their own.
  pub handle_event-Kept : (p : Ptr) → FramesAt loop p (handle_event env p)
  unfolding handle_event aml_is_started
  handle_event-Kept p u k w v l lp =
      let (o, at) = find {p = p} v.core (ground (arith, v.core.balance p)) in
      Safe.bind (aml_ref-Inv v at) λ _ w1 (n, e, v1).
        Safe.bind
          (callback_if-Kept (has p w1.obj_list) p u (grab p k) w1 (Inv-held (λ q. omega arith) v1)
            (omega arith) (omega arith))
          λ _ w2 (u2, v2).
            Safe.bind (rearm_handler-Kept p u2 (grab p k) w2 v2 (omega arith) (omega arith))
              λ _ w3 (u3, v3).
                Safe.bind (aml_unref-Kept env tame.free u3 k w3 p v3 l)
                  λ _ w4 (kept, _). returns kept

  handle_dequeued-Kept :
      (k : Held) (rest : Cmd S (Unit {0}))
      → ((u : Held) (w : World S) → Inv loop (u ⊕ k) w → Partial (λ _. Kept loop k) (rest w))
      → (u : Held) (e : Option Ptr) (w : World S) → Dequeued loop (u ⊕ k) e w
      → 0 < k loop
      → Partial (λ _. Kept loop k) (handle_dequeued env rest e w)
  handle_dequeued-Kept k rest next u none w v l = done (u, v)
  handle_dequeued-Kept k rest next u (some p) w v l =
      Safe.bind-Partial
        (Safe.Safe-Partial (
          handle_event-Kept p u (grab p k) w (Inv-held (λ q. omega arith) v) (omega arith)
            (ground arith)))
        λ _ w1 (u1, v1).
          Safe.bind-Partial (Safe.Safe-Partial (aml_unref-Kept env tame.free u1 k w1 p v1 l))
            λ _ w2 ((u2, v2), _). next u2 w2 v2

  -- For any fuel, from a store that satisfies the invariant and in which the caller holds the loop,
  -- the loop over the event queue in aml_dispatch never faults: either it ends with the invariant
  -- and the references of the caller kept, or a reference count would pass INT_MAX, or the fuel
  -- runs out, since callbacks may emit without end, if the backend and the user code, in whatever
  -- state they are called, return and give up only references of their own.
  pub handle_events-Kept :
      (fuel : ℕ) (u k : Held) (w : World S)
      → Inv loop (u ⊕ k) w
      → 0 < k loop
      → Partial (λ _. Kept loop k) (handle_events env fuel w)
  unfolding handle_events
  handle_events-Kept zero u k w v l = starves
  handle_events-Kept (suc fuel) u k w v l =
      Safe.bind-Partial (Safe.Safe-Partial (event_dequeue-Dequeued v)) λ e w' d.
        handle_dequeued-Kept k (handle_events env fuel)
          (λ u' w'' v'. handle_events-Kept fuel u' k w'' v' l) u e w' d l
