-- ===== src/Inv/Dequeue.antt =====
-- `aml__event_dequeue` of src/aml.c and the invariant: the reference of an event passes to the caller.
use aml.Base.{
  ◌+◌, ◌-◌, ◌%◌, ◌^◌, ◌<◌, ◌≡◌, ◌≢◌, Option, none, some, List, [], ◌∷◌, arith, ◌==◌, if◌then◌else◌,
  refl, Bool-cases, inl, inr, test_refl,
}
use aml.World.{Ptr, Obj, World, load, put}
use aml.World.Safe
use aml.World.Safe.{Safe, returns}
use aml.Queue.{take_event, event_dequeue, set_event_queue}
use aml.Inv.{Held, grab, Inv}
use aml.Inv.Step.{StepAt, StepAt-Inv}
use aml.Inv.Refs.{find}
use aml.Inv.Events.{with_events}

-- What `aml__event_dequeue` returns: nothing, or an object with a reference for the caller.
abbrev pub Dequeued : {S : Type 0} → Ptr → Held → Option Ptr → World S → Type 0
Dequeued loop held none w = Inv loop held w
Dequeued loop held (some p) w = Inv loop (grab p held) w

-- What taking an event of `p` does.
pub record Taken {S : Type 0} (p : Ptr) (rest : List Ptr) (o : Obj) (w w' : World S) : Type 0 where
  pub front : w.event_queue ≡ p ∷ rest
  pub at : w.objs p ≡ some o
  pub here : w'.objs p ≡ some (with_events o (o.n_events - 1))
  pub others : (q : Ptr) → p ≢ q → w'.objs q ≡ w.objs q
  pub queue : w'.event_queue ≡ (if o.n_events - 1 == 0 then rest else p ∷ rest)
  pub idle_list : w'.idle_list ≡ w.idle_list

-- The first object of the queue has lost an event; or the queue is empty.
pub data DequeueStep {S : Type 0} (loop : Ptr) (held : Held) (w : World S)
    : Option Ptr → World S → Type 0 where
  empty : {w' : World S} → w.event_queue ≡ [] → w' ≡ w → DequeueStep loop held w none w'
  taken :
      {w' : World S} (p : Ptr) (rest : List Ptr) (o : Obj)
      → Inv loop (grab p held) w'
      → Taken p rest o w w'
      → DequeueStep loop held w (some p) w'

module _ {S : Type 0} {loop : Ptr} {held : Held} {w : World S} (v : Inv loop held w) (p : Ptr)
    (rest : List Ptr) (front : w.event_queue ≡ p ∷ rest) (o : Obj) (at : w.objs p ≡ some o) where
  pending : 0 < o.n_events
  pending = ground (arith, v.core.queued p)

  lowered : (o.n_events + 2 ^ 32 - 1) % 2 ^ 32 ≡ o.n_events - 1
  lowered = ground (arith, pending, v.core.balance p, v.core.fits p)

  StepAt-dequeue :
      (q : List Ptr)
      → q ≡ (if o.n_events - 1 == 0 then rest else p ∷ rest)
      → StepAt p o
          (with_events o (o.n_events - 1))
          held
          (grab p held)
          w
          (set_event_queue q (put p (with_events o (o.n_events - 1)) w))
  StepAt-dequeue q e = record {
    this = refl;
    weak = λ r. refl;
    before = at;
    after = ground arith;
    others = λ s ne. ground arith;
    kind = refl;
    weak_refs = refl;
    ref = ground (arith, v.core.balance p, pending);
    elsewhere = λ s ne. ground arith;
    listed = v.core.once;
    queue = rw e (ground (arith, v.core.queued p, pending));
    queues = λ s ne. rw e (ground arith);
    small = ground (arith, v.core.fits p);
  }

  dequeue-Inv :
      (q : List Ptr)
      → q ≡ (if o.n_events - 1 == 0 then rest else p ∷ rest)
      → Inv loop (grab p held) (set_event_queue q (put p (with_events o (o.n_events - 1)) w))
  dequeue-Inv q e =
      StepAt-Inv v (StepAt-dequeue q e)
        (record { started = λ q. refl; timer = λ q. refl; idle = λ q. refl })

  dequeue-Taken :
      (q : List Ptr)
      → q ≡ (if o.n_events - 1 == 0 then rest else p ∷ rest)
      → DequeueStep loop held w
          (some p)
          (set_event_queue q (put p (with_events o (o.n_events - 1)) w))
  dequeue-Taken q e = taken p rest o (dequeue-Inv q e) (record {
    front = front;
    at = at;
    here = ground arith;
    others = λ s ne. ground arith;
    queue = e;
    idle_list = refl;
  })

  take_event-DequeueStep : Safe (DequeueStep loop held w) (take_event (p ∷ rest) w)
  take_event-DequeueStep =
      rw (at, load, lowered)
        (elim (Bool-cases (o.n_events - 1 == 0)) [
          | inl last ↦ rw (last, test_refl p) (returns (dequeue-Taken rest (rw last)))
          | inr more ↦ rw more (returns (dequeue-Taken w.event_queue (rw more front)))
        ])

module _ {S : Type 0} {loop : Ptr} {held : Held} {w : World S} (v : Inv loop held w) where
  take-DequeueStep :
      (q : List Ptr) → w.event_queue ≡ q → Safe (DequeueStep loop held w) (take_event q w)
  take-DequeueStep [] e = returns (empty e refl)
  take-DequeueStep (p ∷ rest) e =
      let (o, at) = find {p = p} v.core (ground (arith, v.core.queued p, v.core.balance p)) in
      take_event-DequeueStep v p rest e o at

  pub event_dequeue-DequeueStep : Safe (DequeueStep loop held w) (event_dequeue w)
  unfolding event_dequeue
  event_dequeue-DequeueStep = take-DequeueStep w.event_queue refl

  DequeueStep-Dequeued :
      (r : Option Ptr) (w' : World S) → DequeueStep loop held w r w' → Dequeued loop held r w'
  DequeueStep-Dequeued _ w' (empty e same) = rw same v
  DequeueStep-Dequeued _ w' (taken p rest o v' t) = v'

  -- The step, in the terms of a caller that handles the object.
  pub event_dequeue-Dequeued : Safe (Dequeued loop held) (event_dequeue w)
  event_dequeue-Dequeued = Safe.mono event_dequeue-DequeueStep DequeueStep-Dequeued
