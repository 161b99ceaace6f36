-- ===== src/Inv/Events.antt =====
-- `aml_emit` and the invariant: the queue holds one reference for each event.
use Prim.Native.Nat.{bit_or}
use aml.Base.{
  ℕ, ◌+◌, ◌%◌, ◌^◌, ◌<◌, ◌≤◌, ◌≡◌, ◌≢◌, Bool, ◌&&◌, true, some, List, [], ◌∷◌, ◌++◌, arith, ◌==◌,
  ltb, if◌then◌else◌, count-append, refl, Bool-cases, inl, inr, ◌∙◌,
}
use aml.World.{Ptr, Obj, World, load, put, int_limit}
use aml.Object.{is_handler}
use aml.World.Views.{refs}
use aml.World.Safe
use aml.World.Safe.{Safe, returns}
use aml.Queue.{enqueue, aml_emit, set_event_queue}
use aml.Inv.{Held, Inv}
use aml.Inv.Step.{StepAt, StepAt-Inv, put-Inv}
use aml.Inv.Refs.{with_ref, find, aml_ref-then}

abbrev pub with_events : Obj → ℕ → Obj
with_events o n = record o { n_events = n }

abbrev pub emitted : Obj → Obj
emitted o = record o { n_events = o.n_events + 1; ref = o.ref + 1 }

-- What an emission does: the object has one event and one reference more, and the queue may grow.
pub record Emitted {S : Type 0} (p : Ptr) (o : Obj) (w w' : World S) : Type 0 where
  pub this : w'.self ≡ w.self
  pub here : w'.objs p ≡ some (emitted o)
  pub others : (q : Ptr) → p ≢ q → w'.objs q ≡ w.objs q
  pub queue : w'.event_queue ≡ (if o.n_events == 0 then w.event_queue ++ p ∷ [] else w.event_queue)
  pub obj_list : w'.obj_list ≡ w.obj_list
  pub timer_list : w'.timer_list ≡ w.timer_list
  pub idle_list : w'.idle_list ≡ w.idle_list

module _ {S : Type 0} {loop : Ptr} {held : Held} {w : World S} (v : Inv loop held w) (p : Ptr)
    (o : Obj) (at : w.objs p ≡ some o) where
  events_fit : (o.n_events + 1) % 2 ^ 32 ≡ o.n_events + 1
  events_fit = ground (arith, v.core.balance p, v.core.fits p)

  abbrev enqueued : World S
  enqueued = record w {
    objs = λ q.
        if p == q then some (record o { n_events = o.n_events + 1; ref = o.ref + 1 }) else w.objs q;
    event_queue = if o.n_events == 0 then w.event_queue ++ p ∷ [] else w.event_queue;
  }

  StepAt-enqueue :
      ltb (o.ref + 1) int_limit ≡ true
      → (w' : World S) → w'.self ≡ w.self
      → ((r : Ptr) → w'.weak r ≡ w.weak r)
      → ((q : Ptr) → w'.objs q ≡ enqueued.objs q)
      → w'.obj_list ≡ w.obj_list
      → w'.event_queue ≡ enqueued.event_queue
      → StepAt p o (record o { n_events = o.n_events + 1; ref = o.ref + 1 }) held held w w'
  StepAt-enqueue small w' this weak objs started queue = record {
    this = this;
    weak = weak;
    before = at;
    after = ground (arith, objs p);
    others = λ q ne. ground (arith, objs q);
    kind = refl;
    weak_refs = refl;
    ref = ground (arith, v.core.balance p);
    elsewhere = λ q ne. rw started refl;
    listed = λ q. rw started (v.core.once q);
    queue = rw queue (ground (arith, v.core.queued p, count-append p w.event_queue (p ∷ [])));
    queues = λ q ne. rw queue (ground (arith, count-append q w.event_queue (p ∷ [])));
    small = ground arith;
  }

  -- The object with its event counted, and the queue that it is on.
  abbrev counted : Obj
  counted = with_events o ((o.n_events + 1) % 2 ^ 32)

  abbrev After : World S → Type 0
  After w' = Inv loop held w' × Emitted p o w w'

  enqueued-After :
      (q : List Ptr)
      → q ≡ enqueued.event_queue
      → ltb (o.ref + 1) int_limit ≡ true
      → After (put p (with_ref counted (o.ref + 1)) (set_event_queue q (put p counted w)))
  enqueued-After q e small = (
    StepAt-Inv v (StepAt-enqueue small _ refl (λ r. refl) (λ s. ground (arith, events_fit)) refl e)
        (record { started = λ q. refl; timer = λ q. refl; idle = λ q. refl }),
    record {
      this = refl;
      here = ground (arith, events_fit);
      others = λ q ne. ground arith;
      queue = e;
      obj_list = refl;
      timer_list = refl;
      idle_list = refl;
    },
  )

  pub enqueue-Emitted : Safe (λ _. After) (enqueue p w)
  unfolding enqueue
  enqueue-Emitted =
      rw (at, load)
        (elim (Bool-cases (o.n_events == 0)) [
          | inl empty ↦ rw empty (
              aml_ref-then After (set_event_queue (w.event_queue ++ p ∷ []) (put p counted w)) p
                counted (ground arith) (enqueued-After (w.event_queue ++ p ∷ []) (rw empty)))
          | inr queued ↦ rw queued (
              aml_ref-then After (put p counted w) p counted (ground arith)
                (enqueued-After w.event_queue (rw queued)))
        ])

-- Whether an emission counts: a handler that has events to report is queued already.
abbrev pub counts : Obj → Bool
counts o = if is_handler o.kind then o.revents == 0 else true

-- What `aml_emit` does to an object, and to the queue.
pub record Emission {S : Type 0} (p : Ptr) (revents : ℕ) (o : Obj) (w w' : World S) : Type 0 where
  pub obj : Obj
  pub here : w'.objs p ≡ some obj
  pub others : (q : Ptr) → p ≢ q → w'.objs q ≡ w.objs q
  pub kind : obj.kind ≡ o.kind
  pub ref : o.ref ≤ obj.ref
  pub revents_here :
      obj.revents ≡ (if is_handler o.kind then bit_or o.revents revents else o.revents)
  pub n_events : obj.n_events ≡ o.n_events + (if counts o then 1 else 0)
  pub queue :
      w'.event_queue
      ≡ (if counts o && (o.n_events == 0) then w.event_queue ++ p ∷ [] else w.event_queue)
  pub obj_list : w'.obj_list ≡ w.obj_list

module _ {S : Type 0} {loop : Ptr} {held : Held} {w : World S} (v : Inv loop held w) (p : Ptr) where
  flagged-Inv :
      (o : Obj) (n : ℕ) → w.objs p ≡ some o → Inv loop held (put p (record o { revents = n }) w)
  flagged-Inv o n at =
      put-Inv v at _ (record { kind = refl; weak_refs = refl; ref = refl; n_events = refl })

  pub emit-Emission :
      (o : Obj) (revents : ℕ)
      → w.objs p ≡ some o
      → Safe (λ _ w'. Inv loop held w' × Emission p revents o w w') (aml_emit p revents w)
  unfolding aml_emit
  emit-Emission o revents at =
      let o' : Obj = record o { revents = bit_or o.revents revents } in
      rw (at, load)
        (elim (Bool-cases (is_handler o.kind)) [
          | inl is ↦ rw is (elim (Bool-cases (o.revents == 0)) [
            | inl fresh ↦ rw fresh (
                Safe.mono
                  (enqueue-Emitted (flagged-Inv o (bit_or o.revents revents) at) p o'
                    (ground arith))
                  λ _ w' (v', e). (
                    v',
                    record {
                      obj = emitted o';
                      here = e.here;
                      others = λ q ne. ground (arith, e.others q);
                      kind = refl;
                      ref = omega arith;
                      revents_here = ground arith;
                      n_events = ground arith;
                      queue = e.queue ∙ ground arith;
                      obj_list = e.obj_list;
                    },
                  ))
            | inr pending ↦ rw pending (
                returns (
                  flagged-Inv o (bit_or o.revents revents) at,
                  record {
                    obj = o';
                    here = ground arith;
                    others = λ q ne. ground arith;
                    kind = refl;
                    ref = omega arith;
                    revents_here = ground arith;
                    n_events = ground arith;
                    queue = ground arith;
                    obj_list = refl;
                  },
                ))
          ])
          | inr other ↦ rw other (
              Safe.mono (enqueue-Emitted v p o at) λ _ w' (v', e). (
                v',
                record {
                  obj = emitted o;
                  here = e.here;
                  others = λ q ne. ground (arith, e.others q);
                  kind = refl;
                  ref = omega arith;
                  revents_here = ground arith;
                  n_events = ground arith;
                  queue = e.queue ∙ ground arith;
                  obj_list = e.obj_list;
                },
              ))
        ])

  pub aml_emit-Listed :
      (revents : ℕ)
      → 0 < refs w p
      → Safe (λ _ w'. Inv loop held w' × (w'.obj_list ≡ w.obj_list)) (aml_emit p revents w)
  aml_emit-Listed revents live =
      let (o, at) = find {p = p} v.core live in
      Safe.mono (emit-Emission o revents at) λ _ w' (v', e). (v', e.obj_list)

  -- From a store that satisfies the invariant, aml_emit on a live object never faults, and unless a
  -- reference count would pass INT_MAX the invariant is kept: an object stands in the queue once if
  -- it has pending events and not otherwise, and each event has its reference.
  pub aml_emit-Inv : (revents : ℕ) → 0 < refs w p → Safe (λ _. Inv loop held) (aml_emit p revents w)
  aml_emit-Inv revents live = Safe.mono (aml_emit-Listed revents live) λ _ w' (v', _). v'
