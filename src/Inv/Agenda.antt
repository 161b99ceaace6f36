-- ===== src/Inv/Agenda.antt =====
-- The event queue of src/aml.c is an agenda, whatever the order of emissions and dequeues.
use aml.Base.{
  ap, ℕ, ◌+◌, ◌-◌, ◌≤◌, ◌<◌, ◌≡◌, ◌≢◌, ◌∙◌, sym, Bool, true, false, Option, none, some, List, [],
  ◌∷◌, ◌++◌, arith, ◌==◌, if◌then◌else◌, count, refl, Bool-cases, inl, inr,
}
use aml.World.{Ptr, Obj, World, pure, ◌>>=◌}
use aml.World.Views.{refs, events, kind_at}
use aml.World.Safe
use aml.World.Safe.{Safe, returns}
use aml.Object.{is_handler}
use aml.Queue.Agenda.{Agenda, add, take, emit_to, Op, emit, dequeue, replay, run_ops}
use aml.Inv.{Held, ◌⊕◌, grab, Inv}
use aml.Inv.Step.{Inv-held}
use aml.Inv.Refs.{find}
use aml.Inv.Events.{counts, Emission, emit-Emission}
use aml.Inv.Dequeue.{DequeueStep, empty, taken, Taken, event_dequeue-DequeueStep}

abbrev revents_of : Option Obj → ℕ
revents_of none = 0
revents_of (some o) = o.revents

-- The objects of a list with their pending events.
abbrev pub listing : {S : Type 0} → World S → List Ptr → List (Ptr × ℕ)
listing w [] = []
listing w (p ∷ ps) = (p, events w p) ∷ listing w ps

module _ {S : Type 0} (w w' : World S) (p : Ptr)
    (others : (q : Ptr) → p ≢ q → w'.objs q ≡ w.objs q) where
  listing-absent : (l : List Ptr) → count p l ≡ 0 → listing w' l ≡ listing w l
  listing-absent [] n = refl
  listing-absent (q ∷ l) n = ground (arith, others q, listing-absent l)

  listing-append :
      (l : List Ptr)
      → count p l ≡ 0
      → events w' p ≡ 1
      → listing w' (l ++ p ∷ []) ≡ add p (listing w l)
  listing-append [] n one = rw one refl
  listing-append (q ∷ l) n one = ground (arith, others q, listing-append l)

  listing-present :
      (l : List Ptr)
      → count p l ≡ 1
      → events w' p ≡ events w p + 1
      → listing w' l ≡ add p (listing w l)
  listing-present [] n more = absurd (omega arith)
  listing-present (q ∷ l) n more = ground (arith, others q, listing-absent l, listing-present l)

listing-same :
    {S : Type 0} (w w' : World S)
    → ((q : Ptr) → events w' q ≡ events w q)
    → (l : List Ptr) → listing w' l ≡ listing w l
listing-same w w' same [] = refl
listing-same w w' same (q ∷ l) = rw (same q, listing-same w w' same l) refl

-- What the agenda `a` says of a store.
pub record Sees {S : Type 0} (handler : Ptr → Bool) (a : Agenda) (w : World S) : Type 0 where
  pub kinds : (p : Ptr) → is_handler (kind_at w p) ≡ handler p
  pub pending : a.pending ≡ listing w w.event_queue
  pub revents : (p : Ptr) → handler p ≡ true → a.revents p ≡ revents_of (w.objs p)

-- The references that the users of the queue were handed.
abbrev pub given : List (Option Ptr) → Held
given [] q = 0
given (none ∷ rs) q = given rs q
given (some p ∷ rs) q = (if p == q then 1 else 0) + given rs q

abbrev pub AllLive : {S : Type 0} → World S → List Op → Type 0
AllLive w [] = Unit {0}
AllLive w (emit p revents ∷ ops) = (0 < refs w p) × AllLive w ops
AllLive w (dequeue ∷ ops) = AllLive w ops

AllLive-grow :
    {S : Type 0} (w w' : World S)
    → ((p : Ptr) → refs w p ≤ refs w' p)
    → (ops : List Op) → AllLive w ops
    → AllLive w' ops
AllLive-grow w w' more [] live = tt
AllLive-grow w w' more (emit p revents ∷ ops) live =
    (omega (arith, more p, live.0), AllLive-grow w w' more ops live.1)
AllLive-grow w w' more (dequeue ∷ ops) live = AllLive-grow w w' more ops live

module _ {S : Type 0} {loop : Ptr} where
  listing-Emission :
      {held : Held} {w : World S} (p : Ptr) (revents : ℕ) (o : Obj) (w' : World S)
      → Inv loop held w
      → w.objs p ≡ some o
      → Emission p revents o w w'
      → (b : Bool) → counts o ≡ b
      → listing w' w'.event_queue
        ≡ (if b then add p (listing w w.event_queue) else listing w w.event_queue)
  listing-Emission {held} {w} p revents o w' v at e false plain =
      let queue : w'.event_queue ≡ w.event_queue = e.queue ∙ rw plain refl in
      rw queue
        (listing-same w w' (λ q. ground (arith, e.here, e.others q, e.n_events, at)) w.event_queue)
  listing-Emission {held} {w} p revents o w' v at e true adds =
      elim (Bool-cases (o.n_events == 0)) [
        | inl none_yet ↦
            let queue : w'.event_queue ≡ w.event_queue ++ p ∷ [] =
              e.queue ∙ rw (adds, none_yet) refl in
            rw queue (
              listing-append w w' p e.others w.event_queue (ground (arith, v.core.queued p, at))
                (ground (arith, e.here, e.n_events, at)))
        | inr some_left ↦
            let queue : w'.event_queue ≡ w.event_queue = e.queue ∙ rw (adds, some_left) refl in
            rw queue (
              listing-present w w' p e.others w.event_queue (ground (arith, v.core.queued p, at))
                (ground (arith, e.here, e.n_events, at)))
      ]

  listing-Taken :
      {held : Held} {w : World S} (p : Ptr) (rest : List Ptr) (o : Obj) (w' : World S)
      → Inv loop held w
      → Taken p rest o w w'
      → (if events w p - 1 == 0 then listing w rest else (p, events w p - 1) ∷ listing w rest)
        ≡ listing w' w'.event_queue
  listing-Taken {held} {w} p rest o w' v t =
      let absent : listing w' rest ≡ listing w rest =
        listing-absent w w' p t.others rest (ground (arith, v.core.queued p, t.front)) in
      elim (Bool-cases (o.n_events - 1 == 0)) [
        | inl last ↦
            let queue : w'.event_queue ≡ rest = t.queue ∙ rw last refl in
            rw (queue, t.at, last) (sym absent)
        | inr more ↦
            let queue : w'.event_queue ≡ p ∷ rest = t.queue ∙ rw more refl in
            rw (queue, t.at, more, t.here, absent) refl
      ]

-- The same results as the agenda, in the same order, each with a reference.
abbrev pub Replayed :
    {S : Type 0}
    → Ptr
    → (Ptr → Bool)
    → List Op
    → Held
    → Agenda
    → List (Option Ptr)
    → World S
    → Type 0
Replayed loop handler ops held a rs w' =
    let (rs', a') = replay handler ops a in
    (rs ≡ rs') × Sees handler a' w' × Inv loop (held ⊕ given rs) w'

module _ {S : Type 0} {loop : Ptr} {handler : Ptr → Bool} where
  -- One emission.
  Sees-emit :
      {held : Held} {w : World S} (a : Agenda) (p : Ptr) (revents : ℕ) (o : Obj) (w' : World S)
      → Inv loop held w
      → Sees handler a w
      → w.objs p ≡ some o
      → Emission p revents o w w'
      → Sees handler (emit_to (handler p) p revents a) w'
  Sees-emit a p revents o w' v s at e = record {
    kinds = λ q. ground (arith, e.here, e.kind, e.others q, at, s.kinds q);
    pending =
        let test : (if handler p then a.revents p == 0 else true) ≡ counts o =
          ground (arith, at, s.kinds p, s.revents p) in
        rw (test, s.pending) (sym (listing-Emission p revents o w' v at e (counts o) refl));
    revents = λ q h. ground (arith, e.here, e.others q, e.revents_here, at, s.revents q, s.kinds p);
  }

  -- One dequeue.
  Sees-take :
      {held : Held} {w : World S} (a : Agenda) (p : Ptr) (rest : List Ptr) (o : Obj) (w' : World S)
      → Inv loop held w
      → Sees handler a w
      → Taken p rest o w w'
      → ((take a.pending).0 ≡ some p) × Sees handler (record a { pending = (take a.pending).1 }) w'
  Sees-take {held} {w} a p rest o w' v s t =
      let front = s.pending ∙ ap (listing w) t.front in
      rw front (
        refl,
        record {
          kinds = λ q. ground (arith, t.here, t.others q, t.at, s.kinds q);
          pending = listing-Taken p rest o w' v t;
          revents = λ q h. ground (arith, t.here, t.others q, t.at, s.revents q);
        },
      )

  dequeued :
      (ops : List Op) {held : Held} {w : World S} (a : Agenda)
      → Inv loop held w
      → Sees handler a w
      → AllLive w ops
      → ((held : Held) (w : World S) (a : Agenda)
          → Inv loop held w
          → Sees handler a w
          → AllLive w ops
          → Safe (Replayed loop handler ops held a) (run_ops ops w))
      → (r : Option Ptr) (w1 : World S) → DequeueStep loop held w r w1
      → Safe
          (Replayed loop handler (dequeue ∷ ops) held a)
          ((run_ops ops >>= λ rs. pure (r ∷ rs)) w1)
  dequeued ops {held} {w} a v s live ih _ w1 (empty e same) =
      let nothing : a.pending ≡ [] = s.pending ∙ ap (listing w) e in
      let quiet : Sees handler (record a { pending = [] }) w = record {
        kinds = s.kinds;
        pending = sym nothing ∙ s.pending;
        revents = s.revents;
      } in
      rw (same, nothing)
        (Safe.bind (ih held w (record a { pending = [] }) v quiet live)
          λ rs w2 (results, s2, v2). returns (ap (◌∷◌ none) results, s2, v2))
  dequeued ops {held} {w} a v s live ih _ w1 (taken p rest o v1 t) =
      let (first, s1) = Sees-take a p rest o w1 v s t in
      Safe.bind
        (ih (grab p held) w1 _ v1 s1
          (AllLive-grow w w1 (λ q. ground (arith, t.here, t.others q, t.at)) ops live))
        λ rs w2 (results, s2, v2). returns (cc, s2, Inv-held (λ q. omega arith) v2)

  -- From a store that satisfies the invariant, any sequence of aml_emit, on objects that are live
  -- at its start, and aml__event_dequeue never faults, and unless a reference count would pass
  -- INT_MAX it does what the same sequence does on an agenda, which lists each queued object with
  -- the number of its pending events, first come first served, and enters a handler only when
  -- nothing was reported of it, if the agenda describes that store: the results are the same in the
  -- same order, the agenda still describes the store, and the invariant holds with a reference more
  -- for each object that was returned.
  pub run_ops-replay :
      (ops : List Op) (held : Held) (w : World S) (a : Agenda)
      → Inv loop held w
      → Sees handler a w
      → AllLive w ops
      → Safe (Replayed loop handler ops held a) (run_ops ops w)
  unfolding run_ops
  run_ops-replay [] held w a v s live = returns (refl, s, Inv-held (λ q. omega arith) v)
  run_ops-replay (emit p revents ∷ ops) held w a v s live =
      let (o, at) = find {p = p} v.core live.0 in
      Safe.bind (emit-Emission v p o revents at) λ _ w1 (v1, e).
        run_ops-replay ops held w1 (emit_to (handler p) p revents a) v1
          (Sees-emit a p revents o w1 v s at e)
          (AllLive-grow w w1 (λ q. ground (arith, e.here, e.others q, e.ref, at)) ops live.1)
  run_ops-replay (dequeue ∷ ops) held w a v s live =
      Safe.bind (event_dequeue-DequeueStep v)
        λ r w1 step. dequeued ops a v s live (run_ops-replay ops) r w1 step
