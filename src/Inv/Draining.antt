-- ===== src/Inv/Draining.antt =====
-- How many events are pending before and after the steps of src/aml.c, and the end of the loop over
-- the event queue where callbacks emit nothing.
use aml.Base.{
  ℕ, zero, suc, ◌+◌, ◌-◌, ◌≤◌, ◌<◌, ◌≡◌, ◌≢◌, Option, some, List, [], ◌∷◌, ◌++◌, arith, refl, ap,
  count, length, ◌==◌, Bool-cases, inl, inr,
}
use aml.World.{Ptr, ObjType, timer, Obj, World, Run, Cmd}
use aml.World.Env.{Env}
use aml.World.Safe.{Safe, Within, ends, passes, falls_short, bind-Within, Within-suc, Within-Safe}
use aml.World.Keeps.{with_IfOk}
use aml.World.Calm.{events_in, sum_events, pending_events, Calmer, Calmer-trans}
use aml.Dispatch.{handle_dequeued, handle_events}
use aml.Calm.{IsCalmEnv, aml_unref-IsCalm}
use aml.Calm.Handling.{handle_event-IsCalm}
use aml.Inv.{Held, ◌⊕◌, grab, Inv, Kept}
use aml.Inv.Step.{Inv-held}
use aml.Inv.Events.{emitted}
use aml.Inv.Timeouts.{fired, Fired}
use aml.Inv.Dequeue.{Taken, DequeueStep, empty, taken, event_dequeue-DequeueStep}
use aml.Inv.Unref.{aml_unref-Kept}
use aml.Inv.Handling.{handle_event-Kept}
use aml.Inv.Tame.{IsTame}

sum-append :
    (objs : Ptr → Option Obj) (p : Ptr) (l : List Ptr)
    → sum_events objs (l ++ p ∷ []) ≡ sum_events objs l + events_in (objs p)
sum-append objs p [] = omega arith
sum-append objs p (q ∷ l) = omega (arith, sum-append objs p l)

module _ (p : Ptr) (objs objs' : Ptr → Option Obj)
    (others : (q : Ptr) → p ≢ q → objs' q ≡ objs q) where
  sum-without : (l : List Ptr) → count p l ≡ 0 → sum_events objs' l ≡ sum_events objs l
  sum-without [] none_there = refl
  sum-without (q ∷ l) none_there = ground (arith, sum-without l, others q)

  -- One object has changed, which stands in the list once.
  sum-with :
      (l : List Ptr)
      → count p l ≡ 1
      → sum_events objs' l + events_in (objs p) ≡ sum_events objs l + events_in (objs' p)
  sum-with [] once = absurd (omega arith)
  sum-with (q ∷ l) once = elim (Bool-cases (q == p)) [
    | inl same ↦ ground (arith, sum-without l)
    | inr other ↦ ground (arith, sum-with l, others q)
  ]

fired-n_events : (kind : ObjType) (o : Obj) → (fired kind o).n_events ≡ o.n_events
fired-n_events timer o = refl
fired-n_events _ o = refl

module _ {S : Type 0} {loop : Ptr} {held : Held} {w w' : World S} (v : Inv loop held w) where
  -- A timer that fires adds one event.
  pub pending_events-Fired :
      (p : Ptr) (o : Obj)
      → w.objs p ≡ some o
      → Fired p o w w'
      → pending_events w' ≡ pending_events w + 1
  pending_events-Fired p o at f =
      let here : events_in (w'.objs p) ≡ o.n_events + 1 =
        ground (arith, f.here, fired-n_events o.kind (emitted o)) in
      elim (Bool-cases (o.n_events == 0)) [
        | inl unqueued ↦
            rw (f.queue, unqueued)
              (ground (
                arith,
                sum-append w'.objs p w.event_queue,
                sum-without p w.objs w'.objs f.others w.event_queue,
                v.core.queued p,
                here,
              ))
        | inr queued ↦
            rw (f.queue, queued)
              (ground
                (arith, sum-with p w.objs w'.objs f.others w.event_queue, v.core.queued p, here))
      ]

  -- An event that is taken is one less.
  pub pending_events-Taken :
      (p : Ptr) (rest : List Ptr) (o : Obj)
      → Taken p rest o w w'
      → pending_events w ≡ pending_events w' + 1
  pending_events-Taken p rest o t =
      let front : count p w.event_queue ≡ count p (p ∷ rest) = ap (count p) t.front in
      let once : count p rest ≡ 0 = ground (arith, v.core.queued p, front) in
      let pending : 0 < o.n_events = ground (arith, v.core.queued p, front, t.at) in
      let same : sum_events w'.objs rest ≡ sum_events w.objs rest =
        sum-without p w.objs w'.objs t.others rest once in
      elim (Bool-cases (o.n_events - 1 == 0)) [
        | inl last ↦ rw (t.queue, last, t.front) (ground (arith, same, t.at, pending))
        | inr more ↦ rw (t.queue, more, t.front) (ground (arith, same, t.at, t.here, pending))
      ]

-- A bound that is not above another, and a weaker postcondition.
Within-weaken :
    {S A : Type 0} {n m fuel : ℕ} {P Q : A → World S → Type 0} {r : Run S A}
    → n ≤ m
    → ((a : A) (w : World S) → P a w → Q a w)
    → Within n fuel P r
    → Within m fuel Q r
Within-weaken le weaken (ends p) = ends (weaken _ _ p)
Within-weaken le weaken passes = passes
Within-weaken le weaken (falls_short short) = falls_short (omega arith)

module _ {S : Type 0} (env : Env S) {loop : Ptr} (tame : IsTame loop env) (is : IsCalmEnv env) where
  -- The event that was taken is handled and its reference given up, and then the rest.
  handled-Within :
      {n fuel : ℕ} {P : Unit {0} → World S → Type 0} (u k : Held) (rest : Cmd S (Unit {0}))
      (p : Ptr) (w : World S)
      → Inv loop (grab p (u ⊕ k)) w
      → 0 < k loop
      → ((u' : Held) (w' : World S)
          → Inv loop (u' ⊕ k) w'
          → Calmer w w'
          → Within n fuel P (rest w'))
      → Within n fuel P (handle_dequeued env rest (some p) w)
  handled-Within u k rest p w v l next =
      bind-Within
        (with_IfOk
          (handle_event-Kept env tame p u (grab p k) w (Inv-held (λ q. omega arith) v) (omega arith)
            (ground arith))
          ((handle_event-IsCalm is p).calm w))
        λ _ w1 ((u1, v1), c1).
          bind-Within
            (with_IfOk (aml_unref-Kept env tame.free u1 k w1 p v1 l)
              ((aml_unref-IsCalm is p).calm w1))
            λ _ w2 (((u2, v2), _), c2). next u2 w2 v2 (Calmer-trans c1 c2)

  -- The references of the caller are kept, and the idle list has not grown since `w`.
  abbrev pub Drained : Held → World S → World S → Type 0
  Drained k w w' = Kept loop k w' × (length w'.idle_list ≤ length w.idle_list)

  pub handle_events-Within :
      (fuel : ℕ) (u k : Held) (w : World S)
      → Inv loop (u ⊕ k) w
      → 0 < k loop
      → Within (pending_events w) fuel (λ _. Drained k w) (handle_events env fuel w)
  unfolding handle_events
  handle_events-Within zero u k w v l = falls_short (omega arith)
  handle_events-Within (suc fuel) u k w v l =
      bind-Within (event_dequeue-DequeueStep v) (step (handle_events-Within fuel))
    where
      step :
          ((u' k' : Held) (w1 : World S)
            → Inv loop (u' ⊕ k') w1
            → 0 < k' loop
            → Within (pending_events w1) fuel (λ _. Drained k' w1) (handle_events env fuel w1))
          → (e : Option Ptr) (w' : World S) → DequeueStep loop (u ⊕ k) w e w'
          → Within
              (pending_events w)
              (suc fuel)
              (λ _. Drained k w)
              (handle_dequeued env (handle_events env fuel) e w')
      step again _ w' (empty none_left same) = rw same (ends ((u, v), omega arith))
      step again _ w' (taken p rest o v' t) =
          Within-weaken (omega (arith, pending_events-Taken v p rest o t)) (λ _ _ d. d)
            (Within-suc (
              handled-Within u k (handle_events env fuel) p w' v' l λ u2 w2 v2 c.
                let same : length w'.idle_list ≡ length w.idle_list = ap length t.idle_list in
                Within-weaken c.events
                  (λ _ w3 (kept, short). (kept, omega (arith, short, same, c.idle)))
                  (again u2 k w2 v2 l)))

  -- From a store that satisfies the invariant and in which the caller holds the loop, with more
  -- fuel than events are pending, the loop over the event queue in aml_dispatch ends and never
  -- faults: unless a reference count would pass INT_MAX the invariant and the references of the
  -- caller are kept and the idle list is not longer, if the backend and the user code return and
  -- give up only references of their own, and add no event to the queue and no object to the idle
  -- list.
  pub handle_events-Drained :
      (fuel : ℕ) (u k : Held) (w : World S)
      → Inv loop (u ⊕ k) w
      → 0 < k loop
      → pending_events w < fuel
      → Safe
          (λ _ w'. Kept loop k w' × (length w'.idle_list ≤ length w.idle_list))
          (handle_events env fuel w)
  handle_events-Drained fuel u k w v l enough =
      Within-Safe enough (handle_events-Within fuel u k w v l)
