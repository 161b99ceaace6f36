-- ===== src/ThreadPool/Done.antt =====
-- A worker that runs a job of src/thread-pool.c, and the invariant.
use aml.Base.{ℕ, ◌+◌, ◌%◌, ◌^◌, ◌≡◌, ◌<◌, ◌==◌, Option, none, some, ◌∷◌, [], ◌++◌, arith, refl, ◌∙◌}
use Prim.Native.Nat.{bit_or}
use aml.World.{Run, fault, Ptr, Fn, World, Cmd, ok, load, modify}
use aml.World.Env.{Env}
use aml.World.Safe
use aml.World.Safe.{Safe, returns, IfOk}
use aml.World.Keeps.{
  Keeps, with_IfOk, bind-Keeps, load-Keeps, store-Keeps, pure-Keeps, guard_int-Keeps, if-Keeps,
}
use aml.Object.{aml_get_work_fn, is_handler}
use aml.Ref.{aml_ref, aml_weak_ref_read, ref_target, load_weak}
use aml.Queue.{aml_emit, enqueue, set_event_queue}
use aml.Unref.{aml_unref, discard}
use aml.Registry.{aml_interrupt}
use aml.ThreadPool.Job.{call_work, report, run_job}
use aml.Inv.{Held, ◌⊕◌, grab, Inv, Kept, FramesAt}
use aml.Inv.Step.{Inv-held}
use aml.Inv.Refs.{find}
use aml.Inv.Events.{aml_emit-Inv}
use aml.Inv.Unref.{unref_Inv, aml_unref-Kept, unref_with_shared}
use aml.Inv.WeakRefs.{aml_weak_ref_read-Read, aml_weak_ref_del-Inv}
use aml.Inv.Tame.{IsTame}
use aml.Inv.Starting.{aml_interrupt-Frames}

module _ {S : Type 0} {r : Ptr} where
  aml_ref-Keeps : (p : Ptr) → Keeps {S = S} r (aml_ref p)
  unfolding aml_ref
  aml_ref-Keeps p = bind-Keeps (load-Keeps p) λ o.
      bind-Keeps (guard_int-Keeps _)
        λ _. bind-Keeps (store-Keeps p (record o { ref = o.ref + 1 })) λ _. pure-Keeps {a = o.ref}

  enqueue-Keeps : (p : Ptr) → Keeps {S = S} r (enqueue p)
  unfolding enqueue
  enqueue-Keeps p =
      let push : Cmd S (Unit {0}) = modify (λ w. set_event_queue (w.event_queue ++ p ∷ []) w) in
      bind-Keeps (load-Keeps p) λ o.
        bind-Keeps (store-Keeps p (record o { n_events = (o.n_events + 1) % 2 ^ 32 })) λ _.
          bind-Keeps
            (if-Keeps {c = push} (o.n_events == 0) (record { keeps = λ w. refl })
              (pure-Keeps {a = tt}))
            λ _. bind-Keeps (aml_ref-Keeps p) λ _. pure-Keeps

  aml_emit-Keeps : (p : Ptr) (revents : ℕ) → Keeps {S = S} r (aml_emit p revents)
  unfolding aml_emit
  aml_emit-Keeps p revents = bind-Keeps (load-Keeps p) λ o.
      if-Keeps (is_handler o.kind)
        (bind-Keeps (store-Keeps p (record o { revents = bit_or o.revents revents }))
          λ _. if-Keeps (o.revents == 0) (enqueue-Keeps p) pure-Keeps)
        (enqueue-Keeps p)

  ref_target-Keeps : (target : Option Ptr) → Keeps {S = S} r (ref_target target)
  ref_target-Keeps none = pure-Keeps
  ref_target-Keeps (some p) = bind-Keeps (load-Keeps p) λ o.
      bind-Keeps (guard_int-Keeps _)
        λ _. bind-Keeps (store-Keeps p (record o { ref = o.ref + 1 })) λ _. pure-Keeps {a = some p}

module _ {S : Type 0} {r : Ptr} where
  load_weak-Keeps : (q : Ptr) → Keeps {S = S} r (load_weak q)
  load_weak-Keeps q = record { keeps = λ w. loaded w (w.weak q) }
    where
      loaded :
          (w : World S) (x : Option (Option Ptr))
          → IfOk
              (λ _ w'. w'.weak r ≡ w.weak r)
              (elim x as (λ _. Run S (Option Ptr)) [ none ↦ fault | some t ↦ ok t w ])
      loaded w none = tt
      loaded w (some t) = refl

  aml_weak_ref_read-Keeps : (q : Ptr) → Keeps {S = S} r (aml_weak_ref_read q)
  unfolding aml_weak_ref_read
  aml_weak_ref_read-Keeps q = bind-Keeps (load_weak-Keeps q) ref_target-Keeps

module _ {S : Type 0} (env : Env S) (run : Fn → Ptr → Cmd S (Unit {0})) {loop : Ptr}
    (tame : IsTame loop env) (r p : Ptr) (works : (f : Fn) → FramesAt loop p (run f p))
    (quiet : (f : Fn) → Keeps r (run f p)) (calm : Keeps r (aml_interrupt env)) where
  call_work-Kept :
      (cb : Option Fn) (u k : Held) (w : World S)
      → Inv loop (u ⊕ k) w
      → 0 < k loop
      → 0 < k p
      → Safe (λ _ w'. Kept loop k w' × (w'.weak r ≡ w.weak r)) (call_work run cb p w)
  call_work-Kept none u k w v l lp = returns ((u, v), refl)
  call_work-Kept (some f) u k w v l lp = with_IfOk (works f u k w v l lp) ((quiet f).keeps w)

  unref_loop :
      (u k : Held) (w : World S)
      → Inv loop (grab loop (u ⊕ k)) w
      → 0 < k loop
      → Safe (λ _ w'. Inv loop (u ⊕ k) w' × (w'.weak r ≡ w.weak r)) (discard (aml_unref env loop) w)
  unfolding aml_unref
  unref_loop u k w v l =
      let (o, at) = find {p = loop} v.core (ground (arith, v.core.balance loop)) in
      rw (unref_with_shared env w loop o _ at (ground (arith, v.core.balance loop)))
        (returns (unref_Inv v at (λ q. refl), refl))

  report-Kept :
      (u k : Held) (w : World S)
      → Inv loop (grab loop (u ⊕ k)) w
      → 0 < k loop
      → 0 < k p
      → Safe (λ _ w'. Kept loop k w' × (w'.weak r ≡ w.weak r)) (report env p (some loop) w)
  report-Kept u k w v l lp =
      Safe.bind
        (with_IfOk (aml_emit-Inv v p 0 (ground (arith, v.core.balance p)))
          ((aml_emit-Keeps p 0).keeps w))
        λ _ w1 (v1, s1).
          Safe.bind
            (with_IfOk
              (aml_interrupt-Frames env tame u (grab loop k) w1 (Inv-held (λ q. omega arith) v1)
                (omega arith))
              (calm.keeps w1))
            λ _ w2 ((u2, v2), s2).
              Safe.mono (unref_loop u2 k w2 (Inv-held (λ q. omega arith) v2) l)
                λ _ w3 (v3, s3). ((u2, v3), s3 ∙ s2 ∙ s1)

  -- From a store that satisfies the invariant, while the caller holds the loop, a worker that runs
  -- a job with a reference to its work and a weak reference that leads to the loop never faults:
  -- unless a reference count would pass INT_MAX the invariant and the references of the caller are
  -- kept, if the backend and the user code return and give up only references of their own and
  -- neither the work function nor the interruption of the loop touches the weak reference of the
  -- job.
  pub run_job-Kept :
      (u k : Held) (w : World S)
      → Inv loop (u ⊕ grab p k) w
      → 0 < k loop
      → w.weak r ≡ some (some loop)
      → Safe (λ _. Kept loop k) (run_job env run (some r) p w)
  unfolding run_job aml_get_work_fn
  run_job-Kept u k w v l leads =
      let (o, at) = find {p = p} v.core (ground (arith, v.core.balance p)) in
      rw (at, load)
        (Safe.bind (call_work-Kept o.work_fn u (grab p k) w v (omega arith) (ground arith))
          λ _ w1 ((u1, v1), s1).
            Safe.bind
              (with_IfOk (aml_weak_ref_read-Read v1 r (some loop) (s1 ∙ leads))
                ((aml_weak_ref_read-Keeps r).keeps w1))
              λ res w2 ((e, (v2, _)), s2). rw e (
                Safe.bind (report-Kept u1 (grab p k) w2 v2 (omega arith) (ground arith))
                  λ _ w3 ((u3, v3), s3).
                    Safe.bind (aml_weak_ref_del-Inv v3 r (some loop) (s3 ∙ s2 ∙ s1 ∙ leads))
                      λ _ w4 (_, v4).
                        Safe.bind (aml_unref-Kept env tame.free u3 k w4 p v4 l)
                          λ _ w5 (kept, _). returns kept))
