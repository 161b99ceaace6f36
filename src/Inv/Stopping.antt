-- ===== src/Inv/Stopping.antt =====
-- `aml_stop` and the invariant.
use aml.Base.{
  ◌-◌, ◌≡◌, ◌<◌, Option, none, some, true, false, arith, count, refl, Bool-cases, inl, inr, has,
  erase, count-erase, has-count, count-has,
}
use aml.World.{
  Ptr, ObjType, unspec, main_loop, handler, timer, ticker, signal, work, idle, Obj, World, ok, pure,
  ◌>>◌, load, put, Rc, success, failure,
}
use aml.World.Env.{Env}
use aml.Object.{is_timer, is_idle}
use aml.World.Views.{refs, kind_at}
use aml.World.Safe
use aml.World.Safe.{Safe, returns}
use aml.Stop.{
  stop_unchecked, stop_kind, stop_handler, set_timer_list, set_idle_list, set_parent, on_success,
}
use aml.Unref.{aml_unref, set_obj_list}
use aml.Registry.{obj_try_remove, obj_remove, aml_stop, stop_removed}
use aml.Inv.{Held, ◌⊕◌, grab, Core, Inv, Kept, FramesAt}
use aml.Inv.Step.{StepAt, StepAt-Core, kind_at-step, put-Inv, Inv-held}
use aml.Inv.Refs.{with_ref, find, aml_ref-Inv}
use aml.Inv.Unref.{unref_with_shared, aml_unref-Kept}
use aml.Inv.Tame.{IsTame}

-- The state after `aml__obj_remove_unlocked` of an object with other references.
abbrev pub unlisted : {S : Type 0} → Ptr → Obj → World S → World S
unlisted p o w = put p (with_ref o (o.ref - 1)) (set_obj_list (erase p w.obj_list) w)

module _ {S : Type 0} {loop : Ptr} {held : Held} {w : World S} (v : Inv loop held w) (p : Ptr)
    (o : Obj) (at : w.objs p ≡ some o) (started : has p w.obj_list ≡ true) where
  StepAt-unlisted : StepAt p o (with_ref o (o.ref - 1)) held held w (unlisted p o w)
  StepAt-unlisted = record {
    this = refl;
    weak = λ r. refl;
    before = at;
    after = ground arith;
    others = λ q ne. ground arith;
    kind = refl;
    weak_refs = refl;
    ref =
        ground
          (arith, v.core.balance p, count-erase p p w.obj_list, has-count p w.obj_list started);
    elsewhere = λ q ne. ground (arith, count-erase p q w.obj_list);
    listed = λ q. ground (arith, count-erase p q w.obj_list, v.core.once q);
    queue = ground (arith, v.core.queued p);
    queues = λ q ne. refl;
    small = ground (arith, v.core.fits p);
  }

  unlisted-Core : Core loop held (unlisted p o w)
  unlisted-Core = StepAt-Core v.core StepAt-unlisted

  kind_at-unlisted : (q : Ptr) → kind_at (unlisted p o w) q ≡ kind_at w q
  kind_at-unlisted = kind_at-step v.core StepAt-unlisted

  gone : count p (erase p w.obj_list) ≡ 0
  gone = ground (arith, count-erase p p w.obj_list, v.core.once p)

  -- An object that is neither a timer nor idle is on no other list.
  pub unlisted-Inv :
      is_timer o.kind ≡ false → is_idle o.kind ≡ false → Inv loop held (unlisted p o w)
  unlisted-Inv t i = record {
    core = unlisted-Core;
    timers = λ q. ground (arith, v.timers q, at, count-erase p q w.obj_list);
    idles = λ q. ground (arith, v.idles q, at, count-erase p q w.obj_list);
  }

  untimed-Inv :
      is_timer o.kind ≡ true
      → Inv loop held (set_timer_list (erase p w.timer_list) (unlisted p o w))
  untimed-Inv t = record {
    core = record {
      this = unlisted-Core.this;
      balance = unlisted-Core.balance;
      queued = unlisted-Core.queued;
      fits = unlisted-Core.fits;
      once = unlisted-Core.once;
      typed = unlisted-Core.typed;
      one_loop = unlisted-Core.one_loop;
      is_loop = unlisted-Core.is_loop;
      linked = unlisted-Core.linked;
      linking = unlisted-Core.linking;
    };
    timers = λ q.
        ground
          (arith, v.timers q, at, count-erase p q w.obj_list, count-erase p q w.timer_list, gone);
    idles = λ q. ground (arith, v.idles q, at, count-erase p q w.obj_list);
  }

  unidled-Inv :
      is_idle o.kind ≡ true → Inv loop held (set_idle_list p (erase p w.idle_list) (unlisted p o w))
  unidled-Inv t = record {
    core = record {
      this = unlisted-Core.this;
      balance = unlisted-Core.balance;
      queued = unlisted-Core.queued;
      fits = unlisted-Core.fits;
      once = unlisted-Core.once;
      typed = unlisted-Core.typed;
      one_loop = unlisted-Core.one_loop;
      is_loop = unlisted-Core.is_loop;
      linked = unlisted-Core.linked;
      linking = unlisted-Core.linking;
    };
    timers = λ q. ground (arith, v.timers q, at, count-erase p q w.obj_list);
    idles = λ q.
        ground
          (arith, v.idles q, at, count-erase p q w.obj_list, count-erase p q w.idle_list, gone);
  }

  timed : is_timer o.kind ≡ true → has p w.timer_list ≡ true
  timed t =
      count-has p w.timer_list (ground (arith, v.timers p, at, has-count p w.obj_list started))

  idled : is_idle o.kind ≡ true → has p w.idle_list ≡ true
  idled t = count-has p w.idle_list (ground (arith, v.idles p, at, has-count p w.obj_list started))

module _ {S : Type 0} (env : Env S) {loop : Ptr} (tame : IsTame loop env) where
  pub set_parent-Kept :
      (u k : Held) (w : World S) (p : Ptr) (parent : Option Ptr)
      → Inv loop (u ⊕ k) w
      → 0 < k p
      → Safe (λ _. Kept loop k) (set_parent p parent w)
  set_parent-Kept u k w p parent v l =
      let (o, at) = find {p = p} v.core (ground (arith, v.core.balance p)) in
      rw (at, load)
        (returns (
          u,
          put-Inv v at (record o { parent = parent })
              (record { kind = refl; weak_refs = refl; ref = refl; n_events = refl }),
        ))

  stop_handler-Kept : (p : Ptr) → FramesAt loop p (stop_handler env p)
  unfolding stop_handler
  stop_handler-Kept p u k w v l lp = Safe.bind (tame.del_fd p u k w v l lp) next
    where
      next :
          (rc : Rc) (w' : World S)
          → Kept loop k w'
          → Safe (λ _. Kept loop k) (on_success rc (set_parent p none >> pure success) w')
      next failure w' kept = returns kept
      next success w' (u', v') =
          Safe.bind (set_parent-Kept u' k w' p none v' lp) λ _ _ kept. returns kept

  module _ (u k : Held) (w : World S) (p : Ptr) (o : Obj) (v : Inv loop (u ⊕ k) w)
      (at : w.objs p ≡ some o) (started : has p w.obj_list ≡ true) (l : 0 < k loop)
      (lp : 0 < k p) where
    stop_kind-Kept :
        (kind : ObjType)
        → o.kind ≡ kind
        → Safe (λ _. Kept loop k) (stop_kind env kind p (unlisted p o w))
    unfolding stop_kind
    stop_kind-Kept unspec e = absurd (v.core.typed p o at e)
    stop_kind-Kept main_loop e =
        returns (u, unlisted-Inv v p o at started (ground arith) (ground arith))
    stop_kind-Kept handler e =
        stop_handler-Kept p u k _ (unlisted-Inv v p o at started (ground arith) (ground arith)) l lp
    stop_kind-Kept timer e =
        rw (timed v p o at started (ground arith))
          (returns (u, untimed-Inv v p o at started (ground arith)))
    stop_kind-Kept ticker e =
        rw (timed v p o at started (ground arith))
          (returns (u, untimed-Inv v p o at started (ground arith)))
    stop_kind-Kept signal e =
        tame.del_signal p u k _ (unlisted-Inv v p o at started (ground arith) (ground arith)) l lp
    stop_kind-Kept work e = returns (u, unlisted-Inv v p o at started (ground arith) (ground arith))
    stop_kind-Kept idle e =
        rw (idled v p o at started (ground arith))
          (returns (u, unidled-Inv v p o at started (ground arith)))

    stop_unchecked-Kept : Safe (λ _. Kept loop k) (stop_unchecked env p (unlisted p o w))
    unfolding stop_unchecked
    stop_unchecked-Kept =
        let here : (unlisted p o w).objs p ≡ some (with_ref o (o.ref - 1)) = ground arith in
        rw (here, load) (stop_kind-Kept o.kind refl)

    -- The list gives up its reference, and others are left.
    pub obj_remove_lem : obj_remove env p w ≡ ok tt (unlisted p o w)
    unfolding obj_remove aml_unref
    obj_remove_lem =
        let many : 1 < o.ref = ground (arith, v.core.balance p, has-count p w.obj_list started) in
        rw (started, unref_with_shared env (set_obj_list (erase p w.obj_list) w) p o _ at many)

  module _ (u k : Held) (w : World S) (p : Ptr) (v : Inv loop (u ⊕ grab p k) w)
      (l : 0 < k loop) where
    -- What is left to do after `aml__obj_try_remove`.
    abbrev Rest : Rc → World S → Type 0
    Rest rc w' = Safe (λ _. Kept loop (grab p k)) (stop_removed env rc p w')

    removed-Rest : Safe Rest (obj_try_remove env p w)
    unfolding obj_try_remove
    removed-Rest = elim (Bool-cases (has p w.obj_list)) [
      | inl started ↦
          let (o, at) = find {p = p} v.core (ground (arith, v.core.balance p)) in
          rw (started, obj_remove_lem u (grab p k) w p o v at started (omega arith) (ground arith))
            (returns (
              Safe.bind
                (stop_unchecked-Kept u (grab p k) w p o v at started (omega arith) (ground arith))
                λ _ w' kept. returns kept))
      | inr other ↦ rw other (returns (returns (u, v)))
    ]

  -- From a store that satisfies the invariant, aml_stop of a live object, started or not, while the
  -- caller holds the loop, never faults: unless a reference count would pass INT_MAX the invariant
  -- and the references of the caller are kept, if the backend and the user code, in whatever state
  -- they are called, return and give up only references of their own.
  pub aml_stop-Kept :
      (u k : Held) (w : World S) (p : Ptr)
      → Inv loop (u ⊕ k) w
      → 0 < k loop
      → 0 < refs w p
      → Safe (λ _. Kept loop k) (aml_stop env p w)
  unfolding aml_stop
  aml_stop-Kept u k w p v l live =
      let (o, at) = find {p = p} v.core live in
      Safe.bind (aml_ref-Inv v at) λ _ w1 (n, e, v1).
        Safe.bind (removed-Rest u k w1 p (Inv-held (λ q. omega arith) v1) l) λ rc w2 rest.
          Safe.bind rest λ _ w3 (u3, v3).
            Safe.bind (aml_unref-Kept env tame.free u3 k w3 p v3 l) λ _ w4 (kept, _). returns kept
