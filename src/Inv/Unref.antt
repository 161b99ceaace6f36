-- ===== src/Inv/Unref.antt =====
-- `aml_unref` and the invariant.
use aml.Base.{
  ℕ, ◌-◌, ◌≡◌, ◌<◌, ◌≢◌, Option, none, some, true, arith, ◌==◌, refl, ◌∙◌, Bool-cases, inl, inr, [],
  false,
}
use aml.World.{
  Ptr, Fn, ObjType, unspec, main_loop, Obj, World, Cmd, ok, pure, ◌>>=◌, load, put, update,
}
use aml.World.Env.{Env}
use aml.World.Safe
use aml.World.Safe.{Safe, returns}
use aml.Unref.{free_object, free_kind, call_free_fn, release, unref_with, aml_unref}
use aml.Inv.{Held, ◌⊕◌, grab, Inv, Kept, FramesFree}
use aml.Inv.Step.{StepAt, StepAt-Inv}
use aml.Inv.Refs.{with_ref, find}
use aml.Inv.Weak.{with_weak_refs, clear_weak_refs-Inv}

module _ {S : Type 0} {loop : Ptr} {held : Held} {w : World S} (v : Inv loop held w) {p : Ptr}
    (o : Obj) (at : w.objs p ≡ some o) where
  -- The address of an object that nothing refers to is given back.
  freed-Inv :
      o.ref ≡ 0
      → o.weak_refs ≡ []
      → o.kind ≢ main_loop
      → Inv loop held (record w { objs = update w.objs p none })
  freed-Inv none_left no_weak plain = record {
    core = record {
      this = v.core.this;
      balance = λ q. ground (arith, v.core.balance q);
      queued = λ q. ground (arith, v.core.queued q, v.core.balance q);
      fits = λ q. ground (arith, v.core.fits q);
      once = v.core.once;
      typed = λ q x e. ground (arith, v.core.typed q x);
      one_loop = λ q e. ground (arith, v.core.one_loop q);
      is_loop = ground (arith, v.core.is_loop, plain);
      linked = λ q r n. ground (arith, v.core.linked q r);
      linking = λ q r e. ground (arith, v.core.linking q r);
    };
    timers = λ q. ground (arith, v.timers q, v.core.balance q);
    idles = λ q. ground (arith, v.idles q, v.core.balance q);
  }

module _ {S : Type 0} (env : Env S) where
  pub free_kind-free_object :
      (f : Ptr → Cmd S ℕ) (kind : ObjType) (p : Ptr) (w : World S)
      → kind ≢ unspec
      → kind ≢ main_loop
      → free_kind env f kind p w ≡ free_object env p w
  unfolding free_kind
  free_kind-free_object f unspec p w a b = absurd (a refl)
  free_kind-free_object f main_loop p w a b = absurd (b refl)
  free_kind-free_object f _ p w a b = refl

  module _ {loop : Ptr} (tame : (f : Fn) (x : Ptr) → FramesFree loop (env.call_free f x)) where
    call_free_fn-Frames : (f : Option Fn) (x : Ptr) → FramesFree loop (call_free_fn env f x)
    call_free_fn-Frames none x u k w v l = returns ((u, v), λ p e s. refl)
    call_free_fn-Frames (some f) x u k w v l = tame f x u k w v l

    free_object-Kept :
        (u k : Held) (w : World S) (p : Ptr) (o : Obj)
        → Inv loop (u ⊕ k) w
        → 0 < k loop
        → w.objs p ≡ some o
        → o.ref ≡ 0
        → o.weak_refs ≡ []
        → o.kind ≢ main_loop
        → Safe (λ _ w'. Kept loop k w' × (w'.objs p ≡ none)) (free_object env p w)
    unfolding free_object
    free_object-Kept u k w p o v l at zero no_weak plain =
        rw (at, load)
          (Safe.bind (call_free_fn-Frames o.free_fn o.userdata u k w v l) λ _ w' ((u', v'), same).
            let at' : w'.objs p ≡ some o = same p (ground arith) (ground arith) ∙ at in
            returns ((u', freed-Inv v' o at' zero no_weak plain), ground arith))

    release-Kept :
        (u k : Held) (w : World S) (p : Ptr) (o : Obj) (f : Ptr → Cmd S ℕ)
        → Inv loop (u ⊕ k) w
        → 0 < k loop
        → w.objs p ≡ some o
        → o.ref ≡ 0
        → Safe (λ _ w'. Kept loop k w' × (w'.objs p ≡ none)) (release env f p w)
    unfolding release
    release-Kept u k w p o f v l at zero =
        rw (at, load)
          (Safe.bind (clear_weak_refs-Inv o.weak_refs p o at refl v) λ _ w' (v', at').
            let not_loop : o.kind ≢ main_loop =
              λ e. ground (arith, v.core.one_loop p, v.core.balance p) in
            rw (free_kind-free_object f o.kind p w' (v.core.typed p o at) not_loop)
              (free_object-Kept u k w' p (with_weak_refs o []) v' l at' zero refl not_loop))

  module _ (w : World S) (p : Ptr) (o : Obj) (f : Ptr → Cmd S ℕ) (at : w.objs p ≡ some o) where
    -- A count above 1 is only lowered.
    pub unref_with_shared :
        1 < o.ref → unref_with env f p w ≡ ok (o.ref - 1) (put p (with_ref o (o.ref - 1)) w)
    unfolding unref_with
    unref_with_shared many =
        let not_zero : (o.ref == 0) ≡ false = ground arith in
        let not_one : (o.ref == 1) ≡ false = ground arith in rw (at, load, not_zero, not_one)

    pub unref_with_last :
        o.ref ≡ 1
        → unref_with env f p w
          ≡ (release env f p >>= λ _. pure (o.ref - 1)) (put p (with_ref o (o.ref - 1)) w)
    unfolding unref_with
    unref_with_last one =
        let not_zero : (o.ref == 0) ≡ false = ground arith in
        let is_one : (o.ref == 1) ≡ true = ground arith in rw (at, load, not_zero, is_one)

module _ {S : Type 0} {loop : Ptr} {h h' : Held} {w : World S} (v : Inv loop h w) {p : Ptr}
    {o : Obj} (at : w.objs p ≡ some o) where
  StepAt-unref :
      (same : (q : Ptr) → h q ≡ grab p h' q)
      → StepAt p o (with_ref o (o.ref - 1)) h h' w (put p (with_ref o (o.ref - 1)) w)
  StepAt-unref same = record {
    this = refl;
    weak = λ r. refl;
    before = at;
    after = ground arith;
    others = λ q ne. ground arith;
    kind = refl;
    weak_refs = refl;
    ref = ground (arith, v.core.balance p, same p);
    elsewhere = λ q ne. ground (arith, same q);
    listed = v.core.once;
    queue = ground (arith, v.core.queued p);
    queues = λ q ne. refl;
    small = ground (arith, v.core.fits p);
  }

  -- One reference fewer.
  pub unref_Inv :
      (same : (q : Ptr) → h q ≡ grab p h' q) → Inv loop h' (put p (with_ref o (o.ref - 1)) w)
  unref_Inv same =
      StepAt-Inv v (StepAt-unref same)
        (record { started = λ q. refl; timer = λ q. refl; idle = λ q. refl })

module _ {S : Type 0} (env : Env S) {loop : Ptr}
    (tame : (f : Fn) (x : Ptr) → FramesFree loop (env.call_free f x)) where
  aml_unref-at :
      (u k : Held) (w : World S) (p : Ptr) (o : Obj)
      → w.objs p ≡ some o
      → Inv loop (u ⊕ grab p k) w
      → 0 < k loop
      → Safe (λ n w'. Kept loop k w' × ((n ≡ 0) → w'.objs p ≡ none)) (aml_unref env p w)
  unfolding aml_unref
  aml_unref-at u k w p o at v l = elim (Bool-cases (o.ref == 1)) [
    | inl one ↦ rw (unref_with_last env w p o _ at (ground arith)) (
        Safe.bind
          (release-Kept env tame u k _ p (with_ref o (o.ref - 1)) _ w1 l (ground arith)
            (ground arith))
          λ _ w' (kept, gone). returns (kept, λ _. gone))
    | inr more ↦
        rw (unref_with_shared env w p o _ at (ground (arith, v.core.balance p)))
          (returns ((u, w1), λ e. ground (arith, v.core.balance p)))
  ]
    where
      w1 : Inv loop (u ⊕ k) (put p (with_ref o (o.ref - 1)) w)
      w1 = unref_Inv v at (λ q. omega arith)

  -- From a store that satisfies the invariant, giving up a reference that is held while the caller
  -- holds the loop never faults: unless a reference count would pass INT_MAX the invariant and the
  -- references of the caller are kept, and if the count returned is 0 the object is gone, provided
  -- that free functions return and give up only references of their own.
  pub aml_unref-Kept :
      (u k : Held) (w : World S) (p : Ptr)
      → Inv loop (u ⊕ grab p k) w
      → 0 < k loop
      → Safe (λ n w'. Kept loop k w' × ((n ≡ 0) → w'.objs p ≡ none)) (aml_unref env p w)
  aml_unref-Kept u k w p v l =
      let (o, at) = find {p = p} v.core (ground (arith, v.core.balance p)) in
      aml_unref-at u k w p o at v l
