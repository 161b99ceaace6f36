-- ===== src/Inv/WeakRefs.antt =====
-- `aml_weak_ref_new`, `aml_weak_ref_del`, `aml_weak_ref_read` and the invariant.
use aml.Base.{
  ◌+◌, ◌≡◌, ◌<◌, ◌≢◌, none, some, arith, ◌==◌, ltb, if◌then◌else◌, count, refl, List, ◌∷◌, Option,
  has, erase, count-erase, count-has, true, Bool-cases, inl, inr, Option-cases, is_some,
}
use aml.World.{Ptr, Fn, Obj, World, load, put, update, int_limit}
use aml.World.Views.{refs, weaks}
use aml.World.Env.{Env}
use aml.World.Safe
use aml.World.Safe.{Safe, returns, overflows}
use aml.Ref.{aml_weak_ref_new, aml_weak_ref_del, aml_weak_ref_read, load_weak}
use aml.Unref.{aml_unref}
use aml.Inv.Unref.{aml_unref-Kept}
use aml.Inv.{Held, ◌⊕◌, FramesFree, grab, Inv}
use aml.Inv.Refs.{find, StepAt-ref}
use aml.Inv.Step.{StepAt-Inv}
use aml.Inv.Weak.{with_weak_refs}

-- A world with another list of weak references at `p`, and another reference at `r`.
abbrev relinked :
    {S : Type 0} → Ptr → Obj → List Ptr → Ptr → Option (Option Ptr) → World S → World S
relinked p o rs r c w = record (put p (with_weak_refs o rs) w) { weak = update w.weak r c }

module _ {S : Type 0} {loop : Ptr} {held : Held} {w : World S} (v : Inv loop held w) (p r : Ptr)
    (o : Obj) (rs : List Ptr) (c : Option (Option Ptr)) (at : w.objs p ≡ some o) where
  weaks-relinked : (q : Ptr) → weaks (relinked p o rs r c w) q ≡ (if p == q then rs else weaks w q)
  weaks-relinked q = ground arith

  -- The rest of the invariant does not depend on the weak references.
  relinked-Inv :
      ((q s : Ptr)
        → 0 < count s (weaks (relinked p o rs r c w) q)
        → (relinked p o rs r c w).weak s ≡ some (some q))
      → ((q s : Ptr)
          → (relinked p o rs r c w).weak s ≡ some (some q)
          → count s (weaks (relinked p o rs r c w) q) ≡ 1)
      → Inv loop held (relinked p o rs r c w)
  relinked-Inv linked linking = record {
    core = record {
      this = v.core.this;
      balance = λ q. ground (arith, v.core.balance q);
      queued = λ q. ground (arith, v.core.queued q);
      fits = λ q. ground (arith, v.core.fits q);
      once = v.core.once;
      typed = λ q x e. ground (arith, v.core.typed q x, v.core.typed p o);
      one_loop = λ q e. ground (arith, v.core.one_loop q);
      is_loop = ground (arith, v.core.is_loop);
      linked = linked;
      linking = linking;
    };
    timers = λ q. ground (arith, v.timers q);
    idles = λ q. ground (arith, v.idles q);
  }

module _ {S : Type 0} {loop : Ptr} {held : Held} {w : World S} (v : Inv loop held w) (p r : Ptr)
    (o : Obj) (at : w.objs p ≡ some o) where
  -- A new weak reference at an address that holds none.
  new-Inv : w.weak r ≡ none → Inv loop held (relinked p o (r ∷ o.weak_refs) r (some (some p)) w)
  new-Inv fresh =
      relinked-Inv v p r o (r ∷ o.weak_refs) _ at
        (λ q s n.
          ground (arith, weaks-relinked v p r o (r ∷ o.weak_refs) none at q, v.core.linked q s))
        (λ q s e. ground (
          arith,
          weaks-relinked v p r o (r ∷ o.weak_refs) none at q,
          v.core.linking q s,
          v.core.linked p r,
        ))

  del-Inv : w.weak r ≡ some (some p) → Inv loop held (relinked p o (erase r o.weak_refs) r none w)
  del-Inv here =
      relinked-Inv v p r o (erase r o.weak_refs) none at
        (λ q s n. ground (
          arith,
          weaks-relinked v p r o (erase r o.weak_refs) none at q,
          v.core.linked q s,
          v.core.linking p r here,
          count-erase r s o.weak_refs,
        ))
        (λ q s e. ground (
          arith,
          weaks-relinked v p r o (erase r o.weak_refs) none at q,
          v.core.linking q s,
          count-erase r s o.weak_refs,
        ))

module _ {S : Type 0} {loop : Ptr} {held : Held} {w : World S} (v : Inv loop held w) (r : Ptr) where
  -- A weak reference whose object is gone may be freed.
  drop-Inv : w.weak r ≡ some none → Inv loop held (record w { weak = update w.weak r none })
  drop-Inv here = record {
    core = record {
      this = v.core.this;
      balance = v.core.balance;
      queued = v.core.queued;
      fits = v.core.fits;
      once = v.core.once;
      typed = v.core.typed;
      one_loop = v.core.one_loop;
      is_loop = v.core.is_loop;
      linked = λ q s n. ground (arith, v.core.linked q s);
      linking = λ q s e. ground (arith, v.core.linking q s);
    };
    timers = v.timers;
    idles = v.idles;
  }

  -- From a store that satisfies the invariant, for a live object and an address from calloc at
  -- which no weak reference stands, aml_weak_ref_new never faults and returns that address, the
  -- weak reference leads to the object, and the invariant is kept.
  pub aml_weak_ref_new-Inv :
      (p : Ptr)
      → 0 < refs w p
      → w.weak r ≡ none
      → Safe
          (λ res w'. (res ≡ some r) × (w'.weak r ≡ some (some p)) × Inv loop held w')
          (aml_weak_ref_new (some r) p w)
  unfolding aml_weak_ref_new
  aml_weak_ref_new-Inv p live fresh =
      let (o, at) = find {p = p} v.core live in
      rw (at, load) (returns (refl, ground arith, new-Inv v p r o at fresh))

  -- A weak reference that leads somewhere leads to a live object.
  target_live : (p : Ptr) → w.weak r ≡ some (some p) → (o : Obj) × (w.objs p ≡ some o)
  target_live p here = elim (Option-cases (w.objs p)) [
    | inl e ↦ absurd (ground (arith, v.core.linking p r))
    | inr found ↦ found
  ]

  del-at :
      (target : Option Ptr)
      → w.weak r ≡ some target
      → Safe (λ _ w'. (w'.weak r ≡ none) × Inv loop held w') (aml_weak_ref_del (some r) w)
  unfolding aml_weak_ref_del
  del-at none here = rw (here, load_weak) (returns (ground arith, drop-Inv here))
  del-at (some p) here =
      let (o, at) = target_live p here in
      let linked : has r o.weak_refs ≡ true =
        count-has r o.weak_refs (ground (arith, v.core.linking p r)) in
      rw (here, load_weak, at, load, linked) (returns (ground arith, del-Inv v p r o at here))

  -- From a store that satisfies the invariant, aml_weak_ref_del of an allocated weak reference
  -- never faults, whether its object still lives or not: the weak reference is gone and the
  -- invariant is kept.
  pub aml_weak_ref_del-Inv :
      (target : Option Ptr)
      → w.weak r ≡ some target
      → Safe (λ _ w'. (w'.weak r ≡ none) × Inv loop held w') (aml_weak_ref_del (some r) w)
  aml_weak_ref_del-Inv = del-at

  -- What a read hands over: nothing, or a reference to the object.
  abbrev pub Read : Option Ptr → World S → Type 0
  Read none w' = w' ≡ w
  Read (some p) w' = Inv loop (grab p held) w' × (is_some (w.objs p) ≡ true)

  -- From a store that satisfies the invariant, aml_weak_ref_read of an allocated weak reference
  -- never faults: it returns NULL and changes nothing if the object is gone, and otherwise, unless
  -- a reference count would pass INT_MAX, the object, which is live, with a new reference for the
  -- caller.
  pub aml_weak_ref_read-Read :
      (target : Option Ptr)
      → w.weak r ≡ some target
      → Safe (λ res w'. (res ≡ target) × Read target w') (aml_weak_ref_read r w)
  unfolding aml_weak_ref_read
  aml_weak_ref_read-Read none here = rw (here, load_weak) (returns (refl, refl))
  aml_weak_ref_read-Read (some p) here =
      let (o, at) = target_live p here in
      rw (here, load_weak, at, load)
        (elim (Bool-cases (ltb (o.ref + 1) int_limit)) [
          | inl small ↦ rw small (
              returns (
                refl,
                (
                  StepAt-Inv v (StepAt-ref v at small)
                      (record { started = λ q. refl; timer = λ q. refl; idle = λ q. refl }),
                  refl,
                ),
              ))
          | inr big ↦ rw big overflows
        ])

module _ {S : Type 0} (env : Env S) {loop : Ptr}
    (tame : (f : Fn) (x : Ptr) → FramesFree loop (env.call_free f x)) where
  -- Where aml_unref of a held reference returns 0, no weak reference leads to the object
  -- afterwards, from a store that satisfies the invariant while the caller holds the loop, provided
  -- that free functions return and give up only references of their own; it never faults, and may
  -- only stop where a reference count would pass INT_MAX.
  pub aml_unref-weak :
      (u k : Held) (w : World S) (p : Ptr)
      → Inv loop (u ⊕ grab p k) w
      → 0 < k loop
      → Safe (λ n w'. n ≡ 0 → (r : Ptr) → w'.weak r ≢ some (some p)) (aml_unref env p w)
  aml_unref-weak u k w p v l =
      Safe.mono (aml_unref-Kept env tame u k w p v l) λ n w' ((u', v'), gone) zero r leads.
        let (o, at) = target_live v' r p leads in ground (arith, gone zero)
