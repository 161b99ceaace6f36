-- ===== src/Inv/Refs.antt =====
-- `aml_ref` and the invariant.
use aml.Base.{
  ℕ, ◌+◌, ◌≡◌, ◌<◌, some, true, arith, if◌then◌else◌, refl, Bool-cases, ltb, inl, inr, Option-cases,
}
use aml.World.{Ptr, Obj, World, ok, overflow, skip, ◌>>◌, load, put, int_limit}
use aml.World.Views.{refs}
use aml.World.Safe.{Safe, returns, overflows}
use aml.Ref.{aml_ref}
use aml.Inv.{Held, grab, Core, Inv}
use aml.Inv.Step.{StepAt, SameLists, StepAt-Inv}

abbrev pub with_ref : Obj → ℕ → Obj
with_ref o n = record o { ref = n }

module _ {S : Type 0} where
  -- `aml_ref` of a live object.
  pub aml_ref_lem :
      (w : World S) (p : Ptr) (o : Obj)
      → w.objs p ≡ some o
      → aml_ref p w ≡ (
          if ltb (o.ref + 1) int_limit
          then ok o.ref (put p (with_ref o (o.ref + 1)) w)
          else overflow)
  unfolding aml_ref
  aml_ref_lem w p o at = rw (at, load) (ground arith)

  -- `aml_ref` as the last step: the count is at its limit, or the new state is known.
  pub aml_ref-then :
      (P : World S → Type 0) (w : World S) (p : Ptr) (o : Obj)
      → w.objs p ≡ some o
      → (ltb (o.ref + 1) int_limit ≡ true → P (put p (with_ref o (o.ref + 1)) w))
      → Safe (λ _. P) ((aml_ref p >> skip) w)
  aml_ref-then P w p o at next =
      rw (aml_ref_lem w p o at) (elim (Bool-cases (ltb (o.ref + 1) int_limit)) [
        | inl small ↦ rw small (returns (next small))
        | inr big ↦ rw big overflows
      ])

module _ {S : Type 0} {loop : Ptr} {held : Held} {w : World S} where
  pub find : {p : Ptr} → Core loop held w → 0 < refs w p → (o : Obj) × (w.objs p ≡ some o)
  find {p} c n = elim (Option-cases (w.objs p)) [
    | inl e ↦ absurd (ground arith)
    | inr found ↦ found
  ]

  module _ (v : Inv loop held w) {p : Ptr} {o : Obj} (at : w.objs p ≡ some o) where
    SameLists-put : (o' : Obj) → SameLists w (put p o' w)
    SameLists-put o' = record { started = λ q. refl; timer = λ q. refl; idle = λ q. refl }

    -- The count changes by one, with the references held elsewhere.
    pub StepAt-ref :
        ltb (o.ref + 1) int_limit ≡ true
        → StepAt p o
            (with_ref o (o.ref + 1))
            held
            (grab p held)
            w
            (put p (with_ref o (o.ref + 1)) w)
    StepAt-ref small = record {
      this = refl;
      weak = λ r. refl;
      before = at;
      after = ground arith;
      others = λ q ne. ground arith;
      kind = refl;
      weak_refs = refl;
      ref = ground (arith, v.core.balance p);
      elsewhere = λ q ne. ground arith;
      listed = v.core.once;
      queue = ground (arith, v.core.queued p);
      queues = λ q ne. refl;
      small = ground arith;
    }

    -- `aml_ref` counts one more reference, unless the count is at its limit.
    pub aml_ref-Inv :
        Safe
          (λ n w'.
            (n ≡ o.ref) × (w' ≡ put p (with_ref o (o.ref + 1)) w) × Inv loop (grab p held) w')
          (aml_ref p w)
    unfolding aml_ref
    aml_ref-Inv =
        rw (at, load)
          (elim (Bool-cases (ltb (o.ref + 1) int_limit)) [
            | inl small ↦
                rw small (returns (refl, refl, StepAt-Inv v (StepAt-ref small) (SameLists-put _)))
            | inr big ↦ rw big overflows
          ])
