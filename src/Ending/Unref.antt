-- ===== src/Ending/Unref.antt =====
-- `aml_unref` of src/aml.c at the end of a loop: one reference fewer, or the object is gone.
use aml.Base.{
  ℕ, ◌-◌, ◌≡◌, ◌<◌, ◌≢◌, Option, none, some, arith, ◌==◌, refl, ◌∙◌, Bool-cases, inl, inr, [], ◌⊎◌,
}
use aml.World.{Ptr, Fn, main_loop, Obj, World, Cmd, load, put, update}
use aml.World.Env.{Env}
use aml.World.Safe.{Ends, ends, bind-Ends, mono-Ends}
use aml.World.Outside.{set_state, call-Ends, Outside}
use aml.Unref.{free_object, call_free_fn, release, unref_with}
use aml.Inv.{Held, grab}
use aml.Inv.Refs.{with_ref}
use aml.Inv.Weak.{with_weak_refs}
use aml.Inv.Unref.{unref_with_shared, unref_with_last, free_kind-free_object}
use aml.Ending.{IsOutside}
use aml.Ending.Ledger.{Ledger, SameFields, set_state-Ledger, clear_weak_refs-Cleared}

-- One reference to `p` fewer.
pub record Lowered {S : Type 0} (p : Ptr) (o : Obj) (w w' : World S) : Type 0 where
  pub same : SameFields w w'
  pub others : (q : Ptr) → p ≢ q → w'.objs q ≡ w.objs q
  pub here :
      ((1 < o.ref) × (w'.objs p ≡ some (with_ref o (o.ref - 1))))
      ⊎ ((o.ref ≡ 1) × (w'.objs p ≡ none))

-- The object at `p` is gone.
pub record Gone {S : Type 0} (p : Ptr) (w w' : World S) : Type 0 where
  pub same : SameFields w w'
  pub others : (q : Ptr) → p ≢ q → w'.objs q ≡ w.objs q
  pub here : w'.objs p ≡ none

module _ {S : Type 0} {loop : Ptr} {owed : Held} {w : World S} (p : Ptr) (o : Obj)
    (at : w.objs p ≡ some o) where
  lowered-Ledger : Ledger loop (grab p owed) w → Ledger loop owed (put p (with_ref o (o.ref - 1)) w)
  lowered-Ledger c = record {
    balance = λ q. ground (arith, c.balance q);
    typed = λ q x t. ground (arith, c.typed q x, c.typed p o);
    one_loop = λ q k. ground (arith, c.one_loop q);
    links = record {
      linked = λ q r n. ground (arith, c.links.linked q r);
      linking = λ q r e. ground (arith, c.links.linking q r);
    };
  }

  freed-Ledger :
      o.ref ≡ 0
      → o.weak_refs ≡ []
      → Ledger loop owed w
      → Ledger loop owed (record w { objs = update w.objs p none })
  freed-Ledger zero no_weak c = record {
    balance = λ q. ground (arith, c.balance q);
    typed = λ q x t. ground (arith, c.typed q x);
    one_loop = λ q k. ground (arith, c.one_loop q);
    links = record {
      linked = λ q r n. ground (arith, c.links.linked q r);
      linking = λ q r e. ground (arith, c.links.linking q r);
    };
  }

module _ {S : Type 0} {env : Env S} (outside : IsOutside env) where
  call_free_fn-Outside : (f : Option Fn) (x : Ptr) → Outside (call_free_fn env f x)
  call_free_fn-Outside none x w = (tt, w.state, refl)
  call_free_fn-Outside (some f) x w = outside.free f x w

module _ {S : Type 0} {env : Env S} (outside : IsOutside env) {loop : Ptr} {owed : Held} where
  free_object-Gone :
      (w : World S) (p : Ptr) (o : Obj)
      → w.objs p ≡ some o
      → o.ref ≡ 0
      → o.weak_refs ≡ []
      → Ledger loop owed w
      → Ends (λ _ w'. Ledger loop owed w' × Gone p w w') (free_object env p w)
  unfolding free_object
  free_object-Gone w p o at zero no_weak c =
      rw (at, load)
        (bind-Ends
          (call-Ends (λ _ w1. (x : S) × (w1 ≡ set_state x w)) w
            (call_free_fn-Outside outside o.free_fn o.userdata) λ _ x. (x, refl))
          λ _ w1 (x, e). rw e (
            ends (
              freed-Ledger p o at zero no_weak (set_state-Ledger x c),
              record {
                same = record {
                  obj_list = refl;
                  timer_list = refl;
                  idle_list = refl;
                  event_queue = refl;
                };
                others = λ q ne. ground arith;
                here = ground arith;
              },
            )))

  release-Gone :
      (f : Ptr → Cmd S ℕ) (w : World S) (p : Ptr) (o : Obj)
      → w.objs p ≡ some o
      → o.ref ≡ 0
      → p ≢ loop
      → Ledger loop owed w
      → Ends (λ _ w'. Ledger loop owed w' × Gone p w w') (release env f p w)
  unfolding release
  release-Gone f w p o at zero other c =
      rw (at, load)
        (bind-Ends (clear_weak_refs-Cleared o.weak_refs p o at refl c) λ _ w1 (c1, d).
          let not_loop : o.kind ≢ main_loop = λ e. other (c.one_loop p (rw at e)) in
          rw (free_kind-free_object env f o.kind p w1 (c.typed p o at) not_loop) (
            mono-Ends (free_object-Gone w1 p (with_weak_refs o []) d.here zero refl c1)
              λ _ w2 (c2, g). (
                c2,
                record {
                  same = record {
                    obj_list = g.same.obj_list ∙ d.same.obj_list;
                    timer_list = g.same.timer_list ∙ d.same.timer_list;
                    idle_list = g.same.idle_list ∙ d.same.idle_list;
                    event_queue = g.same.event_queue ∙ d.same.event_queue;
                  };
                  others = λ q ne. g.others q ne ∙ d.others q ne;
                  here = g.here;
                },
              )))

  -- Giving up a reference that is owed.
  pub unref_with-Lowered :
      (f : Ptr → Cmd S ℕ) (w : World S) (p : Ptr) (o : Obj)
      → w.objs p ≡ some o
      → p ≢ loop
      → Ledger loop (grab p owed) w
      → Ends (λ _ w'. Ledger loop owed w' × Lowered p o w w') (unref_with env f p w)
  unref_with-Lowered f w p o at other c = elim (Bool-cases (o.ref == 1)) [
    | inl one ↦
        let w1 : World S = put p (with_ref o (o.ref - 1)) w in
        rw (unref_with_last env w p o f at (ground arith)) (
          bind-Ends
            (release-Gone f w1 p (with_ref o (o.ref - 1)) (ground arith) (ground arith) other
              (lowered-Ledger p o at c))
            λ _ w2 (c2, g). ends (
              c2,
              record {
                same = record {
                  obj_list = g.same.obj_list;
                  timer_list = g.same.timer_list;
                  idle_list = g.same.idle_list;
                  event_queue = g.same.event_queue;
                };
                others = λ q ne. g.others q ne ∙ ground arith;
                here = inr (ground arith, g.here);
              },
            ))
    | inr more ↦
        let many : 1 < o.ref = ground (arith, c.balance p) in
        rw (unref_with_shared env w p o f at many) (
          ends (
            lowered-Ledger p o at c,
            record {
              same = record {
                obj_list = refl;
                timer_list = refl;
                idle_list = refl;
                event_queue = refl;
              };
              others = λ q ne. ground arith;
              here = inl (many, ground arith);
            },
          ))
  ]
