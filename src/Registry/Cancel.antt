-- ===== src/Registry/Cancel.antt =====
-- Stopping what is not started, and an event of what was stopped.
use mathlib.Core.Path.{fun_ext}
use aml.Base.{ℕ, ◌+◌, ◌-◌, ◌≡◌, ◌<◌, some, true, false, arith, refl, ap, ◌∙◌, has, ltb}
use aml.World.{Ptr, Obj, World, success, ok, load, put, int_limit}
use aml.World.Env.{Env}
use aml.Object.{is_handler}
use aml.Ref.{aml_ref}
use aml.Unref.{aml_unref}
use aml.Registry.{aml_is_started, obj_try_remove, aml_stop}
use aml.Dispatch.{handle_event, rearm_handler}
use aml.Inv.Refs.{with_ref, aml_ref_lem}
use aml.Inv.Unref.{unref_with_shared}

module _ {S : Type 0} (env : Env S) (w : World S) (p : Ptr) (o : Obj) (at : w.objs p ≡ some o)
    (held : 0 < o.ref) (small : ltb (o.ref + 1) int_limit ≡ true) where
  -- With one reference more, taken and given back.
  abbrev held_once : World S
  held_once = put p (with_ref o (o.ref + 1)) w

  back : (n : ℕ) → n ≡ o.ref → put p (with_ref o n) held_once ≡ w
  back n e = ap (λ f. record w { objs = f }) (fun_ext λ q. ground arith)

  ref_runs : aml_ref p w ≡ ok o.ref held_once
  ref_runs = aml_ref_lem w p o at ∙ rw small refl

  unref_runs : aml_unref env p held_once ≡ ok (o.ref + 1 - 1) w
  unfolding aml_unref
  unref_runs =
      unref_with_shared env held_once p (with_ref o (o.ref + 1)) _ (ground arith) (omega arith)
      ∙ ap (ok (o.ref + 1 - 1)) (back (o.ref + 1 - 1) (omega arith))

  -- aml_stop of an object that is not started returns 0 and changes nothing, with a reference held
  -- and room for one more in its count.
  aml_stop_unstarted : has p w.obj_list ≡ false → aml_stop env p w ≡ ok success w
  unfolding aml_stop obj_try_remove aml_is_started
  aml_stop_unstarted stopped = rw (ref_runs, stopped, unref_runs)

  -- The event of an object that is not started and not a handler is dropped: with a reference held
  -- and room for one more in its count, aml__handle_event runs no callback and changes nothing.
  pub handle_event_unstarted :
      has p w.obj_list ≡ false → is_handler o.kind ≡ false → handle_event env p w ≡ ok tt w
  unfolding handle_event aml_is_started rearm_handler
  handle_event_unstarted stopped plain =
      let here : held_once.objs p ≡ some (with_ref o (o.ref + 1)) = ground arith in
      rw (ref_runs, stopped, here, load, plain, unref_runs)
