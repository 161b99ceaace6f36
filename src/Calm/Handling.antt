-- ===== src/Calm/Handling.antt =====
-- `aml_stop` and `aml__handle_event` of src/aml.c add nothing to the event queue and to the idle list,
-- where the backend and the user code add nothing.
use Prim.Native.Nat.{bit_and}
use aml.Base.{◌≡◌, refl, inl, inr, not, Option, none, some, ◌==◌, has, Bool-cases}
use aml.World.{Ptr, Fn, Cmd, Rc, success, failure, when}
use aml.World.Env.{Env}
use aml.World.Calm.{
  IsCalm, Calmer-refl, bind-IsCalm, pure-IsCalm, get-IsCalm, if-IsCalm, when-IsCalm, load-IsCalm,
}
use aml.Calm.{
  IsCalmEnv, discard-IsCalm, store-Calmer, aml_ref-IsCalm, obj_remove_unlocked-IsCalm,
  stop_unchecked-IsCalm, aml_unref-IsCalm,
}
use aml.Object.{is_handler, obj_is_single_shot}
use aml.Unref.{discard, aml_unref}
use aml.Registry.{aml_is_started, obj_remove, obj_try_remove, stop_removed, aml_stop}
use aml.Dispatch.{
  call_callback, mod_fd_or, mod_fd, handle_started, rearm_handler, edge_triggered, handle_event,
}

module _ {S : Type 0} {env : Env S} (is : IsCalmEnv env) where
  obj_try_remove-IsCalm : (p : Ptr) → IsCalm (obj_try_remove env p)
  unfolding obj_try_remove obj_remove aml_is_started
  obj_try_remove-IsCalm p = bind-IsCalm (get-IsCalm λ w. has p w.obj_list) λ started.
      if-IsCalm started
        (bind-IsCalm (obj_remove_unlocked-IsCalm (aml_unref env) p (aml_unref-IsCalm is p))
          λ _. pure-IsCalm success)
        (pure-IsCalm failure)

  stop_removed-IsCalm : (rc : Rc) (p : Ptr) → IsCalm (stop_removed env rc p)
  stop_removed-IsCalm success p = discard-IsCalm (stop_unchecked-IsCalm is p)
  stop_removed-IsCalm failure p = pure-IsCalm tt

  -- aml_stop adds no event to the queue and no object to the idle list, from any store, if it
  -- returns, where the backend and the free functions do not.
  pub aml_stop-IsCalm : (p : Ptr) → IsCalm (aml_stop env p)
  unfolding aml_stop
  aml_stop-IsCalm p = bind-IsCalm (aml_ref-IsCalm p) λ _.
      bind-IsCalm (obj_try_remove-IsCalm p) λ rc.
        bind-IsCalm (stop_removed-IsCalm rc p)
          λ _. bind-IsCalm (aml_unref-IsCalm is p) λ _. pure-IsCalm success

  call_callback-IsCalm : (f : Option Fn) (p : Ptr) → IsCalm (call_callback env f p)
  call_callback-IsCalm none p = pure-IsCalm tt
  call_callback-IsCalm (some f) p = is.callback f p

  mod_fd_or-IsCalm :
      (f : Option (Ptr → Cmd S Rc))
      → env.backend.mod_fd ≡ f
      → (p : Ptr) → IsCalm (mod_fd_or env f p)
  mod_fd_or-IsCalm none e p = bind-IsCalm (is.del_fd p) λ _. is.add_fd p
  mod_fd_or-IsCalm (some f) e p = is.mod_fd f e p

  handle_started-IsCalm : (p : Ptr) → IsCalm (handle_started env p)
  unfolding handle_started
  handle_started-IsCalm p = load-IsCalm p λ w o at.
      (bind-IsCalm (when-IsCalm (obj_is_single_shot o.kind) (discard-IsCalm (aml_stop-IsCalm p)))
          λ _. load-IsCalm p λ w1 o1 at1. (call_callback-IsCalm o1.cb p).calm w1).calm
        w

  rearm_handler-IsCalm : (p : Ptr) → IsCalm (rearm_handler env p)
  unfolding rearm_handler mod_fd
  rearm_handler-IsCalm p = load-IsCalm p λ w o at. elim (Bool-cases (is_handler o.kind)) [
    | inl is_fd ↦ rw is_fd (
        store-Calmer p
          (when (not (bit_and env.backend.flags edge_triggered == 0)) (discard (mod_fd env p))) w
          (record o { revents = 0 }) at refl
          (when-IsCalm (not (bit_and env.backend.flags edge_triggered == 0))
            (discard-IsCalm (mod_fd_or-IsCalm env.backend.mod_fd refl p))))
    | inr other ↦ rw other (Calmer-refl w)
  ]

  pub handle_event-IsCalm : (p : Ptr) → IsCalm (handle_event env p)
  unfolding handle_event aml_is_started
  handle_event-IsCalm p = bind-IsCalm (aml_ref-IsCalm p) λ _.
      bind-IsCalm (get-IsCalm λ w. has p w.obj_list) λ started.
        bind-IsCalm (when-IsCalm started (handle_started-IsCalm p))
          λ _. bind-IsCalm (rearm_handler-IsCalm p) λ _. discard-IsCalm (aml_unref-IsCalm is p)
