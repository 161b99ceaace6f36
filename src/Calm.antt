-- ===== src/Calm.antt =====
-- Which functions of src/aml.c add nothing to the event queue and to the idle list, where the backend
-- and the user code add nothing: `aml_unref` with all that it frees. Calm/Handling has `aml_stop` and
-- `aml__handle_event`.
pub mod Handling
use Prim.Native.Nat.{bit_and}
use aml.Base.{
  ℕ, zero, suc, ◌+◌, ◌-◌, ◌≡◌, Bool, true, false, ltb, if◌then◌else◌, refl, Option-cases, inl, inr,
  not, Option, none, some, List, [], ◌∷◌, ◌==◌, arith, has, length, test_refl, Bool-cases,
}
use aml.World.{
  Ptr, Fn, ObjType, unspec, main_loop, handler, timer, ticker, signal, work, idle, Obj, World, Run,
  Cmd, Rc, success, failure, pure, ok, fault, overflow, int_limit, ◌>>◌, load, put, when, unlink,
}
use aml.World.Env.{Env}
use aml.World.Safe.{IfOk}
use aml.World.Calm.{
  Calmer, IsCalm, IfOk-Calmer, Calmer-refl, bind-IsCalm, pure-IsCalm, get-IsCalm, fail-IsCalm,
  if-IsCalm, when-IsCalm, load-IsCalm, put-Calmer, free-IsCalm, unlink-IsCalm, length-erase,
}
use aml.Object.{is_handler, obj_is_single_shot}
use aml.Ref.{aml_ref, load_weak, store_weak}
use aml.Inv.Refs.{with_ref, aml_ref_lem}
use aml.Queue.{set_event_queue}
use aml.Stop.{
  on_success, set_timer_list, set_idle_list, set_parent, stop_timer, stop_idle, stop_kind,
  stop_unchecked,
}
use aml.Unref.{
  clear_weak_refs, set_obj_list, discard, obj_remove_unlocked, call_free_fn, free_object,
  free_objects, free_events, aml_free, free_kind, release, unref_with, aml_unref,
}
use aml.Registry.{aml_is_started, obj_remove, obj_try_remove, stop_removed, aml_stop}
use aml.Dispatch.{
  call_callback, mod_fd_or, mod_fd, handle_started, rearm_handler, edge_triggered, handle_event,
}

-- The calls that leave aml.c add no event and no idle object.
pub record IsCalmEnv {S : Type 0} (env : Env S) : Type 0 where
  pub callback : (f : Fn) (p : Ptr) → IsCalm (env.call_cb f p)
  pub free : (f : Fn) (x : Ptr) → IsCalm (env.call_free f x)
  pub add_fd : (p : Ptr) → IsCalm (env.backend.add_fd p)
  pub mod_fd : (f : Ptr → Cmd S Rc) → env.backend.mod_fd ≡ some f → (p : Ptr) → IsCalm (f p)
  pub del_fd : (p : Ptr) → IsCalm (env.backend.del_fd p)
  pub del_signal : (p : Ptr) → IsCalm (env.backend.del_signal p)
  pub set_deadline : (d : ℕ) → IsCalm (env.backend.set_deadline d)
  pub thread_pool_release : IsCalm env.backend.thread_pool_release
  pub del_state : IsCalm env.backend.del_state

module _ {S : Type 0} where
  pub discard-IsCalm : {A : Type 0} {c : Cmd S A} → IsCalm c → IsCalm (discard c)
  discard-IsCalm c = bind-IsCalm c λ _. pure-IsCalm tt

  -- The object is written back with its events, and then `c`.
  pub store-Calmer :
      {B : Type 0} (p : Ptr) (c : Cmd S B) (w : World S) {o : Obj} (o' : Obj)
      → w.objs p ≡ some o
      → o'.n_events ≡ o.n_events
      → IsCalm c
      → IfOk (λ _. Calmer w) (c (put p o' w))
  store-Calmer p c w o' at same calm =
      IfOk-Calmer (c (put p o' w)) (put-Calmer p o' at (omega arith)) (calm.calm (put p o' w))

  pub aml_ref-IsCalm : (p : Ptr) → IsCalm {S = S} (aml_ref p)
  aml_ref-IsCalm p = record {
    calm = λ w. elim (Option-cases (w.objs p)) [
      | inl e ↦ rw (none_there w e) tt
      | inr (o, e) ↦ rw (aml_ref_lem w p o e) (counted w o e (ltb (o.ref + 1) int_limit))
    ];
  }
    where
      none_there : (w : World S) → w.objs p ≡ none → aml_ref p w ≡ fault
      none_there w e = unfold aml_ref in rw (e, load)

      counted :
          (w : World S) (o : Obj)
          → w.objs p ≡ some o
          → (b : Bool)
          → IfOk
              (λ _. Calmer w)
              (if b then ok o.ref (put p (with_ref o (o.ref + 1)) w) else overflow)
      counted w o at true = put-Calmer p (with_ref o (o.ref + 1)) at (omega arith)
      counted w o at false = tt

  set_parent-IsCalm : (p : Ptr) (parent : Option Ptr) → IsCalm {S = S} (set_parent p parent)
  set_parent-IsCalm p parent =
      load-IsCalm p λ w o at. put-Calmer p (record o { parent = parent }) at (omega arith)

  -- `load_weak` and `store_weak` leave objects and lists alone.
  load_weak-IsCalm : (r : Ptr) → IsCalm {S = S} (load_weak r)
  load_weak-IsCalm r = record { calm = λ w. ground arith }

  store_weak-IsCalm : (r : Ptr) (c : Option (Option Ptr)) → IsCalm {S = S} (store_weak r c)
  store_weak-IsCalm r c = record { calm = λ w. omega arith }

  clear_weak_refs-IsCalm : (p : Ptr) (rs : List Ptr) → IsCalm {S = S} (clear_weak_refs p rs)
  unfolding clear_weak_refs
  clear_weak_refs-IsCalm p [] = pure-IsCalm tt
  clear_weak_refs-IsCalm p (r ∷ rs) = bind-IsCalm (load_weak-IsCalm r) λ _.
      bind-IsCalm (store_weak-IsCalm r (some none)) λ _. load-IsCalm p λ w o at.
        store-Calmer p (clear_weak_refs p rs) w (record o { weak_refs = rs }) at refl
          (clear_weak_refs-IsCalm p rs)

  stop_timer-IsCalm : (p : Ptr) → IsCalm {S = S} (stop_timer p)
  unfolding stop_timer
  stop_timer-IsCalm p =
      unlink-IsCalm p (λ w. w.timer_list) set_timer_list (pure success) (λ w. omega arith)
        (pure-IsCalm success)

  stop_idle-IsCalm : (p : Ptr) → IsCalm {S = S} (stop_idle p)
  unfolding stop_idle
  stop_idle-IsCalm p =
      unlink-IsCalm p (λ w. w.idle_list) (set_idle_list p) (pure success)
        (λ w. omega (arith, length-erase p w.idle_list)) (pure-IsCalm success)

  pub obj_remove_unlocked-IsCalm :
      (unref : Ptr → Cmd S ℕ) (p : Ptr) → IsCalm (unref p) → IsCalm (obj_remove_unlocked unref p)
  obj_remove_unlocked-IsCalm unref p calm =
      unlink-IsCalm p (λ w. w.obj_list) set_obj_list (discard (unref p)) (λ w. omega arith)
        (discard-IsCalm calm)

module _ {S : Type 0} {env : Env S} (is : IsCalmEnv env) where
  on_success-IsCalm : (rc : Rc) {c : Cmd S Rc} → IsCalm c → IsCalm (on_success rc c)
  on_success-IsCalm success c = c
  on_success-IsCalm failure c = pure-IsCalm failure

  stop_kind-IsCalm : (kind : ObjType) (p : Ptr) → IsCalm (stop_kind env kind p)
  unfolding stop_kind
  stop_kind-IsCalm main_loop p = pure-IsCalm failure
  stop_kind-IsCalm handler p =
      bind-IsCalm (is.del_fd p)
        λ rc. on_success-IsCalm rc (bind-IsCalm (set_parent-IsCalm p none) λ _. pure-IsCalm success)
  stop_kind-IsCalm timer p = stop_timer-IsCalm p
  stop_kind-IsCalm ticker p = stop_timer-IsCalm p
  stop_kind-IsCalm signal p = is.del_signal p
  stop_kind-IsCalm work p = pure-IsCalm success
  stop_kind-IsCalm idle p = stop_idle-IsCalm p
  stop_kind-IsCalm unspec p = fail-IsCalm

  pub stop_unchecked-IsCalm : (p : Ptr) → IsCalm (stop_unchecked env p)
  unfolding stop_unchecked
  stop_unchecked-IsCalm p = load-IsCalm p λ w o at. (stop_kind-IsCalm o.kind p).calm w

  call_free_fn-IsCalm : (f : Option Fn) (x : Ptr) → IsCalm (call_free_fn env f x)
  call_free_fn-IsCalm none x = pure-IsCalm tt
  call_free_fn-IsCalm (some f) x = is.free f x

  free_object-IsCalm : (p : Ptr) → IsCalm (free_object env p)
  unfolding free_object
  free_object-IsCalm p =
      load-IsCalm p
        λ w o at. (bind-IsCalm (call_free_fn-IsCalm o.free_fn o.userdata) λ _. free-IsCalm p).calm w

  module _ (unref : Ptr → Cmd S ℕ) (calm : (p : Ptr) → IsCalm (unref p)) where
    free_objects-IsCalm : (fuel : ℕ) → IsCalm (free_objects env unref fuel)
    unfolding free_objects
    free_objects-IsCalm zero = record { calm = λ w. tt }
    free_objects-IsCalm (suc fuel) = record {
      calm = λ w. by_list (free_objects-IsCalm fuel) w w.obj_list;
    }
      where
        by_list :
            IsCalm (free_objects env unref fuel)
            → (w : World S) (l : List Ptr)
            → IfOk
                (λ _. Calmer w)
                (elim l as (λ _. Run S (Unit {0})) [
                  | [] ↦ ok tt w
                  | p ∷ ps ↦
                      (do
                        stop_unchecked env p
                        obj_remove_unlocked unref p
                        free_objects env unref fuel)
                        w
                ])
        by_list again w [] = Calmer-refl w
        by_list again w (p ∷ ps) =
            (bind-IsCalm (stop_unchecked-IsCalm p)
                λ _. bind-IsCalm (obj_remove_unlocked-IsCalm unref p (calm p)) λ _. again).calm
              w

    free_events-IsCalm : (fuel : ℕ) → IsCalm (free_events env unref fuel)
    unfolding free_events
    free_events-IsCalm zero = record { calm = λ w. tt }
    free_events-IsCalm (suc fuel) = record {
      calm = λ w. by_queue (free_events-IsCalm fuel) w w.event_queue refl;
    }
      where
        by_queue :
            IsCalm (free_events env unref fuel)
            → (w : World S) (l : List Ptr) → w.event_queue ≡ l
            → IfOk
                (λ _. Calmer w)
                (elim l as (λ _. Run S (Unit {0})) [
                  | [] ↦ ok tt w
                  | p ∷ ps ↦
                      (do unlink p (p ∷ ps) set_event_queue; unref p; free_events env unref fuel) w
                ])
        by_queue again w [] e = Calmer-refl w
        by_queue again w (p ∷ ps) e =
            let w1 : World S = set_event_queue ps w in
            let less : Calmer w w1 = record { events = rw e (omega arith); idle = omega arith } in
            rw (test_refl p) (IfOk-Calmer _ less ((bind-IsCalm (calm p) λ _. again).calm w1))

    aml_free-IsCalm : (p : Ptr) → IsCalm (aml_free env unref p)
    unfolding aml_free
    aml_free-IsCalm p = bind-IsCalm (get-IsCalm λ w. w.obj_list) λ l.
        bind-IsCalm (free_objects-IsCalm (length l + 1)) λ _. bind-IsCalm (get-IsCalm λ w. w) λ w.
          bind-IsCalm (when-IsCalm w.have_thread_pool is.thread_pool_release) λ _.
            bind-IsCalm is.del_state λ _.
              bind-IsCalm (get-IsCalm λ w. w.event_queue)
                λ q. bind-IsCalm (free_events-IsCalm (length q + 1)) λ _. free-IsCalm p

    free_kind-IsCalm : (kind : ObjType) (p : Ptr) → IsCalm (free_kind env unref kind p)
    unfolding free_kind
    free_kind-IsCalm main_loop p = aml_free-IsCalm p
    free_kind-IsCalm unspec p = fail-IsCalm
    free_kind-IsCalm _ p = free_object-IsCalm p

    release-IsCalm : (p : Ptr) → IsCalm (release env unref p)
    unfolding release
    release-IsCalm p = load-IsCalm p λ w o at.
        (bind-IsCalm (clear_weak_refs-IsCalm p o.weak_refs) λ _. free_kind-IsCalm o.kind p).calm w

    unref_with-IsCalm : (p : Ptr) → IsCalm (unref_with env unref p)
    unfolding unref_with
    unref_with-IsCalm p = load-IsCalm p λ w o at. elim (Bool-cases (o.ref == 0)) [
      | inl none_left ↦ rw none_left tt
      | inr some_left ↦ rw some_left (
          store-Calmer p (do when (o.ref == 1) (release env unref p); pure (o.ref - 1)) w
            (with_ref o (o.ref - 1)) at refl
            (bind-IsCalm (when-IsCalm (o.ref == 1) (release-IsCalm p))
              λ _. pure-IsCalm (o.ref - 1)))
    ]

  pub aml_unref-IsCalm : (p : Ptr) → IsCalm (aml_unref env p)
  unfolding aml_unref
  aml_unref-IsCalm = unref_with-IsCalm _ (unref_with-IsCalm _ λ p. fail-IsCalm)
