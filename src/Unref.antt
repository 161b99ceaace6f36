-- ===== src/Unref.antt =====
-- `aml_unref` of src/aml.c and the freeing of objects. `aml__free` releases objects in its turn: the
-- release of an object takes the release of others as an argument, two levels deep, since no object
-- that the loop holds is a loop.
use aml.Base.{ℕ, zero, suc, ◌+◌, ◌-◌, Option, none, some, List, [], ◌∷◌, ◌==◌, length}
use aml.World.{
  Ptr, Fn, ObjType, unspec, main_loop, handler, timer, ticker, signal, work, idle, World, Cmd, ok,
  out_of_fuel, pure, skip, fail, ◌>>=◌, ◌>>◌, load, store, free, get, unlink, when,
}
use aml.World.Env.{Env}
use aml.Ref.{load_weak, store_weak}
use aml.Queue.{set_event_queue}
use aml.Stop.{stop_unchecked}

module _ {S : Type 0} where
  -- `while (!LIST_EMPTY(&self->weak_refs))`
  unfoldable pub clear_weak_refs : Ptr → List Ptr → Cmd S (Unit {0})
  clear_weak_refs p [] = skip
  clear_weak_refs p (r ∷ rs) = do
    load_weak r
    store_weak r (some none)
    o ← load p
    store p (record o { weak_refs = rs })
    clear_weak_refs p rs

  abbrev pub set_obj_list : List Ptr → World S → World S
  set_obj_list l w = record w { obj_list = l }

  abbrev pub discard : {A : Type 0} → Cmd S A → Cmd S (Unit {0})
  discard c = c >>= λ _. skip

  -- `aml__obj_remove_unlocked`
  abbrev pub obj_remove_unlocked : (Ptr → Cmd S ℕ) → Ptr → Cmd S (Unit {0})
  obj_remove_unlocked unref p = do
    l ← get (λ w. w.obj_list)
    unlink p l set_obj_list
    discard (unref p)

module _ {S : Type 0} (env : Env S) where
  open env use {backend, call_free}

  abbrev pub call_free_fn : Option Fn → Ptr → Cmd S (Unit {0})
  call_free_fn none userdata = skip
  call_free_fn (some f) userdata = call_free f userdata

  -- `aml__free_handler`, `aml__free_timer`, `aml__free_signal`, `aml__free_work`, `aml__free_idle`
  unfoldable pub free_object : Ptr → Cmd S (Unit {0})
  free_object p = do o ← load p; call_free_fn o.free_fn o.userdata; free p

  -- `while (!LIST_EMPTY(&self->obj_list))`
  unfoldable pub free_objects : (Ptr → Cmd S ℕ) → ℕ → Cmd S (Unit {0})
  free_objects unref zero = λ w. out_of_fuel
  free_objects unref (suc fuel) = λ w. elim w.obj_list [
    | [] ↦ ok tt w
    | p ∷ ps ↦ (do stop_unchecked env p; obj_remove_unlocked unref p; free_objects unref fuel) w
  ]

  -- `while (!TAILQ_EMPTY(&self->event_queue))`
  unfoldable pub free_events : (Ptr → Cmd S ℕ) → ℕ → Cmd S (Unit {0})
  free_events unref zero = λ w. out_of_fuel
  free_events unref (suc fuel) = λ w. elim w.event_queue [
    | [] ↦ ok tt w
    | p ∷ ps ↦ (do unlink p (p ∷ ps) set_event_queue; unref p; free_events unref fuel) w
  ]

  -- `aml__free`
  unfoldable pub aml_free : (Ptr → Cmd S ℕ) → Ptr → Cmd S (Unit {0})
  unfolding free_objects free_events
  aml_free unref p = do
    l ← get (λ w. w.obj_list)
    free_objects unref (length l + 1)
    w ← get (λ w. w)
    when w.have_thread_pool backend.thread_pool_release
    backend.del_state
    q ← get (λ w. w.event_queue)
    free_events unref (length q + 1)
    free p

  -- The switch in `aml_unref`.
  unfoldable pub free_kind : (Ptr → Cmd S ℕ) → ObjType → Ptr → Cmd S (Unit {0})
  unfolding free_object aml_free
  free_kind unref main_loop p = aml_free unref p
  free_kind unref handler p = free_object p
  free_kind unref timer p = free_object p
  free_kind unref ticker p = free_object p
  free_kind unref signal p = free_object p
  free_kind unref work p = free_object p
  free_kind unref idle p = free_object p
  free_kind unref unspec p = fail

  -- From the count of 0 on.
  unfoldable pub release : (Ptr → Cmd S ℕ) → Ptr → Cmd S (Unit {0})
  unfolding clear_weak_refs free_kind
  release unref p = do o ← load p; clear_weak_refs p o.weak_refs; free_kind unref o.kind p

  unfoldable pub unref_with : (Ptr → Cmd S ℕ) → Ptr → Cmd S ℕ
  unref_with unref p = do
    o ← load p
    when (o.ref == 0) fail
    store p (record o { ref = o.ref - 1 })
    when (o.ref == 1) (release unref p)
    pure (o.ref - 1)

  -- Returns the count after the call.
  unfoldable pub aml_unref : Ptr → Cmd S ℕ
  unfolding unref_with
  aml_unref = unref_with (unref_with (λ p. fail))
