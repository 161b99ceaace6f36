-- ===== src/Registry/Runs.antt =====
-- The steps of `aml_start` and `aml_stop` where they return: from the counts to the lists.
use aml.Timer.Earliest.{AllLive, get_timer_with_earliest_deadline-IsEarliest}
use aml.Base.{
  ℕ, ◌+◌, ◌-◌, ◌≡◌, ◌<◌, ◌∷◌, List, Option, none, some, true, arith, refl, ltb, test_refl, inl, inr,
  Bool-cases,
}
use aml.World.{Ptr, ObjType, handler, Obj, World, Rc, success, ok, load, put, int_limit}
use aml.World.Env.{Env}
use aml.Stop.{set_parent, stop_kind, stop_handler, first, stop_unchecked}
use aml.Unref.{aml_unref, set_obj_list}
use aml.Registry.{
  aml_is_started, obj_try_remove, obj_remove, aml_stop, start_added, start_kind, arm_timer,
  points_to,
}
use aml.Inv.Refs.{with_ref, aml_ref_lem}
use aml.Inv.Unref.{unref_with_shared}

module _ {S : Type 0} (env : Env S) (p : Ptr) where
  module _ (m : World S) (l : List Ptr) (o : Obj) where
    abbrev pub listed : World S
    listed = set_obj_list (p ∷ l) m

    abbrev pub at_stop : World S
    at_stop = put p (with_ref o (o.ref + 1)) listed

    abbrev pub removed : World S
    removed = put p (with_ref o (o.ref + 1 - 1)) (set_obj_list l at_stop)

  -- A started object is taken off the list of started objects, stopped by type, and its count
  -- lowered by the one that the list held.
  module _ (m : World S) (l : List Ptr) (o : Obj) (at : m.objs p ≡ some o) (many : 1 < o.ref)
      (small : ltb (o.ref + 1) int_limit ≡ true) where
    remove_runs : obj_remove env p (at_stop m l o) ≡ ok tt (removed m l o)
    unfolding obj_remove aml_unref
    remove_runs =
        let here : (set_obj_list l (at_stop m l o)).objs p ≡ some (with_ref o (o.ref + 1)) =
          ground arith in
        rw (
          test_refl p,
          unref_with_shared env (set_obj_list l (at_stop m l o)) p (with_ref o (o.ref + 1)) _ here
              (omega arith),
        )

    pub stop_runs :
        (rc : Rc) (v : World S) (o' : Obj)
        → stop_unchecked env p (removed m l o) ≡ ok rc v
        → v.objs p ≡ some o'
        → 1 < o'.ref
        → aml_stop env p (listed m l o) ≡ ok success (put p (with_ref o' (o'.ref - 1)) v)
    unfolding aml_stop obj_try_remove aml_is_started aml_unref
    stop_runs rc v o' stops here more = rw (
      aml_ref_lem (listed m l o) p o at,
      small,
      test_refl p,
      remove_runs,
      stops,
      unref_with_shared env v p o' _ here more,
    )

  module _ (v : World S) (o : Obj) (at : v.objs p ≡ some o) where
    pub set_parent_lem :
        (x : Option Ptr) → set_parent p x v ≡ ok tt (put p (record o { parent = x }) v)
    set_parent_lem x = rw (at, load) refl

    pub start_added_by :
        (k : ObjType) (m : World S)
        → o.kind ≡ k
        → start_kind env k p v ≡ ok success m
        → start_added env p v ≡ ok success m
    unfolding start_added
    start_added_by k m kind starts = rw (at, load, kind, starts) refl

    pub stop_unchecked_by :
        (k : ObjType) (rc : Rc) (m : World S)
        → o.kind ≡ k
        → stop_kind env k p v ≡ ok rc m
        → stop_unchecked env p v ≡ ok rc m
    unfolding stop_unchecked
    stop_unchecked_by k rc m kind stops = rw (at, load, kind, stops) refl

    -- The deadline of a timer is handed to the backend only where no other timer is due before.
    pub arm_timer_runs :
        AllLive v v.timer_list
        → ((d : ℕ) (v : World S) → env.backend.set_deadline d v ≡ ok success v)
        → arm_timer env p v ≡ ok success v
    unfolding arm_timer
    arm_timer_runs live arm =
        let (res, run, _) = get_timer_with_earliest_deadline-IsEarliest v live in
        elim (Bool-cases (points_to res p)) [
          | inl first ↦ rw (run, at, load, first, arm) refl
          | inr later ↦ rw (run, at, load, later) refl
        ]

module _ {S : Type 0} (env : Env S) (p : Ptr) (m : World S) (l : List Ptr) (o : Obj)
    (at : m.objs p ≡ some o) (many : 1 < o.ref) (small : ltb (o.ref + 1) int_limit ≡ true)
    (kind : o.kind ≡ handler) (del : (v : World S) → env.backend.del_fd p v ≡ ok success v) where
  -- A handler without its parent, with the count `n`.
  abbrev pub disowned : ℕ → Obj
  disowned n = record (with_ref o n) { parent = none }

  stop_handler_runs :
      stop_kind env handler p (removed env p m l o)
      ≡ ok success (put p (disowned (o.ref + 1 - 1)) (removed env p m l o))
  unfolding stop_kind stop_handler
  stop_handler_runs =
      rw
        (
          del (removed env p m l o),
          set_parent_lem env p (removed env p m l o) (with_ref o (o.ref + 1 - 1)) (ground arith)
              none,
        )
        refl

  -- A started handler that the backend gives up is stopped.
  pub aml_stop_handler :
      aml_stop env p (listed env p m l o)
      ≡ ok success (
          put p
            (disowned (o.ref + 1 - 1 - 1))
            (put p (disowned (o.ref + 1 - 1)) (removed env p m l o)))
  aml_stop_handler =
      stop_runs env p m l o at many small success
        (put p (disowned (o.ref + 1 - 1)) (removed env p m l o)) (disowned (o.ref + 1 - 1))
        (stop_unchecked_by env p (removed env p m l o) (with_ref o (o.ref + 1 - 1)) (ground arith)
          handler success _ kind stop_handler_runs)
        (ground arith) (omega arith)
