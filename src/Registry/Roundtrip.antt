-- ===== src/Registry/Roundtrip.antt =====
-- Starting a handler, a timer, a ticker or an idle object, and stopping it again: `aml_start` and then
-- `aml_stop`.
use mathlib.Core.Path.{fun_ext}
use aml.Timer.{gettime_us}
use aml.Timer.Earliest.{AllLive}
use aml.Base.{
  ℕ, ◌*◌, ◌/◌, ◌⊎◌, ◌+◌, ◌-◌, ◌%◌, ◌^◌, ◌==◌, ◌≡◌, ◌<◌, ◌∷◌, none, some, true, false, arith, refl,
  ap, has, ltb, test_refl, inl, inr,
}
use aml.World.{
  Ptr, ObjType, handler, idle, update, timer, ticker, Obj, World, success, ok, load, put, int_limit,
  ◌>>=◌,
}
use aml.World.Env.{Env}
use aml.Stop.{stop_kind, stop_timer, stop_idle, set_idle_list, first, set_timer_list}
use aml.Unref.{set_obj_list}
use aml.Registry.{
  aml_is_started, obj_try_add, aml_start, aml_stop, start_added, start_kind, start_handler,
  start_idle, start_timer,
}
use aml.Inv.Refs.{with_ref, aml_ref_lem}
use aml.Registry.Runs.{
  removed, stop_runs, aml_stop_handler, set_parent_lem, start_added_by, stop_unchecked_by,
  arm_timer_runs,
}

module _ {S : Type 0} (env : Env S) (w : World S) (p : Ptr) (o : Obj) (at : w.objs p ≡ some o)
    (held : 0 < o.ref) (small : ltb (o.ref + 2) int_limit ≡ true)
    (stopped : has p w.obj_list ≡ false) where
  -- The object with one reference more, and on the list of started objects.
  abbrev counted : World S
  counted = put p (with_ref o (o.ref + 1)) w

  abbrev added : World S
  added = set_obj_list (p ∷ w.obj_list) counted

  start_runs :
      (m : World S) → start_added env p added ≡ ok success m → aml_start env p w ≡ ok success m
  unfolding aml_start obj_try_add aml_is_started
  start_runs m starts =
      let fits : ltb (o.ref + 1) int_limit ≡ true = ground arith in
      rw (stopped, aml_ref_lem w p o at, fits, starts) refl

  module _ (kind : o.kind ≡ handler)
      (add : (v : World S) → env.backend.add_fd p v ≡ ok success v) where
    abbrev owned : Obj
    owned = record (with_ref o (o.ref + 1)) { parent = some w.self }

    abbrev watched : World S
    watched = put p owned counted

    start_handler_runs :
        start_kind env handler p added ≡ ok success (set_obj_list (p ∷ w.obj_list) watched)
    unfolding start_kind start_handler
    start_handler_runs =
        rw
          (
            add added,
            set_parent_lem env p added (with_ref o (o.ref + 1)) (ground arith) (some w.self),
          )
          refl

    -- A handler that the backend accepts is started.
    pub aml_start_handler : aml_start env p w ≡ ok success (set_obj_list (p ∷ w.obj_list) watched)
    aml_start_handler = start_runs (set_obj_list (p ∷ w.obj_list) watched) (
        start_added_by env p added (with_ref o (o.ref + 1)) (ground arith) handler _ kind
          start_handler_runs)

    module _ (orphan : o.parent ≡ none)
        (del : (v : World S) → env.backend.del_fd p v ≡ ok success v) where
      restored :
          (n : ℕ)
          → n ≡ o.ref
          → put p
              (record (with_ref owned n) { parent = none })
              (put p
                (record (with_ref owned (o.ref + 1 + 1 - 1)) { parent = none })
                (removed env p watched w.obj_list owned))
            ≡ w
      restored n e = ap (λ f. record w { objs = f }) (fun_ext λ q. ground (arith, at, orphan, e))

      -- For a handler that is not started and has no parent, with a reference held and room for two
      -- more in its count, aml_start followed by aml_stop returns 0 and restores the whole store, if
      -- the backend accepts the descriptor and gives it up with no change to the store.
      pub aml_stop-aml_start_handler : (aml_start env p >>= λ _. aml_stop env p) w ≡ ok success w
      aml_stop-aml_start_handler =
          rw
            (
              aml_start_handler,
              aml_stop_handler env p watched w.obj_list owned (ground arith) (omega arith)
                  (ground arith) kind del,
            )
            (ap (ok success) (restored (o.ref + 1 + 1 - 1 - 1) (omega arith)))

  module _ (kind : o.kind ≡ idle) where
    abbrev queued : World S
    queued = record counted { idle_list = p ∷ w.idle_list }

    start_idle_runs :
        start_kind env idle p added ≡ ok success (set_obj_list (p ∷ w.obj_list) queued)
    unfolding start_kind start_idle
    start_idle_runs = refl

    abbrev unqueued : World S
    unqueued = removed env p queued w.obj_list (with_ref o (o.ref + 1))

    stop_idle_runs :
        stop_kind env idle p unqueued ≡ ok success (set_idle_list p w.idle_list unqueued)
    unfolding stop_kind stop_idle
    stop_idle_runs = rw (test_refl p) refl

    -- With the link that the object keeps to the front of the idle list.
    abbrev linked : World S
    linked = record w { idle_stale = update w.idle_stale p (first w.idle_list) }

    relinked :
        (n : ℕ) → n ≡ o.ref → put p (with_ref o n) (set_idle_list p w.idle_list unqueued) ≡ linked
    relinked n e =
        rw (test_refl p) (ap (λ f. record linked { objs = f }) (fun_ext λ q. ground (arith, at, e)))

    -- For an idle object that is not started, with a reference held and room for two more in its
    -- count, aml_start followed by aml_stop returns 0 and restores the whole store but for the link
    -- that the object keeps to the front of the idle list.
    aml_stop-aml_start_idle : (aml_start env p >>= λ _. aml_stop env p) w ≡ ok success linked
    aml_stop-aml_start_idle =
        rw
          (
            start_runs (set_obj_list (p ∷ w.obj_list) queued) (
                start_added_by env p added (with_ref o (o.ref + 1)) (ground arith) idle _ kind
                  start_idle_runs),
            stop_runs env p queued w.obj_list (with_ref o (o.ref + 1)) (ground arith) (omega arith)
                (ground arith) success (set_idle_list p w.idle_list unqueued)
                (with_ref o (o.ref + 1 + 1 - 1))
                (stop_unchecked_by env p unqueued (with_ref o (o.ref + 1 + 1 - 1)) (ground arith)
                  idle success _ kind stop_idle_runs)
                (ground arith) (omega arith),
          )
          (ap (ok success) (relinked (o.ref + 1 + 1 - 1 - 1) (omega arith)))

  module _ (k : ObjType) (kind : o.kind ≡ k) (timed : (k ≡ timer) ⊎ (k ≡ ticker))
      (lasts : (o.timeout == 0) ≡ false) (live : AllLive w w.timer_list)
      (arm : (d : ℕ) (v : World S) → env.backend.set_deadline d v ≡ ok success v) where
    abbrev now : ℕ
    now = (env.clock_sec added * 1000000 % 2 ^ 64 + env.clock_nsec added / 1000) % 2 ^ 64

    -- The object once its deadline is set, with the count `n`.
    abbrev due : ℕ → Obj
    due n = record (with_ref o n) { deadline = (now + o.timeout) % 2 ^ 64; expired = false }

    abbrev ticking : World S
    ticking = set_timer_list (p ∷ w.timer_list) (put p (due (o.ref + 1)) counted)

    ticking_live : AllLive (set_obj_list (p ∷ w.obj_list) ticking) (p ∷ w.timer_list)
    ticking_live q n = ground (arith, live q)

    start_timer_runs : start_kind env k p added ≡ ok success (set_obj_list (p ∷ w.obj_list) ticking)
    unfolding start_timer gettime_us start_kind
    start_timer_runs =
        let here : added.objs p ≡ some (with_ref o (o.ref + 1)) = ground arith in
        let runs : start_timer env p added ≡ ok success (set_obj_list (p ∷ w.obj_list) ticking) =
          rw
            (
              here,
              load,
              lasts,
              arm_timer_runs env p (set_obj_list (p ∷ w.obj_list) ticking) (due (o.ref + 1))
                  (ground arith) ticking_live arm,
            )
            refl in
        elim timed [ inl e ↦ rw e runs | inr e ↦ rw e runs ]

    abbrev silent : World S
    silent = removed env p ticking w.obj_list (due (o.ref + 1))

    stop_timer_runs : stop_kind env k p silent ≡ ok success (set_timer_list w.timer_list silent)
    unfolding stop_kind stop_timer
    stop_timer_runs =
        let runs : stop_timer p silent ≡ ok success (set_timer_list w.timer_list silent) =
          rw (test_refl p) refl in
        elim timed [ inl e ↦ rw e runs | inr e ↦ rw e runs ]

    settled :
        (n : ℕ)
        → n ≡ o.ref
        → put p (due n) (set_timer_list w.timer_list silent) ≡ put p (due o.ref) w
    settled n e = rw e (ap (λ f. record w { objs = f }) (fun_ext λ q. ground arith))

    -- For a timer or ticker that is not started and has a timeout other than 0, with a reference
    -- held and room for two more in its count, aml_start followed by aml_stop returns 0 and restores
    -- the whole store but for the object, whose deadline is the timeout after now and which has not
    -- expired, if the listed timers are live and set_deadline of the backend succeeds and changes
    -- nothing of the store.
    pub aml_stop-aml_start_timer :
        (aml_start env p >>= λ _. aml_stop env p) w ≡ ok success (put p (due o.ref) w)
    aml_stop-aml_start_timer =
        rw
          (
            start_runs (set_obj_list (p ∷ w.obj_list) ticking) (
                start_added_by env p added (with_ref o (o.ref + 1)) (ground arith) k _ kind
                  start_timer_runs),
            stop_runs env p ticking w.obj_list (due (o.ref + 1)) (ground arith) (omega arith)
                (ground arith) success (set_timer_list w.timer_list silent)
                (due (o.ref + 1 + 1 - 1))
                (stop_unchecked_by env p silent (due (o.ref + 1 + 1 - 1)) (ground arith) k success _
                  kind stop_timer_runs)
                (ground arith) (omega arith),
          )
          (ap (ok success) (settled (o.ref + 1 + 1 - 1 - 1) (omega arith)))
