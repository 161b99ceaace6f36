-- ===== src/Epoll/Adding.antt =====
-- What a successful `epoll_add_signal` of src/epoll.c leaves, and `epoll_del_signal` after it.
use aml.Base.{ℕ, ◌≡◌, ◌≢◌, ◌==◌, none, some, List, ◌∷◌, arith, refl, false, has}
use aml.World.{Ptr, Fn, Obj, World, success, ok, load, put, update}
use aml.World.Env.{Env}
use aml.World.Safe.{Ends, ends}
use aml.Object.{aml_handler_new, aml_get_signo, aml_set_backend_data}
use aml.Ref.{aml_weak_ref_new}
use aml.Unref.{set_obj_list}
use aml.Inv.Alloc.{new_handler}
use aml.Inv.Refs.{with_ref}
use aml.Registry.Runs.{removed}
use aml.Registry.Roundtrip.{aml_start_handler}
use aml.Epoll.Signals.{Contexts, SignalCalls, epoll_add_signal, epoll_signal_cleanup}

module _ (calls : SignalCalls) (p c r : Ptr) (fd : ℕ) (rs : List Ptr) (o : Obj) (v : World Contexts)
    (close : (n : ℕ) (v : World Contexts) → calls.close n v ≡ ok tt v) where
  -- Without the context at `c` and the weak reference at `r`.
  abbrev cleanup_left : World Contexts
  cleanup_left = record (put p (record o { weak_refs = rs }) v) {
    weak = update v.weak r none;
    state = update v.state c none;
  }

module _ (calls : SignalCalls) (env : Env Contexts) (on_signal cleanup : Fn) (p c r h : Ptr)
    (fd : ℕ) (o : Obj) (w : World Contexts) where
  -- The handler of the signal, as it is made.
  abbrev made : Obj
  made = new_handler fd (some on_signal) c (some cleanup)

  -- The signal at `p` is watched by the started handler at `h`, whose context at `c` has the
  -- descriptor and the weak reference at `r`, which leads to the signal.
  pub record IsAdded (w' : World Contexts) : Type 0 where
    pub signal : w'.objs p ≡ some (record o { weak_refs = r ∷ o.weak_refs; backend_data = h })
    pub handler : w'.objs h ≡ some (record made { ref = 2; parent = some w.self })
    pub others : (q : Ptr) → p ≢ q → h ≢ q → w'.objs q ≡ w.objs q
    pub obj_list : w'.obj_list ≡ h ∷ w.obj_list
    pub weak : w'.weak r ≡ some (some p)
    pub context : w'.state c ≡ some (record { fd = fd; ref = some r })

  -- The store is that of `w`, but for the backend data of the signal.
  pub record IsRestored (w' : World Contexts) : Type 0 where
    pub signal : w'.objs p ≡ some (record o { backend_data = h })
    pub others : (q : Ptr) → p ≢ q → w'.objs q ≡ w.objs q
    pub obj_list : w'.obj_list ≡ w.obj_list
    pub timer_list : w'.timer_list ≡ w.timer_list
    pub idle_list : w'.idle_list ≡ w.idle_list
    pub idle_stale : w'.idle_stale ≡ w.idle_stale
    pub event_queue : w'.event_queue ≡ w.event_queue
    pub default : w'.default ≡ w.default
    pub self : w'.self ≡ w.self
    pub do_exit : w'.do_exit ≡ w.do_exit
    pub have_thread_pool : w'.have_thread_pool ≡ w.have_thread_pool
    pub self_pipe_rfd : w'.self_pipe_rfd ≡ w.self_pipe_rfd
    pub self_pipe_wfd : w'.self_pipe_wfd ≡ w.self_pipe_wfd
    pub weak : (q : Ptr) → w'.weak q ≡ w.weak q
    pub state : (q : Ptr) → w'.state q ≡ w.state q

  module _ (at : w.objs p ≡ some o) (free : w.objs h ≡ none) (stopped : has h w.obj_list ≡ false)
      (context : (v : World Contexts) → calls.calloc_context v ≡ some c)
      (weak : (v : World Contexts) → calls.calloc_weak_ref v ≡ some r)
      (object : (v : World Contexts) → calls.calloc_handler v ≡ some h)
      (signalfd : (n : ℕ) (v : World Contexts) → calls.signalfd n v ≡ ok (some fd) v)
      (block : (n : ℕ) (v : World Contexts) → calls.block n v ≡ ok tt v)
      (add : (v : World Contexts) → env.backend.add_fd h v ≡ ok success v) where
    abbrev w1 : World Contexts
    w1 =
        put p (record o { weak_refs = r ∷ o.weak_refs })
          (record w { weak = update w.weak r (some (some p)) })

    abbrev w2 : World Contexts
    w2 =
        put h made
          (record w1 { state = update w.state c (some (record { fd = fd; ref = some r })) })

    made_weak : aml_weak_ref_new (some r) p w ≡ ok (some r) w1
    unfolding aml_weak_ref_new
    made_weak = rw (at, load) refl

    -- Once the handler is started.
    abbrev w3 : World Contexts
    w3 =
        set_obj_list (h ∷ w.obj_list)
          (put h (record made { ref = 2; parent = some w.self }) (put h (with_ref made 2) w2))

    abbrev marked : Obj
    marked = record o { weak_refs = r ∷ o.weak_refs; backend_data = h }

    set_data : aml_set_backend_data p h w3 ≡ ok tt (put p marked w3)
    unfolding aml_set_backend_data
    set_data =
        let here : w3.objs p ≡ some (record o { weak_refs = r ∷ o.weak_refs }) =
          ground (arith, at, free) in
        rw (here, load) refl

    abbrev final : World Contexts
    final = put p marked w3

    add_runs : epoll_add_signal calls env on_signal cleanup p w ≡ ok success final
    unfolding epoll_add_signal aml_get_signo aml_handler_new
    add_runs =
        rw
          (
            context,
            at,
            load,
            weak,
            made_weak,
            signalfd,
            object,
            aml_start_handler env w2 h made (ground arith) (omega arith) refl stopped refl add,
            set_data,
            block,
          )
          refl

    -- Where calloc and signalfd() succeed and the backend accepts the descriptor, epoll_add_signal
    -- of a signal object returns 0: a handler for the descriptor is made and started, with one
    -- reference more for the signal, whose backend data it is; its context has the descriptor and a
    -- weak reference that leads to the signal; no other object has changed.
    pub epoll_add_signal-IsAdded :
        Ends
          (λ rc w'. (rc ≡ success) × IsAdded w')
          (epoll_add_signal calls env on_signal cleanup p w)
    epoll_add_signal-IsAdded = rw add_runs (
        ends (
          refl,
          record {
            signal = ground arith;
            handler = ground (arith, at, free);
            others = λ q np nh. ground arith;
            obj_list = refl;
            weak = ground arith;
            context = ground arith;
          },
        ))

    module _ (unused : w.weak r ≡ none) (not_null : (h == 0) ≡ false)
        (close : (n : ℕ) (v : World Contexts) → calls.close n v ≡ ok tt v)
        (del : (v : World Contexts) → env.backend.del_fd h v ≡ ok success v)
        (frees : (v : World Contexts)
          → env.call_free cleanup c v ≡ epoll_signal_cleanup calls c v) where
      abbrev dead : ℕ → Obj
      dead n = record made { ref = n; parent = none }

      abbrev at_stop : World Contexts
      at_stop =
          put p marked
            (put h (record made { ref = 2; parent = some w.self }) (put h (with_ref made 2) w2))

      abbrev w4 : World Contexts
      w4 = put h (dead 1) (
          put h (dead 2)
            (removed env h at_stop w.obj_list (record made { ref = 2; parent = some w.self })))

      -- The context is freed: the handler has no count left.
      abbrev w5 : World Contexts
      w5 = put h (dead 0) w4

      -- What the free function of the handler leaves, and the handler freed.
      abbrev w6 : World Contexts
      w6 = cleanup_left calls p c r fd o.weak_refs marked w5 close
