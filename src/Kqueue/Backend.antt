-- ===== src/Kqueue/Backend.antt =====
-- The `implementation` of src/kqueue.c, as what src/aml.c asks of a backend.
use mathlib.Core.Path.{subst}
use aml.Base.{none, some, List, arith, refl}
use aml.World.{Ptr, Obj, Cmd, Rc, pure, load, put}
use aml.World.Env.{Backend, Env}
use aml.Resources.{Calls}
use aml.Kqueue.{Kevent, changes, kq_add_fd, kq_del_fd}
use aml.Kqueue.Poll.{Change, Kernel, kq_poll, kq_add_signal, kq_del_signal, kq_set_deadline}
use aml.Kqueue.State.{KqState, kq_del_state, kq_get_fd}
use aml.Inv.{Kept, FramesAt}
use aml.World.Outside.{Outside, call-Safe}
use aml.Inv.Step.{SameCounts, put-Inv, set_state-Inv}
use aml.Inv.Refs.{find}
use aml.Inv.Tame.{FramesStart, IsTame}
use aml.Inv.Calls.{or_else, call-Frames, CallsOn-Frames, CallsOn-FramesStart, load_call-CallsOn}

module _ {S : Type 0} (calls : Calls S) (kevent : List Kevent → Cmd S Rc) (kernel : Kernel S)
    (self : KqState) where
  -- The table; the operations that it leaves out are NULL, and those of the thread pool are what
  -- `aml_new` fills in.
  unfoldable pub kq_implementation : Backend S → Backend S
  unfolding kq_del_state kq_get_fd kq_poll kq_add_fd kq_del_fd kq_add_signal kq_del_signal
      kq_set_deadline
  kq_implementation pool = record {
    flags = 0;
    del_state = kq_del_state calls self;
    get_fd = some (pure (kq_get_fd self));
    poll = kq_poll kernel;
    exit = none;
    add_fd = kq_add_fd kevent;
    mod_fd = some (kq_add_fd kevent);
    del_fd = kq_del_fd kevent;
    add_signal = kq_add_signal kernel;
    del_signal = kq_del_signal kernel;
    set_deadline = kq_set_deadline kernel;
    post_dispatch = none;
    interrupt = none;
    thread_pool_acquire = pool.thread_pool_acquire;
    thread_pool_release = pool.thread_pool_release;
    thread_pool_enqueue = pool.thread_pool_enqueue;
  }

  abbrev pub with_implementation : Env S → Env S
  with_implementation env = record env { backend = kq_implementation env.backend }

module _ {S : Type 0} {loop : Ptr} where
  module _ (kevent : List Kevent → Cmd S Rc)
      (outside : (ks : List Kevent) → Outside (kevent ks)) where
    kq_add_fd-FramesStart : (p : Ptr) → FramesStart loop p (kq_add_fd kevent p)
    unfolding kq_add_fd
    kq_add_fd-FramesStart p u k w v l lp listed =
        let (o, at) = find {p = p} v.core (ground (arith, v.core.balance p)) in
        let o' : Obj = record o { backend_data = o.event_mask } in
        let same : SameCounts o o' = record {
          kind = refl;
          weak_refs = refl;
          ref = refl;
          n_events = refl;
        } in
        rw (at, load)
          (call-Safe _ (put p o' w) (outside (changes o.fd o.backend_data o.event_mask))
            λ a x. ((u, set_state-Inv x (put-Inv v at o' same)), λ e. (listed, ground arith)))

    kq_add_fd-Frames : (p : Ptr) → FramesAt loop p (kq_add_fd kevent p)
    unfolding kq_add_fd
    kq_add_fd-Frames p u k w v l lp =
        let (o, at) = find {p = p} v.core (ground (arith, v.core.balance p)) in
        let o' : Obj = record o { backend_data = o.event_mask } in
        let same : SameCounts o o' = record {
          kind = refl;
          weak_refs = refl;
          ref = refl;
          n_events = refl;
        } in
        rw (at, load)
          (call-Safe (λ _ w'. Kept loop k w') (put p o' w)
            (outside (changes o.fd o.backend_data o.event_mask))
            λ a x. (u, set_state-Inv x (put-Inv v at o' same)))

module _ {S : Type 0} (calls : Calls S) (kevent : List Kevent → Cmd S Rc) (kernel : Kernel S)
    (self : KqState) {loop : Ptr} {env : Env S} where
  -- If kevent() returns and changes nothing of the store of aml.c, the operations of
  -- src/kqueue.c on descriptors, signals and deadlines, called on a live object that the caller
  -- holds along with the loop, in whatever state, never fault and keep the invariant and the
  -- references of the caller, and where one that starts an object fails, the object is on the
  -- list of started objects as before, if the environment that the backend is put into, the
  -- user code and the thread pool in it, keeps to the same. Nothing is said of kq_poll and
  -- kq_del_state.
  pub kq_implementation-IsTame :
      ((ks : List Kevent) → Outside (kevent ks))
      → ((c : Change) → Outside (kernel.kevent c))
      → IsTame loop env
      → IsTame loop (with_implementation calls kevent kernel self env)
  unfolding kq_implementation kq_del_fd kq_add_signal kq_del_signal kq_set_deadline
  kq_implementation-IsTame descriptors changes tame = record {
    free = tame.free;
    callback = tame.callback;
    add_fd = kq_add_fd-FramesStart kevent descriptors;
    del_fd = λ p. CallsOn-Frames p (load_call-CallsOn _ p) λ o. descriptors _;
    mod_fd = λ f e p.
        subst (λ g. FramesAt loop p (or_else g (kq_add_fd kevent) p)) e
          (kq_add_fd-Frames kevent descriptors p);
    add_fd_again = kq_add_fd-Frames kevent descriptors;
    add_signal = λ p. CallsOn-FramesStart p (load_call-CallsOn _ p) λ o. changes _;
    del_signal = λ p. CallsOn-Frames p (load_call-CallsOn _ p) λ o. changes _;
    enqueue = tame.enqueue;
    set_deadline = λ d. call-Frames (changes _);
    interrupt = λ c e. absurd (cc);
    write = tame.write;
  }
