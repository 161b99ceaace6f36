-- ===== src/Epoll/Backend.antt =====
-- The `implementation` of src/epoll.c but for signals, as what src/aml.c asks of a backend.
use mathlib.Core.Path.{subst}
use aml.Base.{ℕ, none, some, arith}
use aml.World.{Ptr, Obj, pure}
use aml.World.Env.{Backend, Env}
use aml.World.Outside.{Outside}
use aml.Resources.{Calls}
use aml.Epoll.{
  CtlOp, ctl_add, ctl_mod, EpollEvent, Kernel, epoll_events, epoll_add_fd, epoll_mod_fd,
  epoll_del_fd, epoll_poll, epoll_set_deadline,
}
use aml.Epoll.State.{EpollState, epoll_del_state, epoll_get_fd}
use aml.Inv.{FramesAt}
use aml.Inv.Tame.{IsTame}
use aml.Inv.Calls.{
  or_else, CallsOn, call-Frames, CallsOn-Frames, CallsOn-FramesStart, load_call-CallsOn,
}

module _ {S : Type 0} (calls : Calls S) (kernel : Kernel S) (self : EpollState) where
  -- The table without its two operations on signals, which Epoll/Signals has, on a store of contexts:
  -- they stay those of `rest`. The operations that the table leaves out are NULL, and those of the
  -- thread pool, which `aml_new` fills in, are those of `rest`. Its clock is that of the environment.
  unfoldable pub epoll_descriptors : Backend S → Backend S
  unfolding epoll_del_state epoll_get_fd epoll_poll epoll_add_fd epoll_mod_fd epoll_del_fd
      epoll_set_deadline
  epoll_descriptors rest = record {
    flags = 0;
    del_state = epoll_del_state calls self;
    get_fd = some (pure (epoll_get_fd self));
    poll = epoll_poll kernel;
    exit = none;
    add_fd = epoll_add_fd kernel;
    mod_fd = some (epoll_mod_fd kernel);
    del_fd = epoll_del_fd kernel;
    add_signal = rest.add_signal;
    del_signal = rest.del_signal;
    set_deadline = epoll_set_deadline kernel;
    post_dispatch = none;
    interrupt = none;
    thread_pool_acquire = rest.thread_pool_acquire;
    thread_pool_release = rest.thread_pool_release;
    thread_pool_enqueue = rest.thread_pool_enqueue;
  }

  abbrev pub with_descriptors : Env S → Env S
  with_descriptors env = record env { backend = epoll_descriptors env.backend }

-- The event that a handler is registered with.
abbrev event_for : Ptr → Obj → EpollEvent
event_for p o = record { events = epoll_events o.event_mask; ptr = some p }

-- The calls of the kernel that register something.
pub record Registers {S : Type 0} (kernel : Kernel S) : Type 0 where
  pub epoll_ctl : (op : CtlOp) (fd : ℕ) (e : EpollEvent) → Outside (kernel.epoll_ctl op fd e)
  pub timerfd_settime : (sec nsec : ℕ) → Outside (kernel.timerfd_settime sec nsec)

module _ {S : Type 0} (kernel : Kernel S) (p : Ptr) where
  add_fd-CallsOn :
      CallsOn p (λ o. kernel.epoll_ctl ctl_add o.fd (event_for p o)) (epoll_add_fd kernel p)
  unfolding epoll_add_fd
  add_fd-CallsOn w o at = ground arith

  mod_fd-CallsOn :
      CallsOn p (λ o. kernel.epoll_ctl ctl_mod o.fd (event_for p o)) (epoll_mod_fd kernel p)
  unfolding epoll_mod_fd
  mod_fd-CallsOn w o at = ground arith

module _ {S : Type 0} (calls : Calls S) (kernel : Kernel S) (self : EpollState) {loop : Ptr}
    {env : Env S} where
  -- If epoll_ctl() and timerfd_settime() return and change nothing of the store of aml.c, the
  -- operations of src/epoll.c on descriptors and its deadlines never fault, in whatever state they
  -- are called, keep the invariant and the references of the caller, and where one that starts a
  -- handler fails, the handler is on the list of started objects as before. The user code, the
  -- thread pool and the operations on signals that they are put together with are such too.
  pub epoll_descriptors-IsTame :
      Registers kernel → IsTame loop env → IsTame loop (with_descriptors calls kernel self env)
  unfolding epoll_descriptors epoll_del_fd epoll_set_deadline
  epoll_descriptors-IsTame registers tame = record {
    free = tame.free;
    callback = tame.callback;
    add_fd = λ p. CallsOn-FramesStart p (add_fd-CallsOn kernel p) λ o. registers.epoll_ctl _ _ _;
    del_fd = λ p. CallsOn-Frames p (load_call-CallsOn _ p) λ o. registers.epoll_ctl _ _ _;
    mod_fd = λ f e p.
        subst (λ g. FramesAt loop p (or_else g (epoll_mod_fd kernel) p)) e
          (CallsOn-Frames p (mod_fd-CallsOn kernel p) λ o. registers.epoll_ctl _ _ _);
    add_fd_again = λ p. CallsOn-Frames p (add_fd-CallsOn kernel p) λ o. registers.epoll_ctl _ _ _;
    add_signal = tame.add_signal;
    del_signal = tame.del_signal;
    enqueue = tame.enqueue;
    set_deadline = λ d. call-Frames (registers.timerfd_settime _ _);
    interrupt = λ c e. absurd (cc);
    write = tame.write;
  }
