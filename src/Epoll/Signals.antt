-- ===== src/Epoll/Signals.antt =====
-- The signals of src/epoll.c: each signal object has a handler for a signalfd, whose user data is a
-- `struct epoll_signal` with a weak reference to the object. The state is the store of these.
use aml.Base.{ℕ, Option, none, some, ◌==◌, if◌then◌else◌}
use aml.World.{
  Ptr, Fn, World, Cmd, Rc, success, failure, ok, fault, pure, skip, fail, ◌>>=◌, ◌>>◌, get, update,
}
use aml.World.Env.{Env}
use aml.Object.{
  aml_handler_new, aml_get_userdata, aml_get_signo, aml_get_backend_data, aml_set_backend_data,
}
use aml.Ref.{aml_weak_ref_new, aml_weak_ref_del, aml_weak_ref_read}
use aml.Queue.{aml_emit}
use aml.Unref.{aml_unref, discard}
use aml.Registry.{aml_start, aml_stop}

-- `struct epoll_signal`, with what `aml_weak_ref_new` returned.
pub record EpollSignal : Type 0 where
  pub fd : ℕ
  pub ref : Option Ptr

abbrev pub Contexts : Type 0
Contexts = Ptr → Option EpollSignal

-- The system calls, and what `calloc` returns for a context, a weak reference and a handler. A mask
-- that is blocked concerns no object.
pub record SignalCalls : Type 0 where
  pub calloc_context : World Contexts → Option Ptr
  pub calloc_weak_ref : World Contexts → Option Ptr
  pub calloc_handler : World Contexts → Option Ptr
  pub signalfd : (signo : ℕ) → Cmd Contexts (Option ℕ)
  pub close : (fd : ℕ) → Cmd Contexts (Unit {0})
  pub read : (fd : ℕ) → Cmd Contexts (Unit {0})
  pub block : (signo : ℕ) → Cmd Contexts (Unit {0})

abbrev pub load_context : Ptr → Cmd Contexts EpollSignal
load_context c = λ w. elim (w.state c) [ none ↦ fault | some x ↦ ok x w ]

abbrev pub store_context : Ptr → Option EpollSignal → Cmd Contexts (Unit {0})
store_context c x = λ w. ok tt (record w { state = update w.state c x })

-- `aml_weak_ref_read` of what may be NULL.
abbrev pub read_ref : Option Ptr → Cmd Contexts (Option Ptr)
read_ref none = fail
read_ref (some r) = aml_weak_ref_read r

module _ (calls : SignalCalls) where
  unfoldable pub epoll_signal_cleanup : Ptr → Cmd Contexts (Unit {0})
  epoll_signal_cleanup c = do
    sig ← load_context c
    calls.close sig.fd
    aml_weak_ref_del sig.ref
    store_context c none

  module _ (env : Env Contexts) where
    abbrev pub emit_signal : Option Ptr → Cmd Contexts (Unit {0})
    emit_signal none = skip
    emit_signal (some p) = do aml_emit p 0; discard (aml_unref env p)

    unfoldable pub epoll_on_signal : Ptr → Cmd Contexts (Unit {0})
    epoll_on_signal h = do
      c ← aml_get_userdata h
      ctx ← load_context c
      calls.read ctx.fd
      sig ← read_ref ctx.ref
      emit_signal sig

    -- The labels at the end of `epoll_add_signal`.
    abbrev pub signalfd_failure : Ptr → Cmd Contexts Rc
    signalfd_failure c = do store_context c none; pure failure

    unfoldable pub handler_failure : Ptr → Cmd Contexts Rc
    handler_failure c = do ctx ← load_context c; calls.close ctx.fd; signalfd_failure c

    unfoldable pub start_failure : Ptr → Ptr → Cmd Contexts Rc
    unfolding handler_failure
    start_failure c h = do aml_unref env h; handler_failure c

    abbrev pub signal_started : Ptr → Ptr → Ptr → ℕ → Rc → Cmd Contexts Rc
    signal_started p c h signo failure = start_failure c h
    signal_started p c h signo success = do
      aml_set_backend_data p h
      calls.block signo
      pure success

    abbrev pub start_signal : Ptr → Ptr → ℕ → Option Ptr → Cmd Contexts Rc
    start_signal p c signo none = handler_failure c
    start_signal p c signo (some h) = do rc ← aml_start env h; signal_started p c h signo rc

    -- `on_signal` and `cleanup` are the callbacks of the handler.
    abbrev pub open_signal :
        (on_signal cleanup : Fn) → Ptr → Ptr → Option Ptr → ℕ → Option ℕ → Cmd Contexts Rc
    open_signal on_signal cleanup p c ref signo none = signalfd_failure c
    open_signal on_signal cleanup p c ref signo (some fd) = do
      store_context c (some (record { fd = fd; ref = ref }))
      fresh ← get calls.calloc_handler
      h ← aml_handler_new fresh fd (some on_signal) c (some cleanup)
      start_signal p c signo h

    abbrev pub add_with : (on_signal cleanup : Fn) → Ptr → Option Ptr → Cmd Contexts Rc
    add_with on_signal cleanup p none = pure failure
    add_with on_signal cleanup p (some c) = do
      signo ← aml_get_signo p
      fresh ← get calls.calloc_weak_ref
      ref ← aml_weak_ref_new fresh p
      fd ← calls.signalfd signo
      open_signal on_signal cleanup p c ref signo fd

    unfoldable pub epoll_add_signal : (on_signal cleanup : Fn) → Ptr → Cmd Contexts Rc
    unfolding start_failure handler_failure
    epoll_add_signal on_signal cleanup p = do
      c ← get calls.calloc_context
      add_with on_signal cleanup p c

    abbrev pub release_handler : Rc → Ptr → Cmd Contexts Rc
    release_handler failure h = pure failure
    release_handler success h = do aml_unref env h; pure success

    -- An assertion fails where no handler was set.
    unfoldable pub epoll_del_signal : Ptr → Cmd Contexts Rc
    epoll_del_signal p = do
      h ← aml_get_backend_data p
      if h == 0 then fail else (do rc ← aml_stop env h; release_handler rc h)
