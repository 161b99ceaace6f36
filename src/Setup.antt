-- ===== src/Setup.antt =====
-- Setting up a loop in src/aml.c: `aml_new`, the self pipe, `aml_require_workers`, `aml_get_fd`. The
-- system calls and the backend's `new_state` are parameters; a backend operation that it leaves NULL
-- is `none`.
use aml.Base.{ℕ, zero, suc, true, false, Option, none, some, [], ◌==◌, if◌then◌else◌}
use aml.Base.Int.{ℤ, pos, negsuc, minus_one, is_negative}
use aml.World.{
  Ptr, Fn, ObjType, main_loop, handler, World, Cmd, Rc, success, failure, out_of_fuel, pure, skip,
  fail, ◌>>=◌, ◌>>◌, load, store, free, get, modify, when,
}
use aml.World.Env.{Backend, Env}
use aml.Object.{new_obj, aml_handler_new, aml_get_userdata}
use aml.Unref.{aml_unref}
use aml.Registry.{aml_start}

-- The system calls, with what `calloc` returns in each store; `read` of a descriptor returns what
-- remains to be read as `pos`.
pub record System (S : Type 0) : Type 0 where
  pub calloc : World S → Option Ptr
  pub new_state : Ptr → Cmd S Rc
  pub pipe : Cmd S (Option (ℕ × ℕ))
  pub dont_block : (fd : ℕ) → Cmd S (Unit {0})
  pub close : (fd : ℕ) → Cmd S (Unit {0})
  pub read : (fd : ℕ) → Cmd S ℤ
  pub n_processors : ℤ

-- The callbacks that the self pipe's handler is made with.
pub record PipeFns : Type 0 where
  pub on_self_pipe_read : Fn
  pub destroy_self_pipe : Fn

-- The thread pool operations of `implementation`, which may be NULL, and the default ones.
pub record PoolOps (S : Type 0) : Type 0 where
  pub acquire : Option (ℤ → Cmd S Rc)
  pub release : Option (Cmd S (Unit {0}))
  pub enqueue : Option (Ptr → Cmd S Rc)

abbrev pub or_default {ℓ} : {A : Type ℓ} → Option A → A → A
or_default none d = d
or_default (some a) d = a

-- The copy of `implementation` with the thread pool operations filled in. `b` holds the defaults.
unfoldable pub with_thread_pool : {S : Type 0} → PoolOps S → Backend S → Backend S
with_thread_pool ops b = record b {
  thread_pool_acquire = or_default ops.acquire b.thread_pool_acquire;
  thread_pool_release = or_default ops.release b.thread_pool_release;
  thread_pool_enqueue = or_default ops.enqueue b.thread_pool_enqueue;
}

module _ {S : Type 0} (sys : System S) where
  abbrev pub calloc_addr : Cmd S (Option Ptr)
  calloc_addr = get sys.calloc

  -- `while (read(...) > 0);`
  unfoldable pub drain_pipe : ℕ → ℕ → Cmd S (Unit {0})
  drain_pipe zero fd = λ w. out_of_fuel
  drain_pipe (suc fuel) fd = do
    n ← sys.read fd
    elim n [ pos (suc more) ↦ drain_pipe fuel fd | other ↦ skip ]

  -- `aml__destroy_self_pipe`; `userdata` is the loop, whose fields are those of the store.
  unfoldable pub destroy_self_pipe : Cmd S (Unit {0})
  destroy_self_pipe = do
    rfd ← get (λ w. w.self_pipe_rfd)
    wfd ← get (λ w. w.self_pipe_wfd)
    sys.close rfd
    sys.close wfd

  module _ (env : Env S) (fns : PipeFns) where
    -- `aml__init_self_pipe` from the allocation of the handler on.
    abbrev pub start_pipe : ℕ → ℕ → Option Ptr → Cmd S Rc
    start_pipe rfd wfd none = do sys.close wfd; sys.close rfd; pure failure
    start_pipe rfd wfd (some h) = do aml_start env h; aml_unref env h; pure success

    abbrev pub open_pipe : Ptr → Option (ℕ × ℕ) → Cmd S Rc
    open_pipe self none = pure failure
    open_pipe self (some (rfd, wfd)) = do
      sys.dont_block rfd
      sys.dont_block wfd
      modify (λ w. record w { self_pipe_rfd = rfd; self_pipe_wfd = wfd })
      fresh ← calloc_addr
      h ← aml_handler_new fresh rfd (some fns.on_self_pipe_read) self (some fns.destroy_self_pipe)
      start_pipe rfd wfd h

    abbrev pub init_unless : Ptr → Option (Cmd S (Unit {0})) → Cmd S Rc
    init_unless self (some c) = pure success
    init_unless self none = do fds ← sys.pipe; open_pipe self fds

    -- `aml__init_self_pipe`
    unfoldable pub init_self_pipe : Ptr → Cmd S Rc
    init_self_pipe self = init_unless self env.backend.interrupt

    -- The end of `aml_new`: `failure` and `pipe_failure`.
    abbrev pub piped : Ptr → Rc → Cmd S (Option Ptr)
    piped p success = pure (some p)
    piped p failure = do env.backend.del_state; free p; pure none

    abbrev pub with_state : Ptr → Rc → Cmd S (Option Ptr)
    with_state p failure = do free p; pure none
    with_state p success = do rc ← init_self_pipe p; piped p rc

    -- What `aml_new` writes before it calls the backend.
    abbrev pub cleared : Ptr → World S → World S
    cleared p w = record w {
      self = p;
      do_exit = false;
      obj_list = [];
      timer_list = [];
      idle_list = [];
      event_queue = [];
      have_thread_pool = false;
      self_pipe_rfd = 0;
      self_pipe_wfd = 0;
    }

    abbrev pub set_up : Option Ptr → Cmd S (Option Ptr)
    set_up none = pure none
    set_up (some p) = do
      store p (new_obj main_loop none 0 none)
      modify (cleared p)
      rc ← sys.new_state p
      with_state p rc

    unfoldable pub aml_new : Cmd S (Option Ptr)
    unfolding init_self_pipe
    aml_new = do fresh ← calloc_addr; set_up fresh

  module _ (env : Env S) where
    abbrev pub acquired : Rc → Cmd S Rc
    acquired failure = pure failure
    acquired success = do modify (λ w. record w { have_thread_pool = true }); pure success

    -- A negative `n` asks for one worker for each processor.
    unfoldable pub aml_require_workers : ℤ → Cmd S Rc
    aml_require_workers n = do
      rc ← env.backend.thread_pool_acquire (if is_negative n then sys.n_processors else n)
      acquired rc

module _ {S : Type 0} (env : Env S) where
  abbrev pub backend_fd : Option (Cmd S ℕ) → Cmd S ℤ
  backend_fd none = pure minus_one
  backend_fd (some c) = do fd ← c; pure (pos fd)

  -- The switch in `aml_get_fd`, on the object's type and descriptor.
  abbrev pub get_fd_of : ObjType → ℕ → Cmd S ℤ
  get_fd_of main_loop fd = backend_fd env.backend.get_fd
  get_fd_of handler fd = pure (pos fd)
  get_fd_of _ fd = pure minus_one

  unfoldable pub aml_get_fd : Ptr → Cmd S ℤ
  aml_get_fd p = do o ← load p; get_fd_of o.kind o.fd

  -- The callback of the self pipe's handler, with its assertions.
  unfoldable pub on_self_pipe_read : System S → ℕ → Ptr → Cmd S (Unit {0})
  unfolding drain_pipe aml_get_fd
  on_self_pipe_read sys fuel p = do
    self ← aml_get_userdata p
    when (self == 0) fail
    rfd ← get (λ w. w.self_pipe_rfd)
    fd ← aml_get_fd p
    elim fd [ pos n ↦ if n == rfd then drain_pipe sys fuel rfd else fail | negsuc n ↦ fail ]
