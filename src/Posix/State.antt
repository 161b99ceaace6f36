-- ===== src/Posix/State.antt =====
-- The state of the posix backend in src/posix.c, from `posix_new_state` to `posix_del_state`. Locks and
-- condition variables, and the flag that `posix_post_dispatch` resets, are not part of it.
pub mod Outcomes
pub mod Release
pub mod Lends
use Prim.Native.Nat.{bit_or}
use aml.Base.{ℕ, ◌*◌, Option, none, some, List, [], ◌∷◌, if◌then◌else◌}
use aml.Base.Int.{ℤ, is_negative}
use aml.World.{Ptr, Cmd, pure, skip, ◌>>=◌, ◌>>◌}
use aml.World.Env.{Env}
use aml.Resources.{block, descriptor, Resource, Calls}
use aml.Posix.{Table}
use aml.Posix.Backend.{drop_fd_ops}

-- What `struct posix_state` owns, with its address.
pub record PosixState : Type 0 where
  pub addr : Ptr
  pub aml : Ptr
  pub fds : Ptr
  pub handlers : Ptr
  pub max_fds : ℕ
  pub event_pipe_rfd : ℕ
  pub event_pipe_wfd : ℕ

-- The system calls; `getfl` and `setfl` are F_GETFL and F_SETFL of `fcntl`, and `sigaction` installs
-- the handler of SIGUSR1.
pub record PosixCalls (S : Type 0) : Type 0 where
  pub pipe : Cmd S (Option (ℕ × ℕ))
  pub getfl : (fd : ℕ) → Cmd S ℕ
  pub setfl : (fd flags : ℕ) → Cmd S (Unit {0})
  pub o_nonblock : ℕ
  pub sigaction : Cmd S (Unit {0})
  pub pthread_create : Cmd S ℤ
  pub pthread_cancel : Cmd S (Unit {0})
  pub pthread_join : Cmd S (Unit {0})

module _ {S : Type 0} (kernel : PosixCalls S) where
  unfoldable pub dont_block : (fd : ℕ) → Cmd S (Unit {0})
  dont_block fd = do flags ← kernel.getfl fd; kernel.setfl fd (bit_or flags kernel.o_nonblock)

  abbrev pub piped : Option (ℕ × ℕ) → Cmd S (Option (ℕ × ℕ))
  piped none = pure none
  piped (some (r, w)) = do dont_block r; dont_block w; pure (some (r, w))

  -- The two ends, or nothing for -1.
  unfoldable pub init_event_pipe : Cmd S (Option (ℕ × ℕ))
  unfolding dont_block
  init_event_pipe = do fds ← kernel.pipe; piped fds

  -- The old action of SIGUSR1 is not restored: that call stands behind the return.
  unfoldable pub spawn_poller : Cmd S ℤ
  spawn_poller = do kernel.sigaction; kernel.pthread_create

module _ {S : Type 0} (calls : Calls S) where
  -- `free` of a pointer that may be null.
  abbrev pub free_option : Option Ptr → Cmd S (Unit {0})
  free_option none = skip
  free_option (some p) = calls.free p

  -- `posix_del_state` from the first `close` on.
  unfoldable pub posix_release : PosixState → Cmd S (Unit {0})
  posix_release self = do
    calls.close self.event_pipe_rfd
    calls.close self.event_pipe_wfd
    calls.free self.handlers
    calls.free self.fds
    calls.free self.addr

  module _ (kernel : PosixCalls S) where
    -- `thread_failure`, down to the end of the function.
    abbrev pub spawned : PosixState → ℤ → Cmd S (Option PosixState)
    spawned s rc =
        if is_negative rc
        then (do
          calls.close s.event_pipe_rfd
          calls.close s.event_pipe_wfd
          calls.free s.addr
          pure none)
        else pure (some s)

    abbrev pub pipe_made : Ptr → Ptr → Ptr → Ptr → Option (ℕ × ℕ) → Cmd S (Option PosixState)
    pipe_made aml p fds handlers none = do calls.free p; pure none
    pipe_made aml p fds handlers (some (rfd, wfd)) = do
      rc ← spawn_poller kernel
      spawned
          (record {
            addr = p;
            aml = aml;
            fds = fds;
            handlers = handlers;
            max_fds = 128;
            event_pipe_rfd = rfd;
            event_pipe_wfd = wfd;
          })
          rc

    abbrev pub arrays_made : Ptr → Ptr → Option Ptr → Option Ptr → Cmd S (Option PosixState)
    arrays_made aml p (some fds) (some handlers) = do
      ends ← init_event_pipe kernel
      pipe_made aml p fds handlers ends
    arrays_made aml p fds handlers = do
      free_option fds
      free_option handlers
      calls.free p
      pure none

    -- `sizeof` of a `struct pollfd` and of a pointer is 8.
    abbrev pub posix_made : Ptr → Option Ptr → Cmd S (Option PosixState)
    posix_made aml none = pure none
    posix_made aml (some p) = do
      fds ← calls.malloc (8 * 128)
      handlers ← calls.malloc (8 * 128)
      arrays_made aml p fds handlers

    unfoldable pub posix_new_state : Ptr → Cmd S (Option PosixState)
    unfolding spawn_poller init_event_pipe
    posix_new_state aml = do p ← calls.calloc; posix_made aml p

unfoldable pub posix_get_fd : PosixState → ℕ
posix_get_fd self = self.event_pipe_rfd

module _ (calls : Calls Table) (kernel : PosixCalls Table) (env : Env Table) where
  unfoldable pub posix_del_state : ℕ → PosixState → Cmd Table (Unit {0})
  unfolding posix_release drop_fd_ops
  posix_del_state fuel self = do
    kernel.pthread_cancel
    kernel.pthread_join
    drop_fd_ops env fuel
    posix_release calls self

abbrev pub posix_owned : PosixState → List Resource
posix_owned s =
    descriptor s.event_pipe_rfd
    ∷ descriptor s.event_pipe_wfd
    ∷ block s.handlers
    ∷ block s.fds
    ∷ block s.addr
    ∷ []
