-- ===== src/Registry.antt =====
-- Starting and stopping in src/aml.c: `aml_is_started`, `aml_start`, `aml_stop`, and what starting
-- does by type.
pub mod Cancel
pub mod Roundtrip
pub mod Runs
use aml.Base.{◌+◌, ◌%◌, ◌^◌, Bool, false, Option, none, some, ◌∷◌, ◌==◌, if◌then◌else◌, has}
use aml.World.{
  Ptr, ObjType, unspec, main_loop, handler, timer, ticker, signal, work, idle, Cmd, Rc, success,
  failure, pure, skip, fail, ◌>>=◌, ◌>>◌, load, store, get, modify, when,
}
use aml.World.Env.{Env}
use aml.Object.{is_ticker}
use aml.Ref.{aml_ref}
use aml.Queue.{aml_emit}
use aml.Timer.{get_timer_with_earliest_deadline, gettime_us}
use aml.Stop.{on_success, set_parent, set_timer_list, stop_unchecked}
use aml.Unref.{aml_unref, obj_remove_unlocked, set_obj_list, discard}

abbrev pub points_to : Option Ptr → Ptr → Bool
points_to none p = false
points_to (some q) p = q == p

module _ {S : Type 0} where
  -- `aml__obj_is_started_unlocked`, and `aml_is_started` about it
  unfoldable pub aml_is_started : Ptr → Cmd S Bool
  aml_is_started p = get (λ w. has p w.obj_list)

  -- `aml__obj_try_add`
  unfoldable pub obj_try_add : Ptr → Cmd S Rc
  unfolding aml_is_started
  obj_try_add p = do
    started ← aml_is_started p
    if started
        then pure failure
        else (do aml_ref p; modify (λ w. set_obj_list (p ∷ w.obj_list) w); pure success)

  -- `aml__start_idle`
  unfoldable pub start_idle : Ptr → Cmd S Rc
  start_idle p = do modify (λ w. record w { idle_list = p ∷ w.idle_list }); pure success

module _ {S : Type 0} (env : Env S) where
  open env use {backend, write}

  abbrev pub interrupt_or : Option (Cmd S (Unit {0})) → Cmd S (Unit {0})
  interrupt_or none = do fd ← get (λ w. w.self_pipe_wfd); write fd
  interrupt_or (some c) = c

  unfoldable pub aml_interrupt : Cmd S (Unit {0})
  aml_interrupt = interrupt_or backend.interrupt

  -- `aml__start_handler`
  unfoldable pub start_handler : Ptr → Cmd S Rc
  start_handler p = do
    rc ← backend.add_fd p
    on_success rc (do self ← get (λ w. w.self); set_parent p (some self); pure success)

  -- The two tails of `aml__start_timer`: a timeout of 0, and the deadline for the backend.
  unfoldable pub start_expired : Ptr → Cmd S Rc
  unfolding aml_interrupt
  start_expired p = do
    o ← load p
    when (is_ticker o.kind) fail
    aml_emit p 0
    aml_interrupt
    pure success

  unfoldable pub arm_timer : Ptr → Cmd S Rc
  arm_timer p = do
    earliest ← get_timer_with_earliest_deadline
    o ← load p
    when (points_to earliest p) (discard (backend.set_deadline o.deadline))
    pure success

  -- `aml__start_timer`
  unfoldable pub start_timer : Ptr → Cmd S Rc
  unfolding start_expired arm_timer
  start_timer p = do
    now ← gettime_us env
    o ← load p
    store p (record o { deadline = (now + o.timeout) % 2 ^ 64; expired = false })
    modify (λ w. set_timer_list (p ∷ w.timer_list) w)
    if o.timeout == 0 then start_expired p else arm_timer p

  -- `aml__start_unchecked`, with `aml__start_signal` and `aml__start_work`
  unfoldable pub start_kind : ObjType → Ptr → Cmd S Rc
  unfolding start_handler start_timer start_idle
  start_kind main_loop p = pure failure
  start_kind handler p = start_handler p
  start_kind timer p = start_timer p
  start_kind ticker p = start_timer p
  start_kind signal p = backend.add_signal p
  start_kind work p = backend.thread_pool_enqueue p
  start_kind idle p = start_idle p
  start_kind unspec p = fail

  -- `aml__obj_remove`
  unfoldable pub obj_remove : Ptr → Cmd S (Unit {0})
  obj_remove = obj_remove_unlocked (aml_unref env)

  -- `aml__obj_try_remove`
  unfoldable pub obj_try_remove : Ptr → Cmd S Rc
  unfolding obj_remove aml_is_started
  obj_try_remove p = do
    started ← aml_is_started p
    if started then (do obj_remove p; pure success) else pure failure

  abbrev pub or_remove : Rc → Ptr → Cmd S Rc
  or_remove success p = pure success
  or_remove failure p = do obj_remove p; pure failure

  -- `aml_start` from the successful `aml__obj_try_add` on.
  unfoldable pub start_added : Ptr → Cmd S Rc
  unfolding obj_remove start_kind
  start_added p = do o ← load p; rc ← start_kind o.kind p; or_remove rc p

  unfoldable pub aml_start : Ptr → Cmd S Rc
  unfolding obj_try_add start_added
  aml_start p = do rc ← obj_try_add p; on_success rc (start_added p)

  abbrev pub stop_removed : Rc → Ptr → Cmd S (Unit {0})
  stop_removed success p = discard (stop_unchecked env p)
  stop_removed failure p = skip

  unfoldable pub aml_stop : Ptr → Cmd S Rc
  unfolding obj_try_remove
  aml_stop p = do aml_ref p; rc ← obj_try_remove p; stop_removed rc p; aml_unref env p; pure success
