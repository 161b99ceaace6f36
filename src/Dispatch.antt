-- ===== src/Dispatch.antt =====
-- The event loop of src/aml.c: `aml__handle_event`, `aml__handle_idle`, `aml_dispatch`, `aml_run`,
-- `aml_exit`, `aml_poll`, `aml_set_event_mask`. The loops that user code can prolong take fuel.
pub mod Timeouts
use Prim.Native.Nat.{bit_and}
use aml.Base.{
  ℕ, zero, suc, true, false, not, Option, none, some, ◌==◌, ltb, if◌then◌else◌, has, is_some, ◌&&◌,
}
use aml.Base.Int.{ℤ, pos, negsuc, minus_one, div_int, to_int}
use aml.World.{
  Ptr, Fn, Cmd, Rc, out_of_fuel, pure, skip, fail, ◌>>=◌, ◌>>◌, load, store, get, modify, when,
}
use aml.World.Env.{Env}
use aml.Object.{is_handler, obj_is_single_shot}
use aml.Ref.{aml_ref}
use aml.Queue.{event_dequeue}
use aml.Timer.{get_timer_with_earliest_deadline, gettime_us, handle_timeouts}
use aml.Stop.{first, next_in, or_skip}
use aml.Unref.{aml_unref, discard}
use aml.Registry.{aml_is_started, aml_stop}

abbrev pub edge_triggered : ℕ
edge_triggered = 1

-- Conversion of an `int64_t` in microseconds to an `int` in milliseconds; -1 stays.
unfoldable pub timeout_ms : ℤ → ℤ
timeout_ms (negsuc zero) = minus_one
timeout_ms timeout_us = to_int (div_int timeout_us 1000)

module _ {S : Type 0} (env : Env S) where
  open env use {backend, call_cb}

  abbrev pub call_callback : Option Fn → Ptr → Cmd S (Unit {0})
  call_callback none p = skip
  call_callback (some f) p = call_cb f p

  -- `aml__mod_fd`
  abbrev pub mod_fd_or : Option (Ptr → Cmd S Rc) → Ptr → Cmd S Rc
  mod_fd_or none p = do backend.del_fd p; backend.add_fd p
  mod_fd_or (some f) p = f p

  unfoldable pub mod_fd : Ptr → Cmd S Rc
  mod_fd = mod_fd_or backend.mod_fd

  -- The first `if` of `aml__handle_event`, entered.
  unfoldable pub handle_started : Ptr → Cmd S (Unit {0})
  handle_started p = do
    o ← load p
    when (obj_is_single_shot o.kind) (discard (aml_stop env p))
    o ← load p
    call_callback o.cb p

  -- The second `if` of `aml__handle_event`.
  unfoldable pub rearm_handler : Ptr → Cmd S (Unit {0})
  unfolding mod_fd
  rearm_handler p = do
    o ← load p
    when (is_handler o.kind) (do
      store p (record o { revents = 0 })
      when (not (bit_and backend.flags edge_triggered == 0)) (discard (mod_fd p)))

  unfoldable pub handle_event : Ptr → Cmd S (Unit {0})
  unfolding handle_started rearm_handler
  handle_event p = do
    aml_ref p
    started ← aml_is_started p
    when started (handle_started p)
    rearm_handler p
    discard (aml_unref env p)

  -- The test and the body of `while ((obj = aml__event_dequeue(self)) != NULL)`, and what follows.
  abbrev pub handle_dequeued : Cmd S (Unit {0}) → Option Ptr → Cmd S (Unit {0})
  handle_dequeued rest none = skip
  handle_dequeued rest (some p) = do handle_event p; aml_unref env p; rest

  unfoldable pub handle_events : ℕ → Cmd S (Unit {0})
  handle_events zero = λ w. out_of_fuel
  handle_events (suc fuel) = do e ← event_dequeue; handle_dequeued (handle_events fuel) e

  -- `LIST_NEXT`, also of an object that was taken off the list.
  abbrev pub idle_next : Ptr → Cmd S (Option Ptr)
  idle_next p = get (λ w. if has p w.idle_list then next_in p w.idle_list else w.idle_stale p)

  abbrev pub call_if_started : Option Fn → Ptr → Cmd S (Unit {0})
  call_if_started none p = skip
  call_if_started (some f) p = do started ← aml_is_started p; when started (call_cb f p)

  -- LIST_FOREACH_SAFE over the idle list: the successor is read before the callback.
  unfoldable pub walk_idle : ℕ → Option Ptr → Cmd S (Unit {0})
  walk_idle fuel none = skip
  walk_idle zero (some p) = λ w. out_of_fuel
  walk_idle (suc fuel) (some p) = do
    o ← load p
    tmp ← idle_next p
    call_if_started o.cb p
    walk_idle fuel tmp

  -- `aml__handle_idle`
  unfoldable pub handle_idle : ℕ → Cmd S (Unit {0})
  unfolding walk_idle
  handle_idle fuel = λ w. walk_idle fuel (first w.idle_list) w

  abbrev pub announce_deadline : ℕ → Option Ptr → Cmd S (Unit {0})
  announce_deadline now none = skip
  announce_deadline now (some p) = do
    o ← load p
    if ltb now o.deadline then discard (backend.set_deadline o.deadline) else fail

  unfoldable pub aml_dispatch : ℕ → Cmd S (Unit {0})
  unfolding handle_events handle_idle
  aml_dispatch fuel = do
    now ← gettime_us env
    handle_timeouts fuel now
    earliest ← get_timer_with_earliest_deadline
    announce_deadline now earliest
    handle_events fuel
    handle_idle fuel
    or_skip backend.post_dispatch

  unfoldable pub aml_poll : ℤ → Cmd S ℤ
  unfolding timeout_ms
  aml_poll timeout_us = backend.poll (timeout_ms timeout_us)

  unfoldable pub run_rounds : ℕ → Cmd S ℤ
  run_rounds zero = λ w. out_of_fuel
  run_rounds (suc fuel) = do
    aml_poll minus_one
    aml_dispatch fuel
    done ← get (λ w. w.do_exit)
    if done then pure (pos 0) else run_rounds fuel

  unfoldable pub aml_run : ℕ → Cmd S ℤ
  unfolding run_rounds
  aml_run fuel = do modify (λ w. record w { do_exit = false }); run_rounds fuel

  unfoldable pub aml_exit : Cmd S (Unit {0})
  aml_exit = do modify (λ w. record w { do_exit = true }); or_skip backend.exit

  -- With one loop in play `parent` can only be that loop.
  unfoldable pub aml_set_event_mask : Ptr → ℕ → Cmd S (Unit {0})
  unfolding mod_fd
  aml_set_event_mask p mask = do
    o ← load p
    store p (record o { event_mask = mask })
    started ← aml_is_started p
    when (is_some o.parent && started) (discard (mod_fd p))
