-- ===== src/Tests/Loops.antt =====
-- A new loop, and the timeout of a poll call.
use aml.Base.{Option, none, some, arith, refl, if◌then◌else◌, is_some}
use aml.Base.Int.{pos}
use aml.World.{Ptr, World, success, pure, skip}
use aml.World.Safe.{Safe, returns}
use aml.Setup.{System, PipeFns, aml_new}
use aml.Inv.NewLoop.{IsSystem, NewLoop, aml_new-NewLoop}
use aml.Dispatch.Timeouts.{Waits, timeout_ms_bounds}
use aml.Tests.Quiet.{S, quiet, quiet-IsTame}
use aml.Tests.Store.{world}

-- The addresses 1 to 4 are to be had.
abbrev calloc : World S → Option Ptr
calloc w =
    if is_some (w.objs 1)
    then (if is_some (w.objs 2)
        then (if is_some (w.objs 3) then (if is_some (w.objs 4) then none else some 4) else some 3)
        else some 2)
    else some 1

abbrev system : System S
system = record {
  calloc = calloc;
  new_state = λ p. pure success;
  pipe = pure (some (6, 7));
  dont_block = λ fd. skip;
  close = λ fd. skip;
  read = λ fd. pure (pos 0);
  n_processors = pos 4;
}

system-IsSystem : IsSystem system
system-IsSystem = record {
  fresh = λ w p e. ground arith;
  new_state = λ loop p u k w v l. returns (u, v);
  pipe = λ loop u k w v l. returns (u, v);
  dont_block = λ loop fd u k w v l. returns (u, v);
  close = λ loop fd u k w v l. returns (u, v);
}

abbrev blank : World S
blank = record world { objs = λ p. none; weak = λ r. none }

abbrev pipe_fns : PipeFns
pipe_fns = record { on_self_pipe_read = 80; destroy_self_pipe = 81 }

aml_new-NewLoop_example :
    Safe (NewLoop system system-IsSystem quiet pipe_fns) (aml_new system quiet pipe_fns blank)
aml_new-NewLoop_example =
    aml_new-NewLoop system system-IsSystem quiet pipe_fns quiet-IsTame
      (λ loop u k w v l. returns (u, v)) blank (record { objs = λ p. refl; weak = λ r. refl })

timeout_ms_bounds_example : Waits 1500300 1500 7 999000000
timeout_ms_bounds_example = timeout_ms_bounds 1500300 7 999000000 (omega arith) (omega arith)
