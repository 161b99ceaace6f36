-- ===== src/Tests/Returning.antt =====
-- A round of the loop of src/aml.c that returns, at the store of `Tests.Running`.
use aml.Base.{[], arith, refl, inl}
use aml.World.Env.{Env}
use aml.World.Safe.{Safe, returns}
use aml.World.Calm.{IsCalm, pure-IsCalm}
use aml.Calm.{IsCalmEnv}
use aml.Dispatch.{aml_dispatch, aml_exit}
use aml.Inv.{Kept}
use aml.Inv.Idle.{StopsOnlyItself}
use aml.Inv.Running.{IsRunning, do_exit-Inv}
use aml.Inv.Tame.{IsTame}
use aml.Inv.Firing.{IsPeriodic}
use aml.Inv.Returning.{aml_dispatch-Returns}
use aml.Tests.Quiet.{S, quiet, quiet-IsTame}
use aml.Tests.Store.{nobody}
use aml.Tests.Running.{idle_world, idle_user, idle_world-Inv}

-- Every callback calls aml_exit; it is 3900 microseconds past the start of the clock.
abbrev leaving : Env S
leaving = record quiet {
  call_cb = λ f p. aml_exit quiet;
  clock_sec = λ w. 0;
  clock_nsec = λ w. 3900000;
}

aml_exit-IsCalm : IsCalm {S = S} (aml_exit quiet)
unfolding aml_exit
aml_exit-IsCalm = record { calm = λ w. omega arith }

leaving-IsCalmEnv : IsCalmEnv leaving
leaving-IsCalmEnv = record {
  callback = λ f p. aml_exit-IsCalm;
  free = λ f x. pure-IsCalm tt;
  add_fd = λ p. pure-IsCalm _;
  mod_fd = λ f e. absurd (cc);
  del_fd = λ p. pure-IsCalm _;
  del_signal = λ p. pure-IsCalm _;
  set_deadline = λ d. pure-IsCalm _;
  thread_pool_release = pure-IsCalm tt;
  del_state = pure-IsCalm tt;
}

leaving-StopsOnlyItself : StopsOnlyItself {S = S} 1 leaving
unfolding aml_exit
leaving-StopsOnlyItself f p o u k w v l at e listed = returns ((u, do_exit-Inv v), ([], inl refl))

leaving-IsTame : IsTame {S = S} 1 leaving
unfolding aml_exit
leaving-IsTame = record {
  free = q.free;
  callback = λ f p u k w v l lp. returns (u, do_exit-Inv v);
  add_fd = q.add_fd;
  del_fd = q.del_fd;
  mod_fd = λ f e. absurd (cc);
  add_fd_again = q.add_fd_again;
  add_signal = q.add_signal;
  del_signal = q.del_signal;
  enqueue = q.enqueue;
  set_deadline = q.set_deadline;
  interrupt = λ c e. absurd (cc);
  write = q.write;
}
  where
    q : IsTame {S = S} 1 quiet
    q = quiet-IsTame 1

leaving-IsRunning : IsRunning {S = S} 1 leaving
leaving-IsRunning = record {
  tame = leaving-IsTame;
  idle = leaving-StopsOnlyItself;
  poll = λ t u k w v l. returns (u, v);
  post_dispatch = λ c e. absurd (cc);
  clock = λ w. omega arith;
}

idle_world-IsPeriodic : IsPeriodic 3900 idle_world
idle_world-IsPeriodic q x n at t active = ground arith

aml_dispatch-Returns_example : Safe (λ _. Kept 1 idle_user) (aml_dispatch leaving 1000 idle_world)
aml_dispatch-Returns_example =
    aml_dispatch-Returns leaving leaving-IsRunning leaving-IsCalmEnv 1000 nobody idle_user
      idle_world idle_world-Inv (omega arith) idle_world-IsPeriodic (omega arith) (omega arith)
