-- ===== src/Tests/Watches.antt =====
-- A signal that is added with src/epoll.c and deleted again, at the store of `Tests.Store`.
use aml.Base.{none, some}
use aml.World.{signal, Obj, World, put, skip, pure}
use aml.World.Env.{Env}
use aml.Object.{new_obj}
use aml.Epoll.Signals.{Contexts, SignalCalls, epoll_signal_cleanup}
use aml.Tests.Quiet.{quiet}
use aml.Tests.Store.{world_with}

abbrev calls : SignalCalls
calls = record {
  calloc_context = λ w. some 21;
  calloc_weak_ref = λ w. some 22;
  calloc_handler = λ w. some 23;
  signalfd = λ n. pure (some 6);
  close = λ fd. skip;
  read = λ fd. skip;
  block = λ n. skip;
}

-- The only free function is that of the handlers of signals.
abbrev watching : Env Contexts
watching = record quiet { call_free = λ f c. epoll_signal_cleanup calls c }

-- SIGINT
abbrev sigint : Obj
sigint = let o = new_obj signal (some 74) 0 none in record o { signo = 2 }

abbrev store : World Contexts
store = put 8 sigint (world_with (λ c. none))
