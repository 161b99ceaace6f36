-- ===== src/Tests/Signals.antt =====
-- The signals of src/epoll.c and src/posix.c at the store of `Tests.Store`.
use aml.Base.{◌==◌, none, some, true, [], ◌∷◌, arith, refl, if◌then◌else◌}
use aml.World.{World, pure, skip}
use aml.World.Env.{Env}
use aml.World.Safe.{Safe, IfOk}
use aml.Posix.Signals.{
  Signals, IsInstalled, find_by_signo, posix_add_signal, posix_del_signal,
  posix_add_signal-IsInstalled,
}
use aml.Epoll.Signals.{
  Contexts, EpollSignal, SignalCalls, epoll_on_signal, epoll_signal_cleanup, start_failure,
}
use aml.Epoll.Delivery.{epoll_on_signal-Kept, start_failure-faults}
use aml.Inv.{Kept}
use aml.Tests.Quiet.{stopping, stopping-IsTame}
use aml.Tests.Store.{world_with, world_with-Inv, nobody, user, the_handler}

-- Signal objects are numbered by their signals; the one at 10 is added.
abbrev signals : Signals
signals = record { handlers = 10 ∷ []; handled = λ n. 10 == n; blocked = λ n. 10 == n }

signals-IsInstalled : IsInstalled (λ p. p) signals
unfolding find_by_signo
signals-IsInstalled = record { installed = λ n. ground arith }

posix_add_signal-IsInstalled_example :
    IsInstalled (λ p. p) (posix_add_signal (λ p. p) true true 12 signals).1
    × IsInstalled (λ p. p) (posix_del_signal (λ p. p) 12 signals).1
posix_add_signal-IsInstalled_example =
    posix_add_signal-IsInstalled (λ p. p) true true 12 signals signals-IsInstalled

-- The context at 0 is that of the handler at 4, for the object at 2.
abbrev context : EpollSignal
context = record { fd = 5; ref = some 9 }

abbrev contexts : Contexts
contexts c = if c == 0 then some context else none

abbrev store_with : World Contexts
store_with = world_with contexts

abbrev calls : SignalCalls
calls = record {
  calloc_context = λ w. some 1;
  calloc_weak_ref = λ w. some 12;
  calloc_handler = λ w. none;
  signalfd = λ n. pure (some 6);
  close = λ fd. skip;
  read = λ fd. skip;
  block = λ n. skip;
}

epoll_on_signal-Kept_example : Safe (λ _. Kept 1 user) (epoll_on_signal calls stopping 4 store_with)
epoll_on_signal-Kept_example =
    epoll_on_signal-Kept calls stopping (stopping-IsTame 1) nobody user store_with
      (world_with-Inv contexts) (omega arith) 4 0 9 the_handler context (some 2) refl refl refl refl
      refl refl

-- The handler is made with the cleanup function at 75.
abbrev with_cleanup : Env Contexts
with_cleanup = record stopping { call_free = λ f x. epoll_signal_cleanup calls x }

start_failure-faults_example : IfOk (λ _ _. ⊥) (start_failure calls with_cleanup 0 4 store_with)
start_failure-faults_example =
    start_failure-faults calls with_cleanup 75 0 4 refl store_with the_handler refl refl refl refl
      refl refl
