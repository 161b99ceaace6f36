-- ===== src/Tests/Resources.antt =====
-- A process with a ledger, and the theorems about the states of the backends.
use aml.Base.{ℕ, ◌+◌, ◌-◌, ◌≤◌, ◌<◌, true, false, Option, none, some, [], ◌∷◌, arith, refl}
use aml.Base.Int.{pos}
use aml.World.{World, Cmd, success, pure, skip, ◌>>=◌, ◌>>◌, get, modify}
use aml.Resources.{
  Resource, block, descriptor, one, Ends, ends, Calls, Holdings, Loses, Accounts, Lends,
}
use aml.Epoll.State.{
  EpollCalls, EpollAccounts, epoll_new_state, epoll_del_state, epoll_owned, epoll_new_state-Lends,
}
use aml.Posix.State.{PosixCalls, posix_new_state}
use aml.Posix.State.Outcomes.{PosixAccounts, Outcome}
use aml.Posix.State.Lends.{posix_new_state-Outcome}
use aml.Kqueue.Poll.{Kernel}
use aml.Kqueue.State.{KqState}
use aml.Kqueue.Backend.{with_implementation, kq_implementation-IsTame}
use aml.Inv.Tame.{IsTame}
use aml.Tests.Quiet.{quiet, quiet-IsTame}
use aml.Tests.Store.{world_with}

-- How many of each thing the process holds, and the next number to hand out.
record Ledger : Type 0 where
  next : ℕ
  holds : Resource → ℕ

abbrev held : Holdings Ledger
held w = w.state.holds

abbrev gain : Resource → World Ledger → World Ledger
gain r w = record w {
  state = record { next = w.state.next + 1; holds = λ q. w.state.holds q + one r q };
}

abbrev lose : Resource → World Ledger → World Ledger
lose r w = record w {
  state = record { next = w.state.next; holds = λ q. w.state.holds q - one r q };
}

abbrev hand_out : (ℕ → Resource) → Cmd Ledger (Option ℕ)
hand_out of = do n ← get (λ w. w.state.next); modify (gain (of n)); pure (some n)

abbrev calls : Calls Ledger
calls = record {
  calloc = hand_out block;
  malloc = λ size. hand_out block;
  free = λ p. modify (lose (block p));
  close = λ fd. modify (lose (descriptor fd));
}

one_held : (h : Resource → ℕ) (r q : Resource) → 0 < h r → one r q ≤ h q
one_held h (block p) (block q) b = ground arith
one_held h (descriptor p) (descriptor q) b = ground arith
one_held h (block p) (descriptor q) b = omega arith
one_held h (descriptor p) (block q) b = omega arith

lose-Loses : (r : Resource) (w : World Ledger) → 0 < held w r → Loses held (r ∷ []) w (lose r w)
lose-Loses r w b q = omega (arith, one_held (held w) r q b)

accounts : Accounts held calls
accounts = record {
  calloc = λ w. ends λ q. omega arith;
  malloc = λ size w. ends λ q. omega arith;
  free = λ p w b. ends (lose-Loses (block p) w b);
  close = λ fd w b. ends (lose-Loses (descriptor fd) w b);
}

abbrev start : World Ledger
start = world_with (record { next = 100; holds = λ q. 0 })

abbrev epoll_calls : EpollCalls Ledger
epoll_calls = record {
  epoll_create = hand_out descriptor;
  timerfd_create = hand_out descriptor;
  epoll_ctl_add = λ a b. pure success;
}

epoll_accounts : EpollAccounts held epoll_calls
epoll_accounts = record {
  epoll_create = λ w. ends λ q. omega arith;
  timerfd_create = λ w. ends λ q. omega arith;
  epoll_ctl_add = λ a b w. ends λ q. omega arith;
}

epoll_new_state-Lends_example :
    Ends
      (Lends held epoll_owned (epoll_del_state calls) start)
      (epoll_new_state calls epoll_calls 1 start)
epoll_new_state-Lends_example = epoll_new_state-Lends accounts epoll_accounts 1 start

-- pipe() fails.
abbrev posix_calls : PosixCalls Ledger
posix_calls = record {
  pipe = pure none;
  getfl = λ fd. pure 0;
  setfl = λ fd flags. skip;
  o_nonblock = 2048;
  sigaction = skip;
  pthread_create = pure (pos 0);
  pthread_cancel = skip;
  pthread_join = skip;
}

posix_accounts : PosixAccounts held true false calls posix_calls
posix_accounts = record {
  calloc = λ w. ends (λ q. omega arith, λ e. cc);
  malloc = λ size w. ends (λ q. omega arith, λ e. cc);
  pipe = λ w. ends λ q. omega arith;
  getfl = λ fd w. ends λ q. omega arith;
  setfl = λ fd flags w. ends λ q. omega arith;
  sigaction = λ w. ends λ q. omega arith;
  pthread_create = λ w. ends (refl, λ q. omega arith);
}

posix_new_state-Outcome_example :
    Ends (Outcome held true false calls start) (posix_new_state calls posix_calls 1 start)
posix_new_state-Outcome_example = posix_new_state-Outcome accounts posix_accounts 1 start

abbrev kernel : Kernel Ledger
kernel = record { kevent = λ c. pure success; kevent_wait = λ t. pure (pos 0, []) }

abbrev kq_state : KqState
kq_state = record { addr = 50; aml = 1; fd = 8 }

kq_implementation-IsTame_example :
    IsTame 1 (with_implementation calls (λ ks. pure success) kernel kq_state quiet)
kq_implementation-IsTame_example =
    kq_implementation-IsTame calls (λ ks. pure success) kernel kq_state
      (λ ks w. (success, w.state, refl)) (λ c w. (success, w.state, refl)) (quiet-IsTame 1)
