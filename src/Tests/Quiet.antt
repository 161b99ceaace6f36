-- ===== src/Tests/Quiet.antt =====
-- A backend that accepts everything, and user code that stops the object that it is called for.
use aml.Base.{none, refl, arith}
use aml.Base.Int.{pos}
use aml.World.{Ptr, success, failure, pure, skip}
use aml.World.Env.{Backend, Env}
use aml.World.Safe
use aml.World.Safe.{Safe, returns}
use aml.Registry.{aml_stop}
use aml.Unref.{discard}
use aml.Inv.{Frames, FramesAt, FramesFree}
use aml.Inv.Stopping.{aml_stop-Kept}
use aml.Inv.Tame.{FramesStart, IsTame}

abbrev pub S : Type 0
S = Unit {0}

abbrev pub accepting : {S : Type 0} → Backend S
accepting = record {
  flags = 1;
  del_state = skip;
  get_fd = none;
  poll = λ t. pure (pos 0);
  exit = none;
  add_fd = λ p. pure success;
  mod_fd = none;
  del_fd = λ p. pure success;
  add_signal = λ p. pure failure;
  del_signal = λ p. pure success;
  set_deadline = λ d. pure success;
  post_dispatch = none;
  interrupt = none;
  thread_pool_acquire = λ n. pure success;
  thread_pool_release = skip;
  thread_pool_enqueue = λ p. pure success;
}

abbrev pub quiet : {S : Type 0} → Env S
quiet = record {
  backend = accepting;
  call_cb = λ f p. skip;
  call_free = λ f x. skip;
  clock_sec = λ w. 5;
  clock_nsec = λ w. 7000;
  write = λ fd. skip;
}

module _ {S : Type 0} (loop : Ptr) where
  nothing-Frames : {A : Type 0} (a : A) → Frames {S = S} loop (pure a)
  nothing-Frames a u k w v l = returns (u, v)

  nothing-FramesAt : {A : Type 0} (a : A) (p : Ptr) → FramesAt {S = S} loop p (pure a)
  nothing-FramesAt a p u k w v l lp = returns (u, v)

  nothing-FramesFree : FramesFree {S = S} loop skip
  nothing-FramesFree u k w v l = returns ((u, v), λ p e s. refl)

  accepted : (p : Ptr) → FramesStart {S = S} loop p (pure success)
  accepted p u k w v l lp n = returns ((u, v), λ e. absurd (cc))

  refused : (p : Ptr) → FramesStart {S = S} loop p (pure failure)
  refused p u k w v l lp n = returns ((u, v), λ e. (n, refl))

  pub quiet-IsTame : IsTame {S = S} loop quiet
  quiet-IsTame = record {
    free = λ f x. nothing-FramesFree;
    callback = λ f p. nothing-FramesAt tt p;
    add_fd = accepted;
    del_fd = nothing-FramesAt success;
    mod_fd = λ f e. absurd (cc);
    add_fd_again = nothing-FramesAt success;
    add_signal = refused;
    del_signal = nothing-FramesAt success;
    enqueue = accepted;
    set_deadline = λ d. nothing-Frames success;
    interrupt = λ c e. absurd (cc);
    write = λ fd. nothing-Frames tt;
  }

-- Every callback stops its own object.
abbrev pub stopping : {S : Type 0} → Env S
stopping = record quiet { call_cb = λ f p. discard (aml_stop quiet p) }

module _ {S : Type 0} (loop : Ptr) where
  pub stopping-IsTame : IsTame {S = S} loop stopping
  stopping-IsTame = record {
    free = q.free;
    callback = λ f p u k w v l lp.
        Safe.bind (aml_stop-Kept quiet q u k w p v l (ground (arith, v.core.balance p)))
          λ _ _ kept. returns kept;
    add_fd = q.add_fd;
    del_fd = q.del_fd;
    mod_fd = λ f e. absurd (cc);
    add_fd_again = q.add_fd_again;
    add_signal = q.add_signal;
    del_signal = q.del_signal;
    enqueue = q.enqueue;
    set_deadline = q.set_deadline;
    interrupt = λ c e. absurd (cc);
    write = q.write;
  }
    where
      q : IsTame {S = S} loop quiet
      q = quiet-IsTame loop
