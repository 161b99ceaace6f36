-- ===== src/Tests/Running.antt =====
-- The loop of src/aml.c as a whole at the store of `Tests.Store`.
use aml.Base.{List, ◌≡◌, true, none, some, [], ◌∷◌, ◌==◌, if◌then◌else◌, arith, refl, inl}
use aml.Resources.{Calls}
use aml.Kqueue.State.{KqState}
use aml.Kqueue.Poll.{Kernel, Source, evfilt_read}
use aml.Kqueue.Backend.{with_implementation}
use aml.Kqueue.Running.{AllRegistered, IsKqueue, aml_run-kq_implementation}
use aml.Base.Int.{pos}
use aml.World.{Ptr, World, idle, success, skip, pure, get}
use aml.Object.{new_obj}
use aml.World.Safe.{Safe, Partial, returns}
use aml.Dispatch.{handle_idle, aml_dispatch, aml_run}
use aml.Inv.{Held, ◌⊕◌, Inv, Kept}
use aml.Inv.Idle.{StopsOnlyItself, handle_idle-Kept}
use aml.Inv.Running.{IsRunning, Exited, aml_dispatch-Kept, aml_run-Exited}
use aml.Tests.Quiet.{S, quiet, quiet-IsTame}
use aml.Tests.Store.{world, nobody, user}

quiet-StopsOnlyItself : StopsOnlyItself {S = S} 1 quiet
quiet-StopsOnlyItself f p o u k w v l at e listed = returns ((u, v), ([], inl refl))

-- The store with an idle object at 5 that is started.
abbrev pub idle_world : World S
idle_world = record world {
  objs = λ p.
      if p == 5 then some (record (new_obj idle (some 74) 0 none) { ref = 2 }) else world.objs p;
  obj_list = 5 ∷ 3 ∷ 2 ∷ [];
  idle_list = 5 ∷ [];
}

abbrev pub idle_user : Held
idle_user p = if p == 5 then 1 else user p

pub idle_world-Inv : Inv 1 (nobody ⊕ idle_user) idle_world
idle_world-Inv = record {
  core = record {
    this = refl;
    balance = λ p. ground arith;
    queued = λ p. ground arith;
    fits = λ p. ground arith;
    once = λ p. ground arith;
    typed = λ p o e. ground arith;
    one_loop = λ p e. ground arith;
    is_loop = refl;
    linked = λ p r n. ground arith;
    linking = λ p r e. ground arith;
  };
  timers = λ p. ground arith;
  idles = λ p. ground arith;
}

handle_idle-Kept_example : Safe (λ _. Kept 1 idle_user) (handle_idle quiet 2 idle_world)
handle_idle-Kept_example =
    handle_idle-Kept quiet quiet-StopsOnlyItself 2 nobody idle_user idle_world idle_world-Inv
      (omega arith) (omega arith)

pub quiet-IsRunning : IsRunning {S = S} 1 quiet
quiet-IsRunning = record {
  tame = quiet-IsTame 1;
  idle = quiet-StopsOnlyItself;
  poll = λ t u k w v l. returns (u, v);
  post_dispatch = λ c e. absurd (cc);
  clock = λ w. omega arith;
}

aml_dispatch-Kept_example : Partial (λ _. Kept 1 idle_user) (aml_dispatch quiet 5 idle_world)
aml_dispatch-Kept_example =
    aml_dispatch-Kept quiet quiet-IsRunning 5 nobody idle_user idle_world idle_world-Inv
      (omega arith)

aml_run-Exited_example :
    Partial (Exited quiet quiet-IsRunning idle_user) (aml_run quiet 5 idle_world)
aml_run-Exited_example =
    aml_run-Exited quiet quiet-IsRunning 5 nobody idle_user idle_world idle_world-Inv (omega arith)

abbrev pub calls : Calls S
calls = record {
  calloc = pure none;
  malloc = λ size. pure none;
  free = λ p. skip;
  close = λ fd. skip;
}

-- The object that was started last is readable.
abbrev ready : List Ptr → List Source
ready [] = []
ready (p ∷ ps) = evfilt_read p ∷ []

abbrev kernel : Kernel S
kernel = record {
  kevent = λ c. pure success;
  kevent_wait = λ t. get λ w. (pos 1, ready w.obj_list);
}

ready-AllRegistered : (w : World S) (ps : List Ptr) → w.obj_list ≡ ps → AllRegistered w (ready ps)
ready-AllRegistered w [] e = tt
ready-AllRegistered w (p ∷ ps) e = (rw e (ground arith), tt)

kernel-IsKqueue : IsKqueue (λ ks. pure success) kernel
kernel-IsKqueue = record {
  descriptors = λ ks w. (success, w.state, refl);
  changes = λ c w. (success, w.state, refl);
  wait = λ t w. (pos 1, ready w.obj_list, w.state, refl, ready-AllRegistered w w.obj_list refl);
}

abbrev kq_state : KqState
kq_state = record { addr = 50; aml = 1; fd = 8 }

aml_run-kq_implementation_example :
    Partial
      (λ res w'. (res ≡ pos 0) × (w'.do_exit ≡ true) × Kept 1 idle_user w')
      (aml_run (with_implementation calls (λ ks. pure success) kernel kq_state quiet) 5 idle_world)
aml_run-kq_implementation_example =
    aml_run-kq_implementation kernel-IsKqueue calls kq_state quiet-IsRunning 5 nobody idle_user
      idle_world idle_world-Inv (omega arith)
