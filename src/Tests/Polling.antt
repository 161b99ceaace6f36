-- ===== src/Tests/Polling.antt =====
-- The loop of src/aml.c on src/epoll.c at the store of `Tests.Store`.
use aml.Base.{List, ◌≡◌, true, false, none, some, [], ◌∷◌, arith, refl}
use aml.Base.Int.{pos}
use aml.World.{Ptr, World, success, skip, pure, get}
use aml.World.Safe.{Partial}
use aml.Dispatch.{aml_run}
use aml.Epoll.{EpollEvent, Kernel}
use aml.Epoll.State.{EpollState}
use aml.Epoll.Backend.{with_descriptors}
use aml.Epoll.Running.{AllRegistered, IsEpoll, aml_run-epoll_descriptors}
use aml.Inv.{Kept}
use aml.Tests.Quiet.{S, quiet}
use aml.Tests.Store.{nobody}
use aml.Tests.Running.{calls, idle_world, idle_user, idle_world-Inv, quiet-IsRunning}

-- The timer, and the object that was started last.
abbrev ready : List Ptr → List EpollEvent
ready [] = []
ready (p ∷ ps) =
    record { events = record { epollin = false; epollout = true; epollpri = false }; ptr = some p }
    ∷ record { events = record { epollin = true; epollout = false; epollpri = false }; ptr = none }
    ∷ []

abbrev kernel : Kernel S
kernel = record {
  epoll_ctl = λ op fd e. pure success;
  epoll_wait = λ t. get λ w. (pos 2, ready w.obj_list);
  read_timer = skip;
  timerfd_settime = λ s n. pure success;
}

ready-AllRegistered : (w : World S) (ps : List Ptr) → w.obj_list ≡ ps → AllRegistered w (ready ps)
ready-AllRegistered w [] e = tt
ready-AllRegistered w (p ∷ ps) e = ((λ q here. ground (arith, e)), ((λ q here. cc), tt))

kernel-IsEpoll : IsEpoll kernel
kernel-IsEpoll = record {
  registers = record {
    epoll_ctl = λ op fd e w. (success, w.state, refl);
    timerfd_settime = λ s n w. (success, w.state, refl);
  };
  read_timer = λ w. (tt, w.state, refl);
  wait = λ t w. (pos 2, ready w.obj_list, w.state, refl, ready-AllRegistered w w.obj_list refl);
}

abbrev epoll_state : EpollState
epoll_state = record { addr = 50; aml = 1; epoll_fd = 8; timer_fd = 9 }

aml_run-epoll_descriptors_example :
    Partial
      (λ res w'. (res ≡ pos 0) × (w'.do_exit ≡ true) × Kept 1 idle_user w')
      (aml_run (with_descriptors calls kernel epoll_state quiet) 5 idle_world)
aml_run-epoll_descriptors_example =
    aml_run-epoll_descriptors kernel-IsEpoll calls epoll_state quiet-IsRunning 5 nobody idle_user
      idle_world idle_world-Inv (omega arith)
