-- ===== src/Tests/Threads.antt =====
-- The threads of src/posix.c and a job of src/thread-pool.c.
use aml.Base.{◌≡◌, ◌≢◌, some, true, false, arith, refl}
use aml.Base.Int.{pos}
use aml.World.{skip}
use aml.World.Safe.{Safe, returns}
use aml.Posix.Poller.{
  Threads, running, parked, dispatching, started, Reach, here, next, poll_returns, flag, publish,
  leave, take, give_up, post_dispatch,
}
use aml.Posix.Handshake.{Continues, Reach-dispatching_Exclusive, Reach-Continues}
use aml.World.Keeps.{Keeps}
use aml.Registry.{aml_interrupt}
use aml.ThreadPool.Job.{run_job}
use aml.ThreadPool.Done.{run_job-Kept}
use aml.Inv.{Kept}
use aml.Tests.Quiet.{S, quiet, quiet-IsTame}
use aml.Tests.Store.{world, nobody}
use aml.Tests.Safety.{but_handler, world_grabbed}

-- Two descriptors are ready.
abbrev in_dispatch : Threads
in_dispatch = record {
  nfds = pos 0;
  waiting_for_dispatch = true;
  poller = parked;
  main = dispatching (pos 2);
}

in_dispatch-Reach : Reach true started in_dispatch
in_dispatch-Reach =
    let two : pos 2 ≢ pos 0 = λ e. cc in
    next
      (next (next (next here (poll_returns (pos 2) two refl)) (flag (pos 2) refl))
        (publish (pos 2) refl))
      (take refl two)

Reach-dispatching_Exclusive_example :
    (in_dispatch.poller ≡ parked)
    × (in_dispatch.waiting_for_dispatch ≡ true)
    × (in_dispatch.nfds ≡ pos 0)
    × (pos 2 ≢ pos 0)
Reach-dispatching_Exclusive_example =
    Reach-dispatching_Exclusive in_dispatch (pos 2) in_dispatch-Reach refl

Reach-Continues_example : Continues in_dispatch
Reach-Continues_example = Reach-Continues in_dispatch in_dispatch-Reach

-- With a timeout of 0 the poller thread can run during the dispatch of what it found: the loop gives
-- up between `flag` and `publish`, and its `posix_post_dispatch` comes too early.
abbrev overlapping : Threads
overlapping = record {
  nfds = pos 0;
  waiting_for_dispatch = false;
  poller = running;
  main = dispatching (pos 2);
}

overlapping-Reach : Reach false started overlapping
overlapping-Reach =
    let two : pos 2 ≢ pos 0 = λ e. cc in
    let asked = next (next here (poll_returns (pos 2) two refl)) (flag (pos 2) refl) in
    let passed_by = next (next asked (give_up refl refl)) (post_dispatch (pos 0) refl) in
    let left = next (next passed_by (publish (pos 2) refl)) (leave refl refl) in
    next left (take refl two)

quiet-Keeps : Keeps {S = S} 11 (aml_interrupt quiet)
unfolding aml_interrupt
quiet-Keeps = record { keeps = λ w. refl }

run_job-Kept_example :
    Safe (λ _. Kept 1 but_handler) (run_job quiet (λ f p. skip) (some 11) 4 world)
run_job-Kept_example =
    run_job-Kept quiet (λ f p. skip) (quiet-IsTame 1) 11 4 (λ f u k w v l lp. returns (u, v))
      (λ f. record { keeps = λ w. refl }) quiet-Keeps nobody but_handler world world_grabbed
      (omega arith) refl
