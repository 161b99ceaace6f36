-- ===== src/ThreadPool/Job.antt =====
-- What a worker of src/thread-pool.c does with one job: the body of the loop in `worker_fn`, and the
-- part of `enqueue_work` that takes references.
use aml.Base.{Option, none, some}
use aml.World.{Ptr, Fn, Cmd, pure, skip, ◌>>=◌, ◌>>◌}
use aml.World.Env.{Env}
use aml.Object.{aml_get_work_fn}
use aml.Ref.{aml_ref, aml_weak_ref_new, aml_weak_ref_del, aml_weak_ref_read}
use aml.Queue.{aml_emit}
use aml.Unref.{aml_unref, discard}
use aml.Registry.{aml_interrupt}

module _ {S : Type 0} where
  -- The references of a job: to the work, and a weak one to the loop. `fresh` is what `calloc` returns
  -- for the weak one.
  unfoldable pub enqueue_refs : Option Ptr → (self work : Ptr) → Cmd S (Option Ptr)
  enqueue_refs fresh self work = do aml_ref work; aml_weak_ref_new fresh self

  abbrev pub call_work : (Fn → Ptr → Cmd S (Unit {0})) → Option Fn → Ptr → Cmd S (Unit {0})
  call_work run none p = skip
  call_work run (some f) p = run f p

  abbrev pub read_loop : Option Ptr → Cmd S (Option Ptr)
  read_loop none = pure none
  read_loop (some r) = aml_weak_ref_read r

  -- `if (aml)`
  abbrev pub report : Env S → Ptr → Option Ptr → Cmd S (Unit {0})
  report env p none = skip
  report env p (some self) = do aml_emit p 0; aml_interrupt env; discard (aml_unref env self)

  -- `run` calls the work function.
  unfoldable pub run_job :
      Env S → (run : Fn → Ptr → Cmd S (Unit {0})) → (ref : Option Ptr) → Ptr → Cmd S (Unit {0})
  run_job env run ref p = do
    cb ← aml_get_work_fn p
    call_work run cb p
    self ← read_loop ref
    report env p self
    aml_weak_ref_del ref
    discard (aml_unref env p)
