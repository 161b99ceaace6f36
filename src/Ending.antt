-- ===== src/Ending.antt =====
-- The end of a loop in src/aml.c: the last `aml_unref` of a `struct aml`, and `aml__free`.
pub mod Ledger
pub mod Unref
pub mod Stops
pub mod Objects
pub mod Events
pub mod Loop
use aml.World.{Ptr, Fn}
use aml.World.Env.{Env}
use aml.World.Outside.{Outside}

-- The backend's operations that `aml__free` calls, and the free functions, leave the store of aml.c
-- alone.
pub record IsOutside {S : Type 0} (env : Env S) : Type 0 where
  pub free : (f : Fn) (x : Ptr) → Outside (env.call_free f x)
  pub del_fd : (p : Ptr) → Outside (env.backend.del_fd p)
  pub del_signal : (p : Ptr) → Outside (env.backend.del_signal p)
  pub thread_pool_release : Outside env.backend.thread_pool_release
  pub del_state : Outside env.backend.del_state
