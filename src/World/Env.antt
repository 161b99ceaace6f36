-- ===== src/World/Env.antt =====
-- What lies outside aml.c: `struct aml_backend` of include/backend.h, the user's callbacks and free
-- functions, the clock and `write` of one byte. A null function pointer is `none`.
use aml.Base.{ℕ, Option}
use aml.Base.Int.{ℤ}
use aml.World.{Ptr, Fn, World, Cmd, Rc}

pub record Backend (S : Type 0) : Type 0 where
  pub flags : ℕ
  pub del_state : Cmd S (Unit {0})
  pub get_fd : Option (Cmd S ℕ)
  pub poll : ℤ → Cmd S ℤ
  pub exit : Option (Cmd S (Unit {0}))
  pub add_fd : Ptr → Cmd S Rc
  pub mod_fd : Option (Ptr → Cmd S Rc)
  pub del_fd : Ptr → Cmd S Rc
  pub add_signal : Ptr → Cmd S Rc
  pub del_signal : Ptr → Cmd S Rc
  pub set_deadline : ℕ → Cmd S Rc
  pub post_dispatch : Option (Cmd S (Unit {0}))
  pub interrupt : Option (Cmd S (Unit {0}))
  pub thread_pool_acquire : ℤ → Cmd S Rc
  pub thread_pool_release : Cmd S (Unit {0})
  pub thread_pool_enqueue : Ptr → Cmd S Rc

pub record Env (S : Type 0) : Type 0 where
  pub backend : Backend S
  pub call_cb : Fn → Ptr → Cmd S (Unit {0})
  pub call_free : Fn → Ptr → Cmd S (Unit {0})
  pub clock_sec : World S → ℕ
  pub clock_nsec : World S → ℕ
  pub write : (fd : ℕ) → Cmd S (Unit {0})
