-- ===== src/Inv/Tame.antt =====
-- What src/aml.c asks of the backend and of user code: they return, and give back only references
-- that they hold.
use aml.Base.{ℕ, ◌<◌, ◌≡◌, some, count}
use aml.World.{Ptr, Fn, World, Cmd, Rc, failure}
use aml.World.Env.{Env}
use aml.World.Views.{kind_at}
use aml.World.Safe
use aml.World.Safe.{Safe, returns}
use aml.Unref.{discard}
use aml.Inv.{Held, ◌⊕◌, Inv, Kept, Frames, FramesAt, FramesFree}

-- A backend call that starts `p`: where it fails, `p` is on the list of started objects as before.
abbrev pub FramesStart : {S : Type 0} → Ptr → Ptr → Cmd S Rc → Type 0
FramesStart loop p c =
    (u k : Held) (w : World _)
    → Inv loop (u ⊕ k) w
    → 0 < k loop
    → 0 < k p
    → 0 < count p w.obj_list
    → Safe
        (λ rc w'.
          Kept loop k w'
          × (rc ≡ failure → (0 < count p w'.obj_list) × (kind_at w' p ≡ kind_at w p)))
        (c w)

pub record IsTame {S : Type 0} (loop : Ptr) (env : Env S) : Type 0 where
  pub free : (f : Fn) (x : Ptr) → FramesFree loop (env.call_free f x)
  pub callback : (f : Fn) (p : Ptr) → FramesAt loop p (env.call_cb f p)
  pub add_fd : (p : Ptr) → FramesStart loop p (env.backend.add_fd p)
  pub del_fd : (p : Ptr) → FramesAt loop p (env.backend.del_fd p)
  pub mod_fd :
      (f : Ptr → Cmd S Rc) → env.backend.mod_fd ≡ some f → (p : Ptr) → FramesAt loop p (f p)
  pub add_fd_again : (p : Ptr) → FramesAt loop p (env.backend.add_fd p)
  pub add_signal : (p : Ptr) → FramesStart loop p (env.backend.add_signal p)
  pub del_signal : (p : Ptr) → FramesAt loop p (env.backend.del_signal p)
  pub enqueue : (p : Ptr) → FramesStart loop p (env.backend.thread_pool_enqueue p)
  pub set_deadline : (d : ℕ) → Frames loop (env.backend.set_deadline d)
  pub interrupt : (c : Cmd S (Unit {0})) → env.backend.interrupt ≡ some c → Frames loop c
  pub write : (fd : ℕ) → Frames loop (env.write fd)

module _ {S A : Type 0} {loop : Ptr} {c : Cmd S A} where
  pub discard-Frames : Frames loop c → Frames loop (discard c)
  discard-Frames f u k w v l = Safe.bind (f u k w v l) λ _ _ kept. returns kept

  pub discard-FramesAt : {p : Ptr} → FramesAt loop p c → FramesAt loop p (discard c)
  discard-FramesAt f u k w v l lp = Safe.bind (f u k w v l lp) λ _ _ kept. returns kept
