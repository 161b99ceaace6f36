-- ===== src/Inv/Calls.antt =====
-- Calls that a backend makes on what it reads of an object, and that change nothing of src/aml.c: what
-- the tables of src/epoll.c and src/kqueue.c have in common.
use aml.Base.{Option, none, some, ◌≡◌, arith}
use aml.World.{Ptr, Obj, World, Cmd, Rc, ◌>>=◌, load}
use aml.World.Outside.{Outside, call-Safe}
use aml.Inv.{Kept, Frames, FramesAt}
use aml.Inv.Step.{set_state-Inv}
use aml.Inv.Refs.{find}
use aml.Inv.Tame.{FramesStart}

abbrev pub or_else : {A : Type 0} → Option A → A → A
or_else none d = d
or_else (some a) d = a

-- The command that makes the call `c` on the object at `p`.
abbrev pub CallsOn : {S : Type 0} → Ptr → (Obj → Cmd S Rc) → Cmd S Rc → Type 0
CallsOn {S} p c d = (w : World S) (o : Obj) → w.objs p ≡ some o → d w ≡ c o w

module _ {S : Type 0} {loop : Ptr} where
  pub call-Frames : {A : Type 0} {c : Cmd S A} → Outside c → Frames loop c
  call-Frames out u k w v l = call-Safe (λ _ w'. Kept loop k w') w out λ a x. (u, set_state-Inv x v)

  module _ {c : Obj → Cmd S Rc} {d : Cmd S Rc} (p : Ptr) (calls : CallsOn p c d)
      (out : (o : Obj) → Outside (c o)) where
    pub CallsOn-Frames : FramesAt loop p d
    CallsOn-Frames u k w v l lp =
        let (o, at) = find {p = p} v.core (ground (arith, v.core.balance p)) in
        rw (calls w o at)
          (call-Safe (λ _ w'. Kept loop k w') w (out o) λ a x. (u, set_state-Inv x v))

    pub CallsOn-FramesStart : FramesStart loop p d
    CallsOn-FramesStart u k w v l lp listed =
        let (o, at) = find {p = p} v.core (ground (arith, v.core.balance p)) in
        rw (calls w o at)
          (call-Safe _ w (out o) λ a x. ((u, set_state-Inv x v), λ e. (listed, ground arith)))

pub load_call-CallsOn :
    {S : Type 0} (c : Obj → Cmd S Rc) (p : Ptr) → CallsOn p c (do o ← load p; c o)
load_call-CallsOn c p w o at = rw (at, load)
