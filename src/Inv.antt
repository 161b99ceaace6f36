-- ===== src/Inv.antt =====
-- The invariant of the store: every reference is accounted for, and the lists agree with the objects.
pub mod Step
pub mod Refs
pub mod Weak
pub mod Unref
pub mod WeakRefs
pub mod Alloc
pub mod Events
pub mod Dequeue
pub mod Agenda
pub mod Timeouts
pub mod Firing
pub mod Ticks
pub mod Tame
pub mod Calls
pub mod Stopping
pub mod Listed
pub mod Starting
pub mod Handling
pub mod NewLoop
pub mod Idle
pub mod Running
pub mod Draining
pub mod Returning
use aml.Base.{ℕ, ◌+◌, ◌≤◌, ◌<◌, ◌≡◌, ◌≢◌, some, ◌==◌, if◌then◌else◌, count, is_some, true}
use aml.World.{Ptr, unspec, main_loop, Obj, World, Cmd, int_limit}
use aml.World.Views.{refs, events, weaks, kind_at}
use aml.World.Safe.{Safe}
use aml.Object.{is_timer, is_idle}

-- How many references to each object are held outside the loop's own lists.
abbrev pub Held : Type 0
Held = Ptr → ℕ

infixl 65 ◌⊕◌
abbrev pub ◌⊕◌ : Held → Held → Held
◌⊕◌ u k p = u p + k p

-- One reference to `p` more.
abbrev pub grab : Ptr → Held → Held
grab p k q = k q + (if p == q then 1 else 0)

-- `loop` is the address of the `struct aml`.
pub record Core {S : Type 0} (loop : Ptr) (held : Held) (w : World S) : Type 0 where
  pub this : w.self ≡ loop
  pub balance : (p : Ptr) → refs w p ≡ held p + count p w.obj_list + events w p
  pub queued : (p : Ptr) → count p w.event_queue ≡ (if events w p == 0 then 0 else 1)
  pub fits : (p : Ptr) → refs w p < int_limit
  pub once : (p : Ptr) → count p w.obj_list ≤ 1
  pub typed : (p : Ptr) (o : Obj) → w.objs p ≡ some o → o.kind ≢ unspec
  pub one_loop : (p : Ptr) → kind_at w p ≡ main_loop → p ≡ loop
  pub is_loop : kind_at w loop ≡ main_loop
  pub linked : (p r : Ptr) → 0 < count r (weaks w p) → w.weak r ≡ some (some p)
  pub linking : (p r : Ptr) → w.weak r ≡ some (some p) → count r (weaks w p) ≡ 1

pub record Inv {S : Type 0} (loop : Ptr) (held : Held) (w : World S) : Type 0 where
  pub core : Core loop held w
  pub timers :
      (p : Ptr) → count p w.timer_list ≡ (if is_timer (kind_at w p) then count p w.obj_list else 0)
  pub idles :
      (p : Ptr) → count p w.idle_list ≡ (if is_idle (kind_at w p) then count p w.obj_list else 0)

module _ {S : Type 0} (loop : Ptr) (k : Held) (w : World S) where
  -- The references `k` are still there; the rest may have changed.
  abbrev pub Kept : Type 0
  Kept = (u : Held) × Inv loop (u ⊕ k) w

-- What the loop asks of a call that leaves aml.c: it gives back only references that it holds
-- itself, `u`, and never the others, `k`, with one on the loop among them.
abbrev pub Frames : {S A : Type 0} → Ptr → Cmd S A → Type 0
Frames loop c =
    (u k : Held) (w : World _) → Inv loop (u ⊕ k) w → 0 < k loop → Safe (λ _. Kept loop k) (c w)

-- The same while a reference to `p` is kept.
abbrev pub FramesAt : {S A : Type 0} → Ptr → Ptr → Cmd S A → Type 0
FramesAt loop p c =
    (u k : Held) (w : World _)
    → Inv loop (u ⊕ k) w
    → 0 < k loop
    → 0 < k p
    → Safe (λ _. Kept loop k) (c w)

-- What it asks of a free function besides: the object that is being freed is left alone.
abbrev pub FramesFree : {S : Type 0} → Ptr → Cmd S (Unit {0}) → Type 0
FramesFree loop c =
    (u k : Held) (w : World _)
    → Inv loop (u ⊕ k) w
    → 0 < k loop
    → Safe
        (λ _ w'.
          Kept loop k w'
          × ((p : Ptr) → refs w p ≡ 0 → is_some (w.objs p) ≡ true → w'.objs p ≡ w.objs p))
        (c w)
