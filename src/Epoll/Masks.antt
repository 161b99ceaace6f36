-- ===== src/Epoll/Masks.antt =====
-- Masks and deadlines of src/epoll.c there and back, and the invariant across a poll.
use aml.Base.{
  ℕ, zero, suc, ◌+◌, ◌*◌, ◌/◌, ◌^◌, ◌≡◌, ◌<◌, Bool, true, false, Option, none, some, List, [], ◌∷◌,
  arith, refl,
}
use aml.Base.Int.{ℤ}
use aml.World.{Ptr, World}
use aml.World.Safe
use aml.World.Safe.{Safe, returns}
use aml.Epoll.{
  EpollBits, EpollEvent, Kernel, aml_events, epoll_events, deadline_sec, deadline_nsec,
  epoll_emit_event, emit_events, epoll_poll,
}
use aml.Inv.{Held, Inv}
use aml.Inv.Events.{aml_emit-Inv}

-- A mask of READ, WRITE and OOB that is handed to epoll and reported back by it is the same, and so
-- is a set of EPOLLIN, EPOLLOUT and EPOLLPRI that goes the other way.
aml_events-epoll_events :
    ((mask : ℕ) → mask < 8 → aml_events (epoll_events mask) ≡ mask)
    × ((e : EpollBits) → epoll_events (aml_events e) ≡ e)
unfolding aml_events epoll_events
aml_events-epoll_events = (masks, λ e. bits e.epollin e.epollout e.epollpri)
  where
    masks : (mask : ℕ) → mask < 8 → aml_events (epoll_events mask) ≡ mask
    masks zero h = refl
    masks (suc zero) h = refl
    masks (suc (suc zero)) h = refl
    masks (suc (suc (suc zero))) h = refl
    masks (suc (suc (suc (suc zero)))) h = refl
    masks (suc (suc (suc (suc (suc zero))))) h = refl
    masks (suc (suc (suc (suc (suc (suc zero)))))) h = refl
    masks (suc (suc (suc (suc (suc (suc (suc zero))))))) h = refl
    masks (suc (suc (suc (suc (suc (suc (suc (suc n)))))))) h = absurd (omega arith)

    bits :
        (a b c : Bool)
        → epoll_events (aml_events (record { epollin = a; epollout = b; epollpri = c }))
          ≡ record { epollin = a; epollout = b; epollpri = c }
    bits true true true = refl
    bits true true false = refl
    bits true false true = refl
    bits true false false = refl
    bits false true true = refl
    bits false true false = refl
    bits false false true = refl
    bits false false false = refl

-- For a deadline below 2^32 seconds, the seconds and nanoseconds that epoll_set_deadline computes
-- stand for the deadline to the microsecond, and the nanoseconds are below 10^9.
pub deadline-split :
    (deadline : ℕ)
    → deadline < 2 ^ 32 * 1000000
    → (deadline_sec deadline * 1000000 + deadline_nsec deadline / 1000 ≡ deadline)
      × (deadline_nsec deadline < 1000000000)
unfolding deadline_sec deadline_nsec
deadline-split deadline h = (omega arith, omega arith)

-- The objects that the events point to are held.
abbrev pub AllHeld : Held → List EpollEvent → Type 0
AllHeld held [] = Unit {0}
AllHeld held (e ∷ es) = ((p : Ptr) → e.ptr ≡ some p → 0 < held p) × AllHeld held es

-- What the kernel keeps to: it reports events of objects that are registered, and their registration
-- is held; it does not touch the store.
pub record IsSound {S : Type 0} (loop : Ptr) (held : Held) (kernel : Kernel S) : Type 0 where
  pub reports :
      (timeout : ℤ) (w : World S)
      → Inv loop held w
      → Safe (λ r w'. Inv loop held w' × AllHeld held r.1) (kernel.epoll_wait timeout w)
  pub reads : (w : World S) → Inv loop held w → Safe (λ _. Inv loop held) (kernel.read_timer w)

module _ {S : Type 0} (kernel : Kernel S) {loop : Ptr} {held : Held}
    (sound : IsSound loop held kernel) where
  emit_event-Inv :
      (bits : EpollBits) (ptr : Option Ptr) (w : World S)
      → Inv loop held w
      → ((p : Ptr) → ptr ≡ some p → 0 < held p)
      → Safe (λ _. Inv loop held) (epoll_emit_event kernel (record { events = bits; ptr = ptr }) w)
  unfolding epoll_emit_event
  emit_event-Inv bits none w v live = sound.reads w v
  emit_event-Inv bits (some p) w v live =
      aml_emit-Inv v p (aml_events bits) (ground (arith, v.core.balance p, live p refl))

  emit_events-Inv :
      (es : List EpollEvent) (w : World S)
      → Inv loop held w
      → AllHeld held es
      → Safe (λ _. Inv loop held) (emit_events kernel es w)
  unfolding emit_events
  emit_events-Inv [] w v live = returns v
  emit_events-Inv (e ∷ es) w v live =
      Safe.bind (emit_event-Inv e.events e.ptr w v live.0)
        λ _ w' v'. emit_events-Inv es w' v' live.1

  -- From a store that satisfies the invariant, if the kernel reports only objects that are held and
  -- leaves the invariant alone, epoll_poll never faults, and unless a reference count would pass
  -- INT_MAX the invariant is kept with its events emitted.
  pub epoll_poll-Inv :
      (timeout : ℤ) (w : World S)
      → Inv loop held w
      → Safe (λ _. Inv loop held) (epoll_poll kernel timeout w)
  unfolding epoll_poll
  epoll_poll-Inv timeout w v =
      Safe.bind (sound.reports timeout w v)
        λ r w' (v', live). Safe.bind (emit_events-Inv r.1 w' v' live) λ _ w'' v''. returns v''
