-- ===== src/Epoll.antt =====
-- The event masks, the deadline and the poll call of src/epoll.c. The kernel is a parameter:
-- `epoll_ctl` and `epoll_wait`, `read` of the timer's descriptor and `timerfd_settime`.
pub mod Masks
pub mod Signals
pub mod Delivery
pub mod State
pub mod Backend
pub mod Running
pub mod Adding
use aml.Base.{ℕ, ◌*◌, ◌/◌, ◌%◌, ◌^◌, Bool, false, Option, none, some, List, [], ◌∷◌}
use aml.Base.Int.{ℤ}
use aml.World.{Ptr, Cmd, Rc, pure, skip, ◌>>=◌, ◌>>◌, load}
use aml.Object.{event_read}
use aml.Queue.{aml_emit}
use aml.Posix.{is_set, add_if, event_write}

abbrev pub event_oob : ℕ
event_oob = 4

-- The bits EPOLLIN, EPOLLOUT and EPOLLPRI of an event mask.
pub record EpollBits : Type 0 where
  pub epollin : Bool
  pub epollout : Bool
  pub epollpri : Bool

-- `struct epoll_event`; the timer's has no pointer.
pub record EpollEvent : Type 0 where
  pub events : EpollBits
  pub ptr : Option Ptr

pub data CtlOp : Type 0 where
  ctl_add ctl_mod ctl_del : CtlOp

pub record Kernel (S : Type 0) : Type 0 where
  pub epoll_ctl : CtlOp → ℕ → EpollEvent → Cmd S Rc
  pub epoll_wait : ℤ → Cmd S (ℤ × List EpollEvent)
  pub read_timer : Cmd S (Unit {0})
  pub timerfd_settime : (sec nsec : ℕ) → Cmd S Rc

-- The `aml_events` of `epoll_emit_event`.
unfoldable pub aml_events : EpollBits → ℕ
aml_events e =
    add_if e.epollpri event_oob (add_if e.epollout event_write (add_if e.epollin event_read 0))

-- The `events` of `epoll_event_from_aml_handler`.
unfoldable pub epoll_events : ℕ → EpollBits
epoll_events mask = record {
  epollin = is_set mask event_read;
  epollout = is_set mask event_write;
  epollpri = is_set mask event_oob;
}

-- The `it_value` of `epoll_set_deadline`: the casts to `uint32_t` are written out.
unfoldable pub deadline_sec : ℕ → ℕ
deadline_sec deadline = deadline / 1000000 % 2 ^ 32

unfoldable pub deadline_nsec : ℕ → ℕ
deadline_nsec deadline = deadline % 1000000 * 1000 % 2 ^ 32

module _ {S : Type 0} (kernel : Kernel S) where
  unfoldable pub epoll_emit_event : EpollEvent → Cmd S (Unit {0})
  unfolding aml_events
  epoll_emit_event event = elim event.ptr [
    | none ↦ kernel.read_timer
    | some p ↦ aml_emit p (aml_events event.events)
  ]

  -- `for (int i = 0; i < nfds; ++i)`
  unfoldable pub emit_events : List EpollEvent → Cmd S (Unit {0})
  emit_events [] = skip
  emit_events (event ∷ rest) = do epoll_emit_event event; emit_events rest

  unfoldable pub epoll_poll : ℤ → Cmd S ℤ
  unfolding emit_events
  epoll_poll timeout = do (nfds, events) ← kernel.epoll_wait timeout; emit_events events; pure nfds

  unfoldable pub epoll_event_from_aml_handler : Ptr → Cmd S EpollEvent
  unfolding epoll_events
  epoll_event_from_aml_handler p = do
    o ← load p
    pure (record { events = epoll_events o.event_mask; ptr = some p })

  abbrev pub ctl : CtlOp → Ptr → Cmd S Rc
  ctl op p = do event ← epoll_event_from_aml_handler p; o ← load p; kernel.epoll_ctl op o.fd event

  unfoldable pub epoll_add_fd : Ptr → Cmd S Rc
  unfolding epoll_event_from_aml_handler
  epoll_add_fd p = ctl ctl_add p

  unfoldable pub epoll_mod_fd : Ptr → Cmd S Rc
  unfolding epoll_event_from_aml_handler
  epoll_mod_fd p = ctl ctl_mod p

  -- The event is a dummy.
  unfoldable pub epoll_del_fd : Ptr → Cmd S Rc
  epoll_del_fd p = do
    o ← load p
    kernel.epoll_ctl ctl_del o.fd (record {
      events = record { epollin = false; epollout = false; epollpri = false };
      ptr = none;
    })

  unfoldable pub epoll_set_deadline : ℕ → Cmd S Rc
  unfolding deadline_sec deadline_nsec
  epoll_set_deadline deadline =
      kernel.timerfd_settime (deadline_sec deadline) (deadline_nsec deadline)
