-- ===== src/Kqueue/Poll.antt =====
-- The poll call, the signals and the deadline of src/kqueue.c. `kevent` is a parameter, as a call that
-- changes one filter and as a call that waits.
use aml.Base.{
  ℕ, ◌+◌, ◌-◌, ◌*◌, ◌/◌, ◌%◌, ◌^◌, ◌≡◌, ◌<◌, ◌==◌, ltb, Option, none, some, List, [], ◌∷◌,
  if◌then◌else◌, arith, refl,
}
use aml.Base.Int.{ℤ, pos, negsuc}
use aml.World.{Ptr, World, Cmd, Rc, pure, skip, fail, ◌>>=◌, ◌>>◌, load}
use aml.World.Safe
use aml.World.Safe.{Safe, returns}
use aml.Object.{event_read}
use aml.Queue.{aml_emit}
use aml.Posix.{event_write}
use aml.Inv.{Held, Inv}
use aml.Inv.Events.{aml_emit-Inv}

-- What an event is about; `evfilt_timer` with its identifier.
pub data Source : Type 0 where
  evfilt_read evfilt_write evfilt_signal : (udata : Ptr) → Source
  evfilt_timer : (ident : ℕ) → Source

-- The changes to signals and timers that EV_SET fills in.
pub data Change : Type 0 where
  add_signal : (signo : ℕ) (udata : Ptr) → Change
  delete_signal : (signo : ℕ) → Change
  one_shot_at : (useconds : ℕ) → Change  -- NOTE_ABSTIME
  one_shot_in : (useconds : ℕ) → Change

-- `struct timespec`, or NULL to wait for ever.
abbrev pub Timeout : Type 0
Timeout = Option (ℕ × ℕ)

pub record Kernel (S : Type 0) : Type 0 where
  pub kevent : Change → Cmd S Rc
  pub kevent_wait : Timeout → Cmd S (ℤ × List Source)

-- The `ts` of `kq_poll` and the test that chooses NULL.
unfoldable pub timespec_of : ℤ → Timeout
timespec_of (pos timeout) = some (timeout / 1000, timeout % 1000 * 1000000)
timespec_of (negsuc n) = none

-- Where `clock_gettime` is used: what remains until the deadline.
unfoldable pub relative_deadline : (deadline current_time : ℕ) → ℕ
relative_deadline deadline current_time =
    if ltb current_time deadline then deadline - current_time else 0

module _ {S : Type 0} (kernel : Kernel S) where
  unfoldable pub kq_emit_event : Source → Cmd S (Unit {0})
  kq_emit_event (evfilt_read p) = aml_emit p event_read
  kq_emit_event (evfilt_write p) = aml_emit p event_write
  kq_emit_event (evfilt_signal p) = aml_emit p 0
  kq_emit_event (evfilt_timer ident) = if ident == 0 then skip else fail

  -- `for (int i = 0; i < nfds; ++i)`
  unfoldable pub kq_emit_events : List Source → Cmd S (Unit {0})
  kq_emit_events [] = skip
  kq_emit_events (e ∷ es) = do kq_emit_event e; kq_emit_events es

  unfoldable pub kq_poll : ℤ → Cmd S ℤ
  unfolding kq_emit_events timespec_of
  kq_poll timeout = do
    (nfds, events) ← kernel.kevent_wait (timespec_of timeout)
    kq_emit_events events
    pure nfds

  -- The signal is blocked by `pthread_sigmask`, whatever `kevent` returns.
  unfoldable pub kq_add_signal : Ptr → Cmd S Rc
  kq_add_signal p = do o ← load p; kernel.kevent (add_signal o.signo p)

  unfoldable pub kq_del_signal : Ptr → Cmd S Rc
  kq_del_signal p = do o ← load p; kernel.kevent (delete_signal o.signo)

  unfoldable pub kq_set_deadline : ℕ → Cmd S Rc
  kq_set_deadline deadline = kernel.kevent (one_shot_at deadline)

  -- The same under `__MACH__`, where the clock reads `sec` and `nsec`.
  unfoldable pub kq_set_deadline_mach : (sec nsec deadline : ℕ) → Cmd S Rc
  unfolding relative_deadline
  kq_set_deadline_mach sec nsec deadline =
      kernel.kevent
        (one_shot_in (relative_deadline deadline ((sec * 1000000 + nsec / 1000) % 2 ^ 64)))

-- The object of an event is held, and the timer is the one that was set.
abbrev pub IsExpected : Held → Source → Type 0
IsExpected held (evfilt_timer ident) = ident ≡ 0
IsExpected held (evfilt_read p) = 0 < held p
IsExpected held (evfilt_write p) = 0 < held p
IsExpected held (evfilt_signal p) = 0 < held p

abbrev pub AllExpected : Held → List Source → Type 0
AllExpected held [] = Unit {0}
AllExpected held (e ∷ es) = IsExpected held e × AllExpected held es

-- The kernel reports only what is registered, and leaves the store alone.
abbrev pub Reports : {S : Type 0} → Ptr → Held → Kernel S → Type 0
Reports loop held kernel =
    (t : Timeout) (w : World _)
    → Inv loop held w
    → Safe (λ r w'. Inv loop held w' × AllExpected held r.1) (kernel.kevent_wait t w)

module _ {S : Type 0} (kernel : Kernel S) {loop : Ptr} {held : Held} where
  emitted-Inv :
      (p : Ptr) (revents : ℕ) (w : World S)
      → Inv loop held w
      → 0 < held p
      → Safe (λ _. Inv loop held) (aml_emit p revents w)
  emitted-Inv p revents w v h = aml_emit-Inv v p revents (ground (arith, v.core.balance p))

  emit_event-Inv :
      (e : Source) (w : World S)
      → Inv loop held w
      → IsExpected held e
      → Safe (λ _. Inv loop held) (kq_emit_event kernel e w)
  unfolding kq_emit_event
  emit_event-Inv (evfilt_read p) w v h = emitted-Inv p event_read w v h
  emit_event-Inv (evfilt_write p) w v h = emitted-Inv p event_write w v h
  emit_event-Inv (evfilt_signal p) w v h = emitted-Inv p 0 w v h
  emit_event-Inv (evfilt_timer i) w v h = rw h (returns v)

  emit_events-Inv :
      (es : List Source) (w : World S)
      → Inv loop held w
      → AllExpected held es
      → Safe (λ _. Inv loop held) (kq_emit_events kernel es w)
  unfolding kq_emit_events
  emit_events-Inv [] w v h = returns v
  emit_events-Inv (e ∷ es) w v h =
      Safe.bind (emit_event-Inv e w v h.0) λ _ w' v'. emit_events-Inv es w' v' h.1

  -- From a store that satisfies the invariant, if kevent() reports only held objects and the timer
  -- that was set, and leaves the invariant alone, kq_poll never faults, its assertion included, and
  -- unless a reference count would pass INT_MAX the invariant is kept.
  kq_poll-Inv :
      Reports loop held kernel
      → (timeout : ℤ) (w : World S) → Inv loop held w
      → Safe (λ _. Inv loop held) (kq_poll kernel timeout w)
  unfolding kq_poll
  kq_poll-Inv reports timeout w v =
      Safe.bind (reports (timespec_of timeout) w v)
        λ r w' (v', h). Safe.bind (emit_events-Inv r.1 w' v' h) λ _ w'' v''. returns v''

-- The timespec stands for the timeout to the millisecond, and its nanosecond part is valid.
pub timespec_of_bounds :
    (timeout : ℕ)
    → (ts : ℕ × ℕ) × (timespec_of (pos timeout) ≡ some ts)
      × (ts.0 * 1000 + ts.1 / 1000000 ≡ timeout)
      × (ts.1 < 1000000000)
unfolding timespec_of
timespec_of_bounds timeout =
    ((timeout / 1000, timeout % 1000 * 1000000), refl, omega arith, omega arith)
