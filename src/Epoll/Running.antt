-- ===== src/Epoll/Running.antt =====
-- The loop of src/aml.c on the backend of src/epoll.c but for signals.
use aml.Base.{ap, ℕ, ◌<◌, ◌≡◌, ◌∙◌, count, true, Option, none, some, List, [], ◌∷◌, arith, refl}
use aml.Base.Int.{ℤ, pos}
use aml.World.{Ptr, World, ok}
use aml.World.Env.{Env}
use aml.World.Safe
use aml.World.Safe.{Safe, Partial, returns}
use aml.World.Outside.{Outside, set_state, call-Safe}
use aml.Dispatch.{aml_run}
use aml.Resources.{Calls}
use aml.Epoll.{EpollBits, EpollEvent, Kernel, aml_events, epoll_emit_event, emit_events, epoll_poll}
use aml.Epoll.State.{EpollState}
use aml.Epoll.Backend.{Registers, epoll_descriptors, with_descriptors, epoll_descriptors-IsTame}
use aml.Inv.{Held, ◌⊕◌, Inv, Kept, Frames}
use aml.Inv.Step.{set_state-Inv}
use aml.Inv.Events.{aml_emit-Listed}
use aml.Inv.Running.{IsRunning, aml_run-Exited}

-- The object of an event is started; the timer's event has none.
abbrev pub AllRegistered : {S : Type 0} → World S → List EpollEvent → Type 0
AllRegistered w [] = Unit {0}
AllRegistered w (e ∷ es) =
    ((p : Ptr) → e.ptr ≡ some p → 0 < count p w.obj_list) × AllRegistered w es

-- What the kernel keeps to: it changes nothing of the store of aml.c, and reports what is started.
pub record IsEpoll {S : Type 0} (kernel : Kernel S) : Type 0 where
  pub registers : Registers kernel
  pub read_timer : Outside kernel.read_timer
  pub wait :
      (t : ℤ) (w : World S)
      → (n : ℤ) × (es : List EpollEvent) × (x : S) × (kernel.epoll_wait t w
          ≡ ok (n, es) (set_state x w))
        × AllRegistered w es

-- The invariant holds, and the started objects are those of `w`.
abbrev Listed : {S : Type 0} → Ptr → Held → World S → World S → Type 0
Listed loop held w w' = Inv loop held w' × (w'.obj_list ≡ w.obj_list)

module _ {S : Type 0} {kernel : Kernel S} (is : IsEpoll kernel) {loop : Ptr} {held : Held} where
  emit_event-Listed :
      (bits : EpollBits) (ptr : Option Ptr) (w w1 : World S)
      → Inv loop held w1
      → w1.obj_list ≡ w.obj_list
      → ((p : Ptr) → ptr ≡ some p → 0 < count p w.obj_list)
      → Safe
          (λ _. Listed loop held w)
          (epoll_emit_event kernel (record { events = bits; ptr = ptr }) w1)
  unfolding epoll_emit_event
  emit_event-Listed bits none w w1 v same r =
      call-Safe (λ _. Listed loop held w) w1 is.read_timer λ _ x. (set_state-Inv x v, same)
  emit_event-Listed bits (some p) w w1 v same r =
      let here : count p w1.obj_list ≡ count p w.obj_list = ap (count p) same in
      Safe.mono
        (aml_emit-Listed v p (aml_events bits) (ground (arith, v.core.balance p, here, r p refl)))
        λ _ w2 (v2, same2). (v2, same2 ∙ same)

  emit_events-Listed :
      (es : List EpollEvent) (w w1 : World S)
      → Inv loop held w1
      → w1.obj_list ≡ w.obj_list
      → AllRegistered w es
      → Safe (λ _. Listed loop held w) (emit_events kernel es w1)
  unfolding emit_events
  emit_events-Listed [] w w1 v same r = returns (v, same)
  emit_events-Listed (e ∷ es) w w1 v same r =
      Safe.bind (emit_event-Listed e.events e.ptr w w1 v same r.0)
        λ _ w2 (v2, same2). emit_events-Listed es w w2 v2 same2 r.1

module _ {S : Type 0} {kernel : Kernel S} (is : IsEpoll kernel) {loop : Ptr} where
  epoll_poll-Frames : (timeout : ℤ) → Frames loop (epoll_poll kernel timeout)
  unfolding epoll_poll
  epoll_poll-Frames timeout u k w v l =
      let (n, es, x, e, registered) = is.wait timeout w in
      rw e (
        Safe.bind (emit_events-Listed is es w (set_state x w) (set_state-Inv x v) refl registered)
          λ _ w2 (v2, _). returns (u, v2))

  module _ (calls : Calls S) (self : EpollState) {env : Env S} (rest : IsRunning loop env) where
    epoll_descriptors-IsRunning : IsRunning loop (with_descriptors calls kernel self env)
    unfolding epoll_descriptors
    epoll_descriptors-IsRunning = record {
      tame = epoll_descriptors-IsTame calls kernel self is.registers rest.tame;
      idle = rest.idle;
      poll = epoll_poll-Frames;
      post_dispatch = λ c e. absurd (cc);
      clock = rest.clock;
    }

    -- With the poll call and the operations on descriptors and deadlines of src/epoll.c, and
    -- with other operations on signals in place of epoll_add_signal and epoll_del_signal, from
    -- a store that satisfies the invariant and in which the caller holds the loop, aml_run with
    -- any fuel never faults: it returns 0 with do_exit set and the invariant and the references
    -- of the caller kept, or a reference count would pass INT_MAX, or the fuel runs out, if
    -- epoll_ctl(), epoll_wait(), timerfd_settime() and read() change nothing of the store of
    -- aml.c, epoll_wait() reports only objects that are started and the timer, the environment
    -- that these operations are put into, its operations on signals, the user code and the
    -- thread pool in it, returns and gives up only references of its own, the callback of an
    -- idle object, called while the object is on the idle list, takes nothing off that list but
    -- its own object, with what it starts in front, and the clock stays below UINT64_MAX.
    pub aml_run-epoll_descriptors :
        (fuel : ℕ) (u k : Held) (w : World S)
        → Inv loop (u ⊕ k) w
        → 0 < k loop
        → Partial
            (λ res w'. (res ≡ pos 0) × (w'.do_exit ≡ true) × Kept loop k w')
            (aml_run (with_descriptors calls kernel self env) fuel w)
    aml_run-epoll_descriptors fuel u k w v l =
        aml_run-Exited _ epoll_descriptors-IsRunning fuel u k w v l
