-- ===== src/Kqueue/Running.antt =====
-- The loop of src/aml.c on the backend of src/kqueue.c.
use aml.Base.{ap, ℕ, ◌<◌, ◌≡◌, ◌∙◌, count, true, List, [], ◌∷◌, arith, refl}
use aml.Base.Int.{ℤ, pos}
use aml.World.{Ptr, World, Cmd, Rc, ok}
use aml.World.Env.{Env}
use aml.World.Safe
use aml.World.Safe.{Safe, Partial, returns}
use aml.Object.{event_read}
use aml.Posix.{event_write}
use aml.Queue.{aml_emit}
use aml.Dispatch.{aml_run}
use aml.Resources.{Calls}
use aml.Kqueue.{Kevent}
use aml.Kqueue.State.{KqState}
use aml.Kqueue.Poll.{
  Kernel, Change, Source, Timeout, evfilt_read, evfilt_write, evfilt_signal, evfilt_timer,
  timespec_of, kq_emit_event, kq_emit_events, kq_poll,
}
use aml.Kqueue.Backend.{kq_implementation, with_implementation, kq_implementation-IsTame}
use aml.Inv.{Held, ◌⊕◌, Inv, Kept, Frames}
use aml.World.Outside.{Outside, set_state}
use aml.Inv.Step.{set_state-Inv}
use aml.Inv.Events.{aml_emit-Listed}
use aml.Inv.Running.{IsRunning, aml_run-Exited}

-- The object of an event is started, and the timer is the one that was set.
abbrev pub IsRegistered : {S : Type 0} → World S → Source → Type 0
IsRegistered w (evfilt_timer ident) = ident ≡ 0
IsRegistered w (evfilt_read p) = 0 < count p w.obj_list
IsRegistered w (evfilt_write p) = 0 < count p w.obj_list
IsRegistered w (evfilt_signal p) = 0 < count p w.obj_list

abbrev pub AllRegistered : {S : Type 0} → World S → List Source → Type 0
AllRegistered w [] = Unit {0}
AllRegistered w (e ∷ es) = IsRegistered w e × AllRegistered w es

-- What the kernel keeps to: it changes nothing of the store of aml.c, and reports what is started.
pub record IsKqueue {S : Type 0} (kevent : List Kevent → Cmd S Rc) (kernel : Kernel S)
    : Type 0 where
  pub descriptors : (ks : List Kevent) → Outside (kevent ks)
  pub changes : (c : Change) → Outside (kernel.kevent c)
  pub wait :
      (t : Timeout) (w : World S)
      → (n : ℤ) × (es : List Source) × (x : S) × (kernel.kevent_wait t w
          ≡ ok (n, es) (set_state x w))
        × AllRegistered w es

-- The invariant holds, and the started objects are those of `w`.
abbrev Listed : {S : Type 0} → Ptr → Held → World S → World S → Type 0
Listed loop held w w' = Inv loop held w' × (w'.obj_list ≡ w.obj_list)

module _ {S : Type 0} (kernel : Kernel S) {loop : Ptr} {held : Held} where
  emit_event-Listed :
      (e : Source) (w w1 : World S)
      → Inv loop held w1
      → w1.obj_list ≡ w.obj_list
      → IsRegistered w e
      → Safe (λ _. Listed loop held w) (kq_emit_event kernel e w1)
  unfolding kq_emit_event
  emit_event-Listed e w w1 v same r = by_kind e r
    where
      emitted :
          (p : Ptr) (revents : ℕ)
          → 0 < count p w.obj_list
          → Safe (λ _. Listed loop held w) (aml_emit p revents w1)
      emitted p revents started =
          let here : count p w1.obj_list ≡ count p w.obj_list = ap (count p) same in
          Safe.mono (aml_emit-Listed v p revents (ground (arith, v.core.balance p, here)))
            λ _ w2 (v2, same2). (v2, same2 ∙ same)

      by_kind :
          (e : Source)
          → IsRegistered w e
          → Safe (λ _. Listed loop held w) (kq_emit_event kernel e w1)
      by_kind (evfilt_read p) r = emitted p event_read r
      by_kind (evfilt_write p) r = emitted p event_write r
      by_kind (evfilt_signal p) r = emitted p 0 r
      by_kind (evfilt_timer i) r = rw r (returns (v, same))

  emit_events-Listed :
      (es : List Source) (w w1 : World S)
      → Inv loop held w1
      → w1.obj_list ≡ w.obj_list
      → AllRegistered w es
      → Safe (λ _. Listed loop held w) (kq_emit_events kernel es w1)
  unfolding kq_emit_events
  emit_events-Listed [] w w1 v same r = returns (v, same)
  emit_events-Listed (e ∷ es) w w1 v same r =
      Safe.bind (emit_event-Listed e w w1 v same r.0)
        λ _ w2 (v2, same2). emit_events-Listed es w w2 v2 same2 r.1

module _ {S : Type 0} {kevent : List Kevent → Cmd S Rc} {kernel : Kernel S}
    (is : IsKqueue kevent kernel) {loop : Ptr} where
  kq_poll-Frames : (timeout : ℤ) → Frames loop (kq_poll kernel timeout)
  unfolding kq_poll
  kq_poll-Frames timeout u k w v l =
      let (n, es, x, e, registered) = is.wait (timespec_of timeout) w in
      rw e (
        Safe.bind
          (emit_events-Listed kernel es w (set_state x w) (set_state-Inv x v) refl registered)
          λ _ w2 (v2, _). returns (u, v2))

  module _ (calls : Calls S) (self : KqState) {env : Env S} (rest : IsRunning loop env) where
    kq_implementation-IsRunning : IsRunning loop (with_implementation calls kevent kernel self env)
    unfolding kq_implementation
    kq_implementation-IsRunning = record {
      tame = kq_implementation-IsTame calls kevent kernel self is.descriptors is.changes rest.tame;
      idle = rest.idle;
      poll = kq_poll-Frames;
      post_dispatch = λ c e. absurd (cc);
      clock = rest.clock;
    }

    -- With the backend of src/kqueue.c, from a store that satisfies the invariant and in which
    -- the caller holds the loop, aml_run with any fuel never faults, the assertions of
    -- aml_dispatch and kq_emit_event included: it returns 0 with do_exit set and the invariant
    -- and the references of the caller kept, or a reference count would pass INT_MAX, or the
    -- fuel runs out, if kevent() changes nothing of the store of aml.c and reports only objects
    -- that are started and the timer that was set, the environment that the backend is put
    -- into, the user code and the thread pool in it, returns and gives up only references of
    -- its own, the callback of an idle object, called while the object is on the idle list,
    -- takes nothing off that list but its own object, with what it starts in front, and the
    -- clock stays below UINT64_MAX.
    pub aml_run-kq_implementation :
        (fuel : ℕ) (u k : Held) (w : World S)
        → Inv loop (u ⊕ k) w
        → 0 < k loop
        → Partial
            (λ res w'. (res ≡ pos 0) × (w'.do_exit ≡ true) × Kept loop k w')
            (aml_run (with_implementation calls kevent kernel self env) fuel w)
    aml_run-kq_implementation fuel u k w v l =
        aml_run-Exited _ kq_implementation-IsRunning fuel u k w v l
