-- ===== src/Epoll/Delivery.antt =====
-- What the signals of src/epoll.c leave behind: delivery, release, and the failures of
-- `epoll_add_signal`.
use mathlib.Core.Path.{subst}
use aml.Base.{sym, ℕ, ◌≡◌, ◌<◌, Option, none, some, [], ◌-◌, arith, refl, test_refl}
use aml.World.{Ptr, Fn, Obj, handler, World, Cmd, ok, fault, load, put}
use aml.World.Env.{Env}
use aml.World.Safe
use aml.World.Safe.{Safe, returns, IfOk, bind-IfOk, IfOk-any}
use aml.Ref.{aml_weak_ref_del}
use aml.Object.{aml_get_userdata}
use aml.Inv.Unref.{unref_with_last}
use aml.Inv.Refs.{with_ref}
use aml.Unref.{clear_weak_refs, aml_unref, release, free_object, free_kind}
use aml.Epoll.Signals.{
  EpollSignal, Contexts, SignalCalls, emit_signal, epoll_signal_cleanup, epoll_on_signal,
  start_failure, handler_failure, load_context,
}
use aml.Inv.{Held, ◌⊕◌, Inv, Kept}
use aml.Inv.Step.{Inv-held}
use aml.Inv.Events.{aml_emit-Inv}
use aml.Inv.Unref.{aml_unref-Kept}
use aml.Inv.WeakRefs.{Read, aml_weak_ref_read-Read}
use aml.Inv.Tame.{IsTame}

module _ (calls : SignalCalls) (env : Env Contexts) {loop : Ptr} (tame : IsTame loop env)
    (u k : Held) (w : World Contexts) (v : Inv loop (u ⊕ k) w) (l : 0 < k loop) where
  emit_signal-Kept :
      (r : Ptr) (target : Option Ptr) (w' : World Contexts)
      → Read v r target w'
      → Safe (λ _. Kept loop k) (emit_signal calls env target w')
  emit_signal-Kept r none w' same = returns (u, subst (Inv loop (u ⊕ k)) (sym same) v)
  emit_signal-Kept r (some p) w' (v', live) =
      Safe.bind (aml_emit-Inv v' p 0 (ground (arith, v'.core.balance p))) λ _ w1 v1.
        Safe.bind (aml_unref-Kept env tame.free u k w1 p (Inv-held (λ q. omega arith) v1) l)
          λ _ w2 (kept, _). returns kept

  -- From a store that satisfies the invariant, while the caller holds the loop, epoll_on_signal of
  -- a handler whose context has an allocated weak reference never faults, whether the signal object
  -- still lives or not, if read() leaves the store alone: unless a reference count would pass
  -- INT_MAX the invariant and the references of the caller are kept, provided that the backend and
  -- the user code return and give up only references of their own.
  pub epoll_on_signal-Kept :
      (h c r : Ptr) (o : Obj) (ctx : EpollSignal) (target : Option Ptr)
      → w.objs h ≡ some o
      → o.userdata ≡ c
      → w.state c ≡ some ctx
      → ctx.ref ≡ some r
      → w.weak r ≡ some target
      → calls.read ctx.fd w ≡ ok tt w
      → Safe (λ _. Kept loop k) (epoll_on_signal calls env h w)
  unfolding epoll_on_signal aml_get_userdata
  epoll_on_signal-Kept h c r o ctx target at data_is here ref_is leads reads =
      rw (at, load, data_is, here, load_context, reads, ref_is)
        (Safe.bind (aml_weak_ref_read-Read v r target leads)
          λ sig w' (e, read). rw e (emit_signal-Kept r target w' read))

module _ (calls : SignalCalls) where
  cleanup_frees :
      (c : Ptr) (w : World Contexts)
      → IfOk (λ _ w'. w'.state c ≡ none) (epoll_signal_cleanup calls c w)
  unfolding epoll_signal_cleanup
  cleanup_frees c w = bind-IfOk any freed (load_context c w) _ (IfOk-any _) λ ctx w1 _.
      bind-IfOk any freed (calls.close ctx.fd w1) _ (IfOk-any _) λ _ w2 _.
        bind-IfOk any freed (aml_weak_ref_del ctx.ref w2) _ (IfOk-any _)
          λ _ w3 _. rw (test_refl c) refl
    where
      any : {A : Type 0} → A → World Contexts → Type 0
      any a w' = Unit {0}

      freed : Unit {0} → World Contexts → Type 0
      freed a w' = w'.state c ≡ none

  module _ (env : Env Contexts) (cleanup : Fn) (c h : Ptr)
      (linked : env.call_free cleanup c ≡ epoll_signal_cleanup calls c) where
    free_object-frees :
        (w : World Contexts) (o : Obj)
        → w.objs h ≡ some o
        → o.free_fn ≡ some cleanup
        → o.userdata ≡ c
        → IfOk (λ _ w'. w'.state c ≡ none) (free_object env h w)
    unfolding free_object
    free_object-frees w o at fn data_is =
        rw (at, load, fn, data_is, linked)
          (bind-IfOk (λ _ w'. w'.state c ≡ none) (λ _ w'. w'.state c ≡ none)
            (epoll_signal_cleanup calls c w) _ (cleanup_frees c w) λ _ w' freed. freed)

    release-frees :
        (f : Ptr → Cmd Contexts ℕ) (w : World Contexts) (o : Obj)
        → w.objs h ≡ some o
        → o.kind ≡ handler
        → o.weak_refs ≡ []
        → o.free_fn ≡ some cleanup
        → o.userdata ≡ c
        → IfOk (λ _ w'. w'.state c ≡ none) (release env f h w)
    unfolding release clear_weak_refs free_kind
    release-frees f w o at kind no_weak fn data_is =
        rw (at, load, no_weak, kind) (free_object-frees w o at fn data_is)

    handler_failure-faults :
        (w : World Contexts) → w.state c ≡ none → handler_failure calls env c w ≡ fault
    unfolding handler_failure
    handler_failure-faults w freed = rw (freed, load_context)

    -- Where aml_start has failed in epoll_add_signal and the new handler has its one reference, no
    -- weak references and the callbacks and context that it was made with, the label start_failure
    -- never returns: the context is freed with the handler, and then read and freed again.
    pub start_failure-faults :
        (w : World Contexts) (o : Obj)
        → w.objs h ≡ some o
        → o.kind ≡ handler
        → o.ref ≡ 1
        → o.weak_refs ≡ []
        → o.free_fn ≡ some cleanup
        → o.userdata ≡ c
        → IfOk (λ _ _. ⊥) (start_failure calls env c h w)
    unfolding start_failure aml_unref
    start_failure-faults w o at kind one no_weak fn data_is =
        let o' : Obj = with_ref o (o.ref - 1) in
        let w1 : World Contexts = put h o' w in
        let at' : w1.objs h ≡ some o' = ground arith in
        rw (unref_with_last env w h o _ at one) (
          bind-IfOk (λ _ w'. w'.state c ≡ none) (λ _ _. ⊥) _ _
            (bind-IfOk (λ _ w'. w'.state c ≡ none) (λ _ w'. w'.state c ≡ none) _ _
              (release-frees _ w1 o' at' kind no_weak fn data_is) λ _ w' freed. freed)
            λ _ w' freed. rw (handler_failure-faults w' freed) tt)
