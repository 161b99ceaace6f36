-- ===== src/Client/Calls.antt =====
-- Programs against include/aml.h and the invariant.
use mathlib.Core.Path.{fun_ext, subst}
use aml.Base.{
  ◌≢◌, sym, ap, ℕ, zero, suc, ◌+◌, ◌≡◌, ◌<◌, ◌&&◌, ◌==◌, Option, none, some, List, [], ◌∷◌, count,
  arith, refl, if◌then◌else◌, Bool, true, false, has, is_some,
}
use aml.World.{timer, ticker, Ptr, Fn, Obj, World, Cmd, load, when, put}
use aml.World.Env.{Env}
use aml.World.Safe
use aml.World.Safe.{Safe, returns}
use aml.Object.{
  is_timer, alloc, aml_handler_new, aml_timer_new, aml_ticker_new, new_obj, aml_signal_new,
  aml_work_new, aml_idle_new, aml_set_userdata, aml_set_duration,
}
use aml.World.Keeps.{with_IfOk}
use aml.World.Views.{kind_at}
use aml.Unref.{discard}
use aml.Stop.{or_skip}
use aml.Registry.{aml_stop, aml_is_started}
use aml.Dispatch.{aml_set_event_mask, aml_exit, mod_fd}
use aml.Client.{
  Var, lent, own, Call, handler_new, timer_new, ticker_new, signal_new, work_new, idle_new, ref,
  start, stop, unref, set_event_mask, set_duration, set_userdata, interrupt, exit, get_elem?, pick,
  put_back, lookup, on, made, take_ref, give_up, run_call, Rule, Follows, run_calls,
}
use aml.Inv.{Held, grab, ◌⊕◌, Inv, Kept, Frames, FramesAt}
use aml.Inv.Step.{Inv-held, put-Inv}
use aml.Inv.Refs.{find, aml_ref-Inv}
use aml.Inv.Alloc.{IsNew, Fresh, alloc-Inv}
use aml.Inv.Unref.{aml_unref-Kept}
use aml.Inv.Stopping.{aml_stop-Kept}
use aml.Inv.Starting.{aml_start-Kept, aml_interrupt-Frames}
use aml.Inv.Handling.{mod_fd-Kept}
use aml.Inv.Running.{do_exit-Inv}
use aml.Inv.Tame.{IsTame, discard-FramesAt}

-- The references of the client.
abbrev pub owned : List Ptr → Held
owned owns p = count p owns

-- Nothing but NULL where `calloc` fails, and a free address elsewhere.
abbrev pub IsCalloc : {S : Type 0} → (World S → Option Ptr) → Type 0
IsCalloc calloc = (w : World _) → Fresh w (calloc w)

get_elem?-count : (l : List Ptr) (i : ℕ) (p : Ptr) → get_elem? l i ≡ some p → 0 < count p l
get_elem?-count [] i p e = absurd (cc)
get_elem?-count (q ∷ l) zero p e = ground arith
get_elem?-count (q ∷ l) (suc i) p e = ground (arith, get_elem?-count l i p e)

pick-count :
    (l : List Ptr) (i : ℕ) (p : Ptr) (rest : List Ptr)
    → pick l i ≡ some (p, rest)
    → (q : Ptr) → count q l ≡ count q rest + (if p == q then 1 else 0)
pick-count [] i p rest e q = absurd (cc)
pick-count (r ∷ l) zero p rest e q = ground arith
pick-count (r ∷ l) (suc i) p rest e q = by_rest (pick l i) (λ s ss e'. pick-count l i s ss e' q) e
  where
    by_rest :
        (o : Option (Ptr × List Ptr))
        → ((s : Ptr) (ss : List Ptr)
            → o ≡ some (s, ss)
            → count q l ≡ count q ss + (if s == q then 1 else 0))
        → put_back r o ≡ some (p, rest)
        → count q (r ∷ l) ≡ count q rest + (if p == q then 1 else 0)
    by_rest none again e' = absurd (cc)
    by_rest (some (s, ss)) again e' = ground (arith, again s ss refl)

-- The lent objects are held by the caller.
abbrev pub Lends : Held → List Ptr → Type 0
Lends k lents = (p : Ptr) → 0 < count p lents → 0 < k p

-- What the client leaves: the references of its caller, and those of its own.
abbrev pub KeptWith : {S : Type 0} → Ptr → Held → List Ptr → World S → Type 0
KeptWith loop k owns w = Kept loop (owned owns ⊕ k) w

put_twice : {S : Type 0} (p : Ptr) (a b : Obj) (w : World S) → put p b (put p a w) ≡ put p b w
put_twice p a b w = ap (λ f. record w { objs = f }) (fun_ext λ q. ground arith)

module _ {S : Type 0} {loop : Ptr} (k : Held) where
  created-Client :
      (owns : List Ptr) (u : Held) (w : World S) (fresh : Option Ptr) (o : Obj)
      → Inv loop (u ⊕ (owned owns ⊕ k)) w
      → Fresh w fresh
      → IsNew o
      → Safe (KeptWith loop k) (made owns (alloc fresh o) w)
  created-Client owns u w none o v free new = returns (u, v)
  created-Client owns u w (some p) o v free new =
      returns (u, Inv-held (λ q. omega arith) (alloc-Inv v p (free p refl) o new))

  take_ref-Client :
      (owns : List Ptr) (u : Held) (w : World S) (p : Option Ptr)
      → Inv loop (u ⊕ (owned owns ⊕ k)) w
      → ((q : Ptr) → p ≡ some q → 0 < count q owns + k q)
      → Safe (KeptWith loop k) (take_ref p owns w)
  take_ref-Client owns u w none v live = returns (u, v)
  take_ref-Client owns u w (some p) v live =
      let (o, at) = find {p = p} v.core (ground (arith, v.core.balance p, live p refl)) in
      Safe.bind (aml_ref-Inv v at) λ _ w' (n, e, v'). returns (u, Inv-held (λ q. ground arith) v')

  -- A call on an object that is held.
  on-Client :
      (owns : List Ptr) (c : Ptr → Cmd S (Unit {0})) (u : Held) (w : World S) (p : Option Ptr)
      → Inv loop (u ⊕ (owned owns ⊕ k)) w
      → ((q : Ptr) → p ≡ some q → Safe (λ _. Kept loop (owned owns ⊕ k)) (c q w))
      → Safe (KeptWith loop k) (on p c owns w)
  on-Client owns c u w none v safe = returns (u, v)
  on-Client owns c u w (some p) v safe = Safe.bind (safe p refl) λ _ w' kept. returns kept

  -- aml_ticker_new makes a timer and turns it into a ticker.
  ticker-Client :
      (owns : List Ptr) (u : Held) (w : World S) (fresh : Option Ptr) (n : ℕ) (cb : Option Fn)
      (x : Ptr) (f : Option Fn)
      → Inv loop (u ⊕ (owned owns ⊕ k)) w
      → Fresh w fresh
      → fresh ≢ none
      → Safe (KeptWith loop k) (made owns (aml_ticker_new fresh n cb x f) w)
  unfolding aml_ticker_new aml_timer_new
  ticker-Client owns u w none n cb x f v free memory = absurd (memory refl)
  ticker-Client owns u w (some p) n cb x f v free memory =
      let header = new_obj timer cb x f in
      let t : Obj = record header { timeout = n } in
      let o : Obj = record t { kind = ticker } in
      let new : Inv loop (grab p (u ⊕ (owned owns ⊕ k))) (put p o w) =
        alloc-Inv v p (free p refl) o (record {
          plain = λ e. cc;
          typed = λ e. cc;
          ref = refl;
          n_events = refl;
          weak_refs = refl;
        }) in
      let here : (put p t w).objs p ≡ some t = ground arith in
      rw (here, load)
        (returns (
          u,
          Inv-held (λ q. omega arith)
              (subst (λ z. Inv loop (grab p (u ⊕ (owned owns ⊕ k))) z) (sym (put_twice p t o w))
                new),
        ))

lookup-live :
    {k : Held} (lents owns : List Ptr)
    → Lends k lents
    → (x : Var) (q : Ptr) → lookup lents owns x ≡ some q
    → 0 < count q owns + k q
lookup-live lents owns lends (lent i) q e = omega (arith, lends q (get_elem?-count lents i q e))
lookup-live lents owns lends (own i) q e = omega (arith, get_elem?-count owns i q e)

module _ {S : Type 0} {loop : Ptr} where
  set_duration-Kept :
      (n : ℕ) (p : Ptr) (u k : Held) (w : World S)
      → Inv loop (u ⊕ k) w
      → 0 < k p
      → is_timer (kind_at w p) ≡ true
      → Safe (λ _. Kept loop k) (aml_set_duration p n w)
  unfolding aml_set_duration
  set_duration-Kept n p u k w v lp is =
      let (o, at) = find {p = p} v.core (ground (arith, v.core.balance p)) in
      let timed : is_timer o.kind ≡ true = ground arith in
      rw (at, load, timed)
        (returns (
          u,
          put-Inv v at _ (record { kind = refl; weak_refs = refl; ref = refl; n_events = refl }),
        ))

  set_userdata-Frames :
      (x : Ptr) (f : Option Fn) (p : Ptr) → FramesAt {S = S} loop p (aml_set_userdata p x f)
  unfolding aml_set_userdata
  set_userdata-Frames x f p u k w v l lp =
      let (o, at) = find {p = p} v.core (ground (arith, v.core.balance p)) in
      rw (at, load)
        (returns (
          u,
          put-Inv v at _ (record { kind = refl; weak_refs = refl; ref = refl; n_events = refl }),
        ))

module _ {S : Type 0} (env : Env S) {loop : Ptr} (tame : IsTame loop env) where
  stop-Frames : (p : Ptr) → FramesAt loop p (discard (aml_stop env p))
  stop-Frames p u k w v l lp =
      Safe.bind (aml_stop-Kept env tame u k w p v l (ground (arith, v.core.balance p)))
        λ _ _ kept. returns kept

  rearmed : (b : Bool) (p : Ptr) → FramesAt loop p (when b (discard (mod_fd env p)))
  rearmed false p u k w v l lp = returns (u, v)
  rearmed true p u k w v l lp = discard-FramesAt (mod_fd-Kept env tame p) u k w v l lp

  -- From a store that satisfies the invariant, aml_set_event_mask of an object that the caller holds
  -- along with the loop never faults, started or not: unless a reference count would pass INT_MAX the
  -- invariant and the references of the caller are kept.
  pub aml_set_event_mask-Kept :
      (mask : ℕ) (p : Ptr) → FramesAt loop p (aml_set_event_mask env p mask)
  unfolding aml_set_event_mask aml_is_started
  aml_set_event_mask-Kept mask p u k w v l lp =
      let (o, at) = find {p = p} v.core (ground (arith, v.core.balance p)) in
      let o' : Obj = record o { event_mask = mask } in
      rw (at, load)
        (rearmed (is_some o.parent && has p w.obj_list) p u k (put p o' w)
          (put-Inv v at o' (record { kind = refl; weak_refs = refl; ref = refl; n_events = refl }))
          l lp)

  module _ (ends : (c : Cmd S (Unit {0})) → env.backend.exit ≡ some c → Frames loop c) where
    aml_exit-Frames : Frames loop (aml_exit env)
    unfolding aml_exit
    aml_exit-Frames u k w v l = by_backend env.backend.exit refl
      where
        by_backend :
            (c : Option (Cmd S (Unit {0})))
            → env.backend.exit ≡ c
            → Safe (λ _. Kept loop k) (or_skip c (record w { do_exit = true }))
        by_backend none e = returns (u, do_exit-Inv v)
        by_backend (some c) e = ends c e u k _ (do_exit-Inv v) l

    give_up-Client :
        (k : Held) (owns : List Ptr) (i : ℕ) (u : Held) (w : World S)
        → Inv loop (u ⊕ (owned owns ⊕ k)) w
        → 0 < k loop
        → (picked : Option (Ptr × List Ptr)) → pick owns i ≡ picked
        → Safe (KeptWith loop k) (give_up env picked owns w)
    give_up-Client k owns i u w v l none e = returns (u, v)
    give_up-Client k owns i u w v l (some (p, rest)) e =
        Safe.bind
          (aml_unref-Kept env tame.free u (owned rest ⊕ k) w p
            (Inv-held (λ q. omega (arith, pick-count owns i p rest e q)) v) (omega arith))
          λ _ w' (kept, _). returns kept

    module _ (calloc : World S → Option Ptr) (free : IsCalloc calloc) (k : Held) (l : 0 < k loop)
        (lents : List Ptr) (lends : Lends k lents) where
      held_call :
          (os : List Ptr) (u : Held) (w : World S) (x : Var) (c : Ptr → Cmd S (Unit {0}))
          → Inv loop (u ⊕ (owned os ⊕ k)) w
          → ((p : Ptr) → FramesAt loop p (c p))
          → Safe (KeptWith loop k) (on (lookup lents os x) c os w)
      held_call os u w x c v frames =
          on-Client k os c u w (lookup lents os x) v
            λ q e. frames q u (owned os ⊕ k) w v (omega arith) (lookup-live lents os lends x q e)

      run_call-Kept :
          (c : Call) (owns : List Ptr) (u : Held) (w : World S)
          → Inv loop (u ⊕ (owned owns ⊕ k)) w
          → Rule env calloc c lents owns w
          → Safe (KeptWith loop k) (run_call env calloc c lents owns w)
      unfolding run_call aml_handler_new aml_timer_new aml_signal_new aml_work_new aml_idle_new
      run_call-Kept (handler_new fd cb x f) os u w v rule =
          created-Client k os u w (calloc w) _ v (free w) (ground arith)
      run_call-Kept (timer_new n cb x f) os u w v rule =
          created-Client k os u w (calloc w) _ v (free w) (ground arith)
      run_call-Kept (ticker_new n cb x f) os u w v rule =
          ticker-Client k os u w (calloc w) n cb x f v (free w) rule
      run_call-Kept (signal_new n cb x f) os u w v rule =
          created-Client k os u w (calloc w) _ v (free w) (ground arith)
      run_call-Kept (work_new wf cb x f) os u w v rule =
          created-Client k os u w (calloc w) _ v (free w) (ground arith)
      run_call-Kept (idle_new cb x f) os u w v rule =
          created-Client k os u w (calloc w) _ v (free w) (ground arith)
      run_call-Kept (ref x) os u w v rule =
          take_ref-Client k os u w (lookup lents os x) v (lookup-live lents os lends x)
      run_call-Kept (unref i) os u w v rule = give_up-Client k os i u w v l (pick os i) refl
      run_call-Kept (start x) os u w v rule = on-Client k os _ u w (lookup lents os x) v λ q e.
          Safe.bind
            (aml_start-Kept env tame u (owned os ⊕ k) w q v (omega arith)
              (lookup-live lents os lends x q e) (λ o at z. rule q o e at z))
            λ _ _ kept. returns kept
      run_call-Kept (stop x) os u w v rule = held_call os u w x _ v stop-Frames
      run_call-Kept (set_event_mask x m) os u w v rule =
          held_call os u w x _ v (aml_set_event_mask-Kept m)
      run_call-Kept (set_duration x n) os u w v rule =
          on-Client k os _ u w (lookup lents os x) v λ q e.
            set_duration-Kept n q u (owned os ⊕ k) w v (lookup-live lents os lends x q e)
              (rule q e).0
      run_call-Kept (set_userdata x y f) os u w v rule =
          held_call os u w x _ v (set_userdata-Frames y f)
      run_call-Kept interrupt os u w v rule =
          Safe.bind (aml_interrupt-Frames env tame u (owned os ⊕ k) w v (omega arith))
            λ _ w' kept. returns kept
      run_call-Kept exit os u w v rule =
          Safe.bind (aml_exit-Frames u (owned os ⊕ k) w v (omega arith)) λ _ w' kept. returns kept

      -- From a store that satisfies the invariant, any sequence of calls by a client never
      -- faults: it constructs handlers, timers, tickers, signals, work and idle objects, takes
      -- and gives up references, starts and stops, sets event masks, durations and user data,
      -- interrupts and exits; and unless a reference count would pass INT_MAX the invariant,
      -- the references of the caller and those that the client has left are kept. The client
      -- gives up only references of its own and calls only on objects that it or its caller
      -- holds, the loop among what the caller holds. In the stores where it makes the calls, it
      -- makes a ticker only where calloc does not fail, sets a duration only of a timer or
      -- ticker that is not started, and starts no ticker with a period of 0. calloc returns
      -- free addresses or NULL, and the backend, its exit operation included, and the user
      -- code, in whatever state they are called, return and give up only references of their
      -- own.
      pub run_calls-Kept :
          (cs : List Call) (owns : List Ptr) (u : Held) (w : World S)
          → Inv loop (u ⊕ (owned owns ⊕ k)) w
          → Follows env calloc cs lents owns w
          → Safe (λ left. Kept loop (owned left ⊕ k)) (run_calls env calloc cs lents owns w)
      unfolding run_calls
      run_calls-Kept [] owns u w v rules = returns (u, v)
      run_calls-Kept (c ∷ cs) owns u w v (rule, rules) =
          Safe.bind (with_IfOk (run_call-Kept c owns u w v rule) rules)
            λ left w' ((u', v'), rest). run_calls-Kept cs left u' w' v' rest
