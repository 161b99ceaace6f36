-- ===== src/Inv/Step.antt =====
-- One object changes its counts: what has to be checked for the invariant to survive.
use mathlib.Core.Path.{fun_ext, subst}
use aml.Base.{◌+◌, ◌≤◌, ◌<◌, ◌≡◌, ◌≢◌, sym, ◌∙◌, some, arith, ◌==◌, if◌then◌else◌, count, refl}
use aml.World.{Ptr, Obj, World, int_limit, put}
use aml.World.Outside.{set_state}
use aml.World.Views.{weaks, kind_at}
use aml.Inv.{Held, Core, Inv}

pub record StepAt {S : Type 0} (p : Ptr) (o o' : Obj) (h h' : Held) (w w' : World S) : Type 0 where
  pub this : w'.self ≡ w.self
  pub weak : (r : Ptr) → w'.weak r ≡ w.weak r
  pub before : w.objs p ≡ some o
  pub after : w'.objs p ≡ some o'
  pub others : (q : Ptr) → p ≢ q → w'.objs q ≡ w.objs q
  pub kind : o'.kind ≡ o.kind
  pub weak_refs : o'.weak_refs ≡ o.weak_refs
  pub ref : o'.ref ≡ h' p + count p w'.obj_list + o'.n_events
  pub elsewhere : (q : Ptr) → p ≢ q → h' q + count q w'.obj_list ≡ h q + count q w.obj_list
  pub listed : (q : Ptr) → count q w'.obj_list ≤ 1
  pub queue : count p w'.event_queue ≡ (if o'.n_events == 0 then 0 else 1)
  pub queues : (q : Ptr) → p ≢ q → count q w'.event_queue ≡ count q w.event_queue
  pub small : o'.ref < int_limit

module _ {S : Type 0} {loop : Ptr} {h h' : Held} {w w' : World S} {p : Ptr} {o o' : Obj}
    (c : Core loop h w) (s : StepAt p o o' h h' w w') where
  pub kind_at-step : (q : Ptr) → kind_at w' q ≡ kind_at w q
  kind_at-step q = ground (arith, s.before, s.after, s.others q, s.kind)

  weaks-step : (q : Ptr) → weaks w' q ≡ weaks w q
  weaks-step q = ground (arith, s.before, s.after, s.others q, s.weak_refs)

  pub StepAt-Core : Core loop h' w'
  StepAt-Core = record {
    this = s.this ∙ c.this;
    balance = λ q. ground (arith, s.before, s.after, s.others q, s.ref, s.elsewhere q, c.balance q);
    queued = λ q. ground (arith, s.before, s.after, s.others q, s.queue, s.queues q, c.queued q);
    fits = λ q. ground (arith, s.before, s.after, s.others q, s.small, c.fits q);
    once = s.listed;
    typed =
        λ q x at. ground (arith, s.before, s.after, s.others q, s.kind, c.typed q x, c.typed p o);
    one_loop = λ q e. c.one_loop q (sym (kind_at-step q) ∙ e);
    is_loop = kind_at-step loop ∙ c.is_loop;
    linked = λ q r n. s.weak r ∙ c.linked q r (rw (weaks-step q) at n);
    linking = λ q r e. rw (weaks-step q) (c.linking q r (sym (s.weak r) ∙ e));
  }

-- The lists of timers and idle objects stay, and so does the list of the started objects.
pub record SameLists {S : Type 0} (w w' : World S) : Type 0 where
  pub started : (q : Ptr) → count q w'.obj_list ≡ count q w.obj_list
  pub timer : (q : Ptr) → count q w'.timer_list ≡ count q w.timer_list
  pub idle : (q : Ptr) → count q w'.idle_list ≡ count q w.idle_list

module _ {S : Type 0} {loop : Ptr} {h h' : Held} {w w' : World S} {p : Ptr} {o o' : Obj} where
  pub StepAt-Inv : Inv loop h w → StepAt p o o' h h' w w' → SameLists w w' → Inv loop h' w'
  StepAt-Inv v s same = record {
    core = StepAt-Core v.core s;
    timers = λ q. ground (arith, kind_at-step v.core s q, same.started q, same.timer q, v.timers q);
    idles = λ q. ground (arith, kind_at-step v.core s q, same.started q, same.idle q, v.idles q);
  }

module _ {S : Type 0} {loop : Ptr} {h h' : Held} {w : World S} where
  pub Inv-held : ((q : Ptr) → h q ≡ h' q) → Inv loop h w → Inv loop h' w
  Inv-held same v = subst (λ x. Inv loop x w) (fun_ext same) v

-- A write that leaves the type, the counts and the weak references alone.
pub record SameCounts (o o' : Obj) : Type 0 where
  pub kind : o'.kind ≡ o.kind
  pub weak_refs : o'.weak_refs ≡ o.weak_refs
  pub ref : o'.ref ≡ o.ref
  pub n_events : o'.n_events ≡ o.n_events

module _ {S : Type 0} {loop : Ptr} {h : Held} {w : World S} {p : Ptr} {o : Obj} (c : Core loop h w)
    (at : w.objs p ≡ some o) where
  StepAt-same : (o' : Obj) → SameCounts o o' → StepAt p o o' h h w (put p o' w)
  StepAt-same o' s = record {
    this = refl;
    weak = λ r. refl;
    before = at;
    after = ground arith;
    others = λ q ne. ground arith;
    kind = s.kind;
    weak_refs = s.weak_refs;
    ref = ground (arith, c.balance p);
    elsewhere = λ q ne. refl;
    listed = c.once;
    queue = ground (arith, c.queued p);
    queues = λ q ne. refl;
    small = ground (arith, c.fits p);
  }

  pub put-Core : (o' : Obj) → SameCounts o o' → Core loop h (put p o' w)
  put-Core o' s = StepAt-Core c (StepAt-same o' s)

module _ {S : Type 0} {loop : Ptr} {h : Held} {w : World S} {p : Ptr} {o : Obj} (v : Inv loop h w)
    (at : w.objs p ≡ some o) where
  pub put-Inv : (o' : Obj) → SameCounts o o' → Inv loop h (put p o' w)
  put-Inv o' s =
      StepAt-Inv v (StepAt-same v.core at o' s)
        (record { started = λ q. refl; timer = λ q. refl; idle = λ q. refl })

module _ {S : Type 0} {loop : Ptr} {held : Held} where
  pub set_state-Inv : {w : World S} (x : S) → Inv loop held w → Inv loop held (set_state x w)
  set_state-Inv x v = record {
    core = record {
      this = v.core.this;
      balance = v.core.balance;
      queued = v.core.queued;
      fits = v.core.fits;
      once = v.core.once;
      typed = v.core.typed;
      one_loop = v.core.one_loop;
      is_loop = v.core.is_loop;
      linked = v.core.linked;
      linking = v.core.linking;
    };
    timers = v.timers;
    idles = v.idles;
  }
