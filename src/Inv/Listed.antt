-- ===== src/Inv/Listed.antt =====
-- The store of src/aml.c after `aml__obj_try_add`.
use aml.Base.{◌+◌, ◌≡◌, some, true, false, arith, count, refl, ◌∷◌, has, not_has-count, ltb}
use aml.World.{Ptr, Obj, World, put, int_limit}
use aml.Object.{is_timer, is_idle}
use aml.Stop.{set_timer_list}
use aml.Unref.{set_obj_list}
use aml.Inv.{Held, Core, Inv}
use aml.Inv.Step.{StepAt, StepAt-Core}
use aml.Inv.Refs.{with_ref}

-- The state after `aml__obj_try_add` of an object that was not started.
abbrev pub listed : {S : Type 0} → Ptr → Obj → World S → World S
listed p o w = set_obj_list (p ∷ w.obj_list) (put p (with_ref o (o.ref + 1)) w)

module _ {S : Type 0} {loop : Ptr} {held : Held} {w : World S} (v : Inv loop held w) (p : Ptr)
    (o : Obj) (at : w.objs p ≡ some o) (stopped : has p w.obj_list ≡ false)
    (small : ltb (o.ref + 1) int_limit ≡ true) where
  pub StepAt-listed : StepAt p o (with_ref o (o.ref + 1)) held held w (listed p o w)
  StepAt-listed = record {
    this = refl;
    weak = λ r. refl;
    before = at;
    after = ground arith;
    others = λ q ne. ground arith;
    kind = refl;
    weak_refs = refl;
    ref = ground (arith, v.core.balance p);
    elsewhere = λ q ne. ground arith;
    listed = λ q. ground (arith, not_has-count p w.obj_list stopped, v.core.once q);
    queue = ground (arith, v.core.queued p);
    queues = λ q ne. refl;
    small = ground arith;
  }

  pub listed-Core : Core loop held (listed p o w)
  listed-Core = StepAt-Core v.core StepAt-listed

  pub absent : count p w.obj_list ≡ 0
  absent = not_has-count p w.obj_list stopped

  pub listed-Inv : is_timer o.kind ≡ false → is_idle o.kind ≡ false → Inv loop held (listed p o w)
  listed-Inv t i = record {
    core = listed-Core;
    timers = λ q. ground (arith, v.timers q, at);
    idles = λ q. ground (arith, v.idles q, at);
  }

  -- The list of timers takes the object in, with its deadline.
  pub timer-Inv :
      (o' : Obj)
      → o'.kind ≡ o.kind
      → is_timer o.kind ≡ true
      → Core loop held (put p o' (listed p o w))
      → Inv loop held (set_timer_list (p ∷ w.timer_list) (put p o' (listed p o w)))
  timer-Inv o' same t c = record {
    core = record {
      this = c.this;
      balance = c.balance;
      queued = c.queued;
      fits = c.fits;
      once = c.once;
      typed = c.typed;
      one_loop = c.one_loop;
      is_loop = c.is_loop;
      linked = c.linked;
      linking = c.linking;
    };
    timers = λ q. ground (arith, v.timers q, at, absent);
    idles = λ q. ground (arith, v.idles q, at);
  }

  pub idle-Inv :
      is_idle o.kind ≡ true → Inv loop held (record (listed p o w) { idle_list = p ∷ w.idle_list })
  idle-Inv t = record {
    core = record {
      this = listed-Core.this;
      balance = listed-Core.balance;
      queued = listed-Core.queued;
      fits = listed-Core.fits;
      once = listed-Core.once;
      typed = listed-Core.typed;
      one_loop = listed-Core.one_loop;
      is_loop = listed-Core.is_loop;
      linked = listed-Core.linked;
      linking = listed-Core.linking;
    };
    timers = λ q. ground (arith, v.timers q, at);
    idles = λ q. ground (arith, v.idles q, at, absent);
  }
