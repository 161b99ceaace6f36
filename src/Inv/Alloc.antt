-- ===== src/Inv/Alloc.antt =====
-- New objects of src/aml.c and the invariant.
use aml.Base.{ℕ, ◌≡◌, ◌≢◌, Option, none, some, [], arith, refl}
use aml.World.{Ptr, Fn, unspec, main_loop, handler, Obj, World, put}
use aml.World.Safe.{Safe, returns}
use aml.Object.{new_obj, event_read, alloc, aml_handler_new}
use aml.Inv.{Held, grab, Core, Inv}

-- What a constructor leaves: one reference, for the caller.
pub record IsNew (o : Obj) : Type 0 where
  pub plain : o.kind ≢ main_loop
  pub typed : o.kind ≢ unspec
  pub ref : o.ref ≡ 1
  pub n_events : o.n_events ≡ 0
  pub weak_refs : o.weak_refs ≡ []

module _ {S : Type 0} {loop : Ptr} {held : Held} {w : World S} (v : Inv loop held w) (p : Ptr)
    (fresh : w.objs p ≡ none) (o : Obj) (new : IsNew o) where
  alloc-Core : Core loop (grab p held) (put p o w)
  alloc-Core = record {
    this = v.core.this;
    balance = λ q. ground (arith, v.core.balance q, new.ref, new.n_events, fresh);
    queued = λ q. ground (arith, v.core.queued q, new.n_events, fresh);
    fits = λ q. ground (arith, v.core.fits q, new.ref);
    once = v.core.once;
    typed = λ q x e. ground (arith, v.core.typed q x, new.typed);
    one_loop = λ q e. ground (arith, v.core.one_loop q, new.plain);
    is_loop = ground (arith, v.core.is_loop, fresh);
    linked = λ q r n. ground (arith, v.core.linked q r, new.weak_refs);
    linking = λ q r e. ground (arith, v.core.linking q r, fresh);
  }

  pub alloc-Inv : Inv loop (grab p held) (put p o w)
  alloc-Inv = record {
    core = alloc-Core;
    timers = λ q. ground (arith, v.timers q, v.core.balance q, fresh);
    idles = λ q. ground (arith, v.idles q, v.core.balance q, fresh);
  }

-- What a constructor of `o` returns for what `calloc` returned: NULL and no change, or the object with
-- one reference for the caller.
abbrev pub Created :
    {S : Type 0} → Ptr → Held → World S → Obj → Option Ptr → Option Ptr → World S → Type 0
Created loop held w o none res w' = (res ≡ none) × (w' ≡ w)
Created loop held w o (some p) res w' =
    (res ≡ some p) × (w' ≡ put p o w) × Inv loop (grab p held) w'

abbrev pub new_handler : ℕ → Option Fn → Ptr → Option Fn → Obj
new_handler fd cb userdata free_fn =
    let header = new_obj handler cb userdata free_fn in
    record header { fd = fd; event_mask = event_read }

-- `calloc` returns an address at which no object stands.
abbrev pub Fresh : {S : Type 0} → World S → Option Ptr → Type 0
Fresh w res = (p : Ptr) → res ≡ some p → w.objs p ≡ none

module _ {S : Type 0} {loop : Ptr} {held : Held} {w : World S} (v : Inv loop held w) where
  pub alloc-Created :
      (fresh : Option Ptr) (o : Obj)
      → Fresh w fresh
      → IsNew o
      → Safe (Created loop held w o fresh) (alloc fresh o w)
  alloc-Created none o free new = returns (refl, refl)
  alloc-Created (some p) o free new = returns (refl, refl, alloc-Inv v p (free p refl) o new)

  pub aml_handler_new-Created :
      (fresh : Option Ptr) (fd : ℕ) (cb : Option Fn) (userdata : Ptr) (free_fn : Option Fn)
      → Fresh w fresh
      → Safe
          (Created loop held w (new_handler fd cb userdata free_fn) fresh)
          (aml_handler_new fresh fd cb userdata free_fn w)
  unfolding aml_handler_new
  aml_handler_new-Created fresh fd cb userdata free_fn free =
      alloc-Created fresh _ free
        (record { plain = λ e. cc; typed = λ e. cc; ref = refl; n_events = refl; weak_refs = refl })
