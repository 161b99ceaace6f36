-- ===== src/Inv/Weak.antt =====
-- The loop of `aml_unref` that takes an object from its weak references.
use aml.Base.{◌≡◌, ◌<◌, none, some, arith, ◌==◌, if◌then◌else◌, count, refl, List, [], ◌∷◌}
use aml.World.{Ptr, Obj, World, load, put, update}
use aml.World.Views.{weaks}
use aml.World.Safe.{Safe, returns}
use aml.Ref.{load_weak}
use aml.Unref.{clear_weak_refs}
use aml.Inv.{Held, Core, Inv}

-- A weak reference is in the list of the object that it leads to, once.
pub record Links {S : Type 0} (w : World S) : Type 0 where
  pub linked : (p r : Ptr) → 0 < count r (weaks w p) → w.weak r ≡ some (some p)
  pub linking : (p r : Ptr) → w.weak r ≡ some (some p) → count r (weaks w p) ≡ 1

Core-Links : {S : Type 0} {loop : Ptr} {held : Held} {w : World S} → Core loop held w → Links w
Core-Links c = record { linked = c.linked; linking = c.linking }

abbrev pub with_weak_refs : Obj → List Ptr → Obj
with_weak_refs o rs = record o { weak_refs = rs }

module _ {S : Type 0} where
  -- The state after one round.
  abbrev pub cleared : Ptr → Obj → Ptr → List Ptr → World S → World S
  cleared p o r rs w = put p (with_weak_refs o rs) (record w { weak = update w.weak r (some none) })

module _ {S : Type 0} (w : World S) (p r : Ptr) (o : Obj) (rs : List Ptr) (at : w.objs p ≡ some o)
    (has_rs : o.weak_refs ≡ r ∷ rs) where
  weaks-cleared : (q : Ptr) → weaks (cleared p o r rs w) q ≡ (if p == q then rs else weaks w q)
  weaks-cleared q = ground arith

  module _ (c : Links w) where
    pub points : w.weak r ≡ some (some p)
    points = c.linked p r (ground arith)

    pub cleared-Links : Links (cleared p o r rs w)
    cleared-Links = record {
      linked = λ q s n. ground (arith, weaks-cleared q, c.linked q s, c.linking p r points, points);
      linking =
          λ q s e. ground (arith, weaks-cleared q, c.linking q s, c.linking p r points, points);
    }

  module _ {loop : Ptr} {held : Held} (c : Core loop held w) where
    links : Links (cleared p o r rs w)
    links = cleared-Links (Core-Links c)

    cleared-Core : Core loop held (cleared p o r rs w)
    cleared-Core = record {
      this = c.this;
      balance = λ q. ground (arith, c.balance q);
      queued = λ q. ground (arith, c.queued q);
      fits = λ q. ground (arith, c.fits q);
      once = c.once;
      typed = λ q x e. ground (arith, c.typed q x, c.typed p o);
      one_loop = λ q e. ground (arith, c.one_loop q);
      is_loop = ground (arith, c.is_loop);
      linked = links.linked;
      linking = links.linking;
    }

  cleared-Inv : {loop : Ptr} {held : Held} → Inv loop held w → Inv loop held (cleared p o r rs w)
  cleared-Inv v = record {
    core = cleared-Core v.core;
    timers = λ q. ground (arith, v.timers q);
    idles = λ q. ground (arith, v.idles q);
  }

module _ {S : Type 0} {loop : Ptr} {held : Held} where
  -- Every weak reference of the object is still allocated, and points to nothing afterwards.
  pub clear_weak_refs-Inv :
      (rs : List Ptr) {w : World S} (p : Ptr) (o : Obj)
      → w.objs p ≡ some o
      → o.weak_refs ≡ rs
      → Inv loop held w
      → Safe
          (λ _ w'. Inv loop held w' × (w'.objs p ≡ some (with_weak_refs o [])))
          (clear_weak_refs p rs w)
  unfolding clear_weak_refs
  clear_weak_refs-Inv [] p o at e v = returns (v, rw (← e) at)
  clear_weak_refs-Inv (r ∷ rs) {w} p o at e v =
      rw (points w p r o rs at e (Core-Links v.core), load_weak, at, load)
        (clear_weak_refs-Inv rs p (with_weak_refs o rs) (ground arith) refl
          (cleared-Inv w p r o rs at e v))
