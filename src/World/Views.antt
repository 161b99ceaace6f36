-- ===== src/World/Views.antt =====
-- Fields of an object as functions of the address, 0 or none at an address that holds no object.
use aml.Base.{ℕ, Option, none, some, List, []}
use aml.World.{Ptr, ObjType, unspec, Obj, World}

abbrev ref_of : Option Obj → ℕ
ref_of none = 0
ref_of (some o) = o.ref

abbrev events_of : Option Obj → ℕ
events_of none = 0
events_of (some o) = o.n_events

abbrev weak_refs_of : Option Obj → List Ptr
weak_refs_of none = []
weak_refs_of (some o) = o.weak_refs

abbrev kind_of : Option Obj → ObjType
kind_of none = unspec
kind_of (some o) = o.kind

module _ {S : Type 0} (w : World S) (p : Ptr) where
  abbrev pub refs : ℕ
  refs = ref_of (w.objs p)

  abbrev pub events : ℕ
  events = events_of (w.objs p)

  abbrev pub weaks : List Ptr
  weaks = weak_refs_of (w.objs p)

  abbrev pub kind_at : ObjType
  kind_at = kind_of (w.objs p)
