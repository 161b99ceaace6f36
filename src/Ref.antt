-- ===== src/Ref.antt =====
-- Reference counts and weak references of src/aml.c: `aml_ref`, `aml_weak_ref_new`,
-- `aml_weak_ref_del`, `aml_weak_ref_read`. `fresh` is what `calloc` returns.
use aml.Base.{ℕ, ◌+◌, Option, none, some, ◌∷◌, has, erase, if◌then◌else◌}
use aml.World.{Ptr, Cmd, ok, fault, pure, skip, fail, ◌>>=◌, ◌>>◌, load, store, guard_int, update}

module _ {S : Type 0} where
  -- Returns the count before the call.
  unfoldable pub aml_ref : Ptr → Cmd S ℕ
  aml_ref p = do
    o ← load p
    guard_int (o.ref + 1)
    store p (record o { ref = o.ref + 1 })
    pure o.ref

  -- `ref->obj`, and a write to it.
  abbrev pub load_weak : Ptr → Cmd S (Option Ptr)
  load_weak r = λ w. elim (w.weak r) [ none ↦ fault | some target ↦ ok target w ]

  abbrev pub store_weak : Ptr → Option (Option Ptr) → Cmd S (Unit {0})
  store_weak r c = λ w. ok tt (record w { weak = update w.weak r c })

  unfoldable pub aml_weak_ref_new : Option Ptr → Ptr → Cmd S (Option Ptr)
  aml_weak_ref_new none p = pure none
  aml_weak_ref_new (some r) p = do
    store_weak r (some (some p))
    o ← load p
    store p (record o { weak_refs = r ∷ o.weak_refs })
    pure (some r)

  -- LIST_REMOVE(self, link) from the object's list.
  abbrev pub unlink_weak : Ptr → Option Ptr → Cmd S (Unit {0})
  unlink_weak r none = skip
  unlink_weak r (some p) = do
    o ← load p
    if has r o.weak_refs then store p (record o { weak_refs = erase r o.weak_refs }) else fail

  unfoldable pub aml_weak_ref_del : Option Ptr → Cmd S (Unit {0})
  aml_weak_ref_del none = skip
  aml_weak_ref_del (some r) = do target ← load_weak r; unlink_weak r target; store_weak r none

  abbrev pub ref_target : Option Ptr → Cmd S (Option Ptr)
  ref_target none = pure none
  ref_target (some p) = do
    o ← load p
    guard_int (o.ref + 1)
    store p (record o { ref = o.ref + 1 })
    pure (some p)

  unfoldable pub aml_weak_ref_read : Ptr → Cmd S (Option Ptr)
  aml_weak_ref_read r = do target ← load_weak r; ref_target target
