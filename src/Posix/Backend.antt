-- ===== src/Posix/Backend.antt =====
-- The descriptor operations of src/posix.c as the loop calls them: each takes a reference to the
-- handler and waits in the queue of the table until the poller thread applies it.
use aml.Base.{
  ap, ℕ, zero, suc, ◌+◌, ◌≡◌, ◌<◌, Bool, true, false, Option, none, some, List, [], ◌∷◌, ◌++◌,
  if◌then◌else◌, arith, refl, ◌==◌,
}
use aml.World.{Run, Ptr, World, Cmd, Rc, success, failure, pure, skip, ◌>>=◌, ◌>>◌, get, modify}
use aml.World.Env.{Env}
use aml.World.Safe
use aml.World.Safe.{Safe, returns}
use aml.Ref.{aml_ref}
use aml.Unref.{aml_unref}
use aml.Posix.{Table, FdOp, add_fd_op, mod_fd_op, del_fd_op, enqueue_fd_op}
use aml.Inv.{Held, ◌⊕◌, Inv}
use aml.World.Outside.{set_state}
use aml.Inv.Step.{Inv-held, set_state-Inv}
use aml.Inv.Refs.{find, aml_ref-Inv}

-- `posix__enqueue_fd_op`; `memory` is whether `calloc` succeeds. The signal that ends it is left out.
unfoldable pub posix_enqueue_fd_op : Bool → FdOp → Ptr → Cmd Table Rc
unfolding enqueue_fd_op
posix_enqueue_fd_op memory op p =
    if memory
    then (do aml_ref p; modify (λ w. set_state (enqueue_fd_op op p w.state) w); pure success)
    else pure failure

unfoldable pub posix_add_fd : Bool → Ptr → Cmd Table Rc
unfolding posix_enqueue_fd_op
posix_add_fd memory p = posix_enqueue_fd_op memory add_fd_op p

unfoldable pub posix_mod_fd : Bool → Ptr → Cmd Table Rc
unfolding posix_enqueue_fd_op
posix_mod_fd memory p = posix_enqueue_fd_op memory mod_fd_op p

unfoldable pub posix_del_fd : Bool → Ptr → Cmd Table Rc
unfolding posix_enqueue_fd_op
posix_del_fd memory p = posix_enqueue_fd_op memory del_fd_op p

-- `posix__dequeue_fd_op`
abbrev pub take_op : List (FdOp × Ptr) → Cmd Table (Option (FdOp × Ptr))
take_op [] = pure none
take_op (x ∷ rest) = do modify (λ w. set_state (record w.state { fd_ops = rest }) w); pure (some x)

unfoldable pub posix_dequeue_fd_op : Cmd Table (Option (FdOp × Ptr))
posix_dequeue_fd_op = do ops ← get (λ w. w.state.fd_ops); take_op ops

module _ (env : Env Table) where
  -- The loop of `posix_del_state` over the operations that are left.
  abbrev pub drop_op : Cmd Table (Unit {0}) → Option (FdOp × Ptr) → Cmd Table (Unit {0})
  drop_op rest none = skip
  drop_op rest (some (op, p)) = do aml_unref env p; rest

  unfoldable pub drop_fd_ops : ℕ → Cmd Table (Unit {0})
  unfolding posix_dequeue_fd_op
  drop_fd_ops zero = λ w. Run.out_of_fuel
  drop_fd_ops (suc fuel) = do x ← posix_dequeue_fd_op; drop_op (drop_fd_ops fuel) x

-- The references that the queued operations hold.
abbrev pub queued_refs : List (FdOp × Ptr) → Held
queued_refs [] q = 0
queued_refs ((op, p) ∷ rest) q = (if p == q then 1 else 0) + queued_refs rest q

queued_refs-append :
    (ops : List (FdOp × Ptr)) (op : FdOp) (p q : Ptr)
    → queued_refs (ops ++ (op, p) ∷ []) q ≡ queued_refs ops q + (if p == q then 1 else 0)
queued_refs-append [] op p q = omega arith
queued_refs-append ((op', p') ∷ ops) op p q = omega (arith, queued_refs-append ops op p q)

module _ {loop : Ptr} where
  -- From a store that satisfies the invariant, where the queued operations of the poll table hold
  -- one reference each to their handlers, queueing one more for an object that the caller holds
  -- never faults: unless a reference count would pass INT_MAX the same holds afterwards, and the
  -- result is failure exactly when calloc fails.
  pub posix_enqueue_fd_op-Queued :
      (memory : Bool) (op : FdOp) (p : Ptr) (k : Held) (w : World Table)
      → Inv loop (queued_refs w.state.fd_ops ⊕ k) w
      → 0 < k p
      → Safe
          (λ rc w'.
            Inv loop (queued_refs w'.state.fd_ops ⊕ k) w'
            × (rc ≡ (if memory then success else failure)))
          (posix_enqueue_fd_op memory op p w)
  unfolding posix_enqueue_fd_op
  posix_enqueue_fd_op-Queued false op p k w v held = returns (v, refl)
  posix_enqueue_fd_op-Queued true op p k w v held =
      let (o, at) = find {p = p} v.core (ground (arith, v.core.balance p)) in
      Safe.bind (aml_ref-Inv v at) λ _ w1 (n, e, v1).
        let same : w1.state ≡ w.state = ap (λ (x : World Table). x.state) e in
        returns (
          set_state-Inv _ (
              Inv-held (λ q. rw same (omega (arith, queued_refs-append w.state.fd_ops op p q))) v1),
          refl,
        )
