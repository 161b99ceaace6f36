-- ===== src/Posix/Ops.antt =====
-- The queue of operations in src/posix.c against a map from handlers to rows.
use aml.Base.{◌+◌, ◌^◌, ◌≡◌, ◌<◌, true, Option, none, some, List, [], ◌∷◌, arith, refl, length}
use aml.World.{Ptr}
use aml.Posix.{
  Table, Handlers, FdOp, add_fd_op, mod_fd_op, del_fd_op, find_handler, posix_add_fd_op,
  posix_del_fd_op, call_op, apply_fd_ops,
}
use aml.Posix.Rows.{find_handler-Found, posix_add_fd_op-Added, posix_del_fd_op-Deleted}
use aml.Posix.Maps.{
  RowMap, Refines, Refined, map_op, map_ops, Allowed, AllAllowed, posix_add_fd_op-Sized,
  posix_del_fd_op-Sized, Added-Refined, Deleted-Refined, mod-Found,
}

module _ (h : Handlers) where
  call_op-Refined :
      (op : FdOp) (p : Ptr) (t : Table) (s : RowMap)
      → Refines t s
      → t.num_fds + 1 < 2 ^ 29
      → Allowed h op p s
      → Refined (map_op h op p s) (t.num_fds + 1) (call_op h true op p t)
  unfolding call_op map_op
  call_op-Refined add_fd_op p t s v few absent =
      Added-Refined h t s v p (posix_add_fd_op h true p t)
        (posix_add_fd_op-Sized h p t v.table v.small few)
        (posix_add_fd_op-Added h p t v.table
          (λ i lt e. let at : s p ≡ some (t.fds i) = (v.rows p (t.fds i)).0 (i, lt, e, refl) in cc)
          (omega (arith, v.small)))
  call_op-Refined mod_fd_op p t s v few allowed =
      mod-Found h t s v p (find_handler t p) refl (find_handler-Found t p)
  call_op-Refined del_fd_op p t s v few allowed =
      Deleted-Refined h t s v p (posix_del_fd_op h p t) (posix_del_fd_op-Sized h t s v p)
        (posix_del_fd_op-Deleted h p t v.table)

  abbrev pub Applied : RowMap → Option Table → Type 0
  Applied s none = ⊥
  Applied s (some t) = Refines t s

  -- If realloc succeeds, applying queued operations to a well-formed poll table of less than 2^30
  -- places, where the places in use and the operations together are below 2^29 and no handler is
  -- added that has a row, stays in bounds and leaves a well-formed table with exactly the rows of a
  -- map from handlers to rows after the same operations.
  pub apply_fd_ops-Applied :
      (ops : List (FdOp × Ptr)) (t : Table) (s : RowMap)
      → Refines t s
      → t.num_fds + length ops < 2 ^ 29
      → AllAllowed h ops s
      → Applied (map_ops h ops s) (apply_fd_ops h true ops t)
  unfolding apply_fd_ops map_ops
  apply_fd_ops-Applied [] t s v few allowed = v
  apply_fd_ops-Applied ((op, p) ∷ rest) t s v few (now, later) =
      let t1 : Table = record t { fd_ops = rest } in
      let v1 : Refines t1 s = record {
        table = record {
          room = v.table.room;
          some_room = v.table.some_room;
          fits = v.table.fits;
          unique = v.table.unique;
        };
        rows = v.rows;
        small = v.small;
      } in
      next (λ t' v' less. apply_fd_ops-Applied rest t' (map_op h op p s) v' less later)
        (call_op h true op p t1) (call_op-Refined op p t1 s v1 (omega arith) now)
    where
      next :
          ((t' : Table)
            → Refines t' (map_op h op p s)
            → t'.num_fds + length rest < 2 ^ 29
            → Applied (map_ops h rest (map_op h op p s)) (apply_fd_ops h true rest t'))
          → (res : Option Table) → Refined (map_op h op p s) (t.num_fds + 1) res
          → Applied
              (map_ops h rest (map_op h op p s))
              (elim res [ none ↦ none | some t' ↦ apply_fd_ops h true rest t' ])
      next again none refined = absurd refined
      next again (some t') (v', few') = again t' v' (omega arith)
