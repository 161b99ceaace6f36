-- ===== src/Posix/Maps.antt =====
-- One operation on the poll table of src/posix.c against a map from handlers to rows.
use mathlib.Core.Path.{subst}
use aml.Base.{
  ◌≢◌, ◌-◌, ℕ, ◌+◌, ◌*◌, ◌%◌, ◌^◌, ◌≡◌, ◌≤◌, ◌<◌, true, Option, none, some, List, [], ◌∷◌, ◌==◌,
  leb, ltb, arith, refl, sym, ap, ◌∙◌, inl, inr, Bool-cases, ◌↔◌,
}
use aml.World.{Ptr, update}
use aml.Posix.{
  PollFd, Table, Handlers, FdOp, add_fd_op, mod_fd_op, del_fd_op, find_handler, get_event_mask,
  posix_add_fd_op, posix_mod_fd_op, posix_del_fd_op,
}
use aml.Posix.Rows.{IsTable, Row, Absent, Found, new_row, Added, Deleted}

-- The rows by handler.
abbrev pub RowMap : Type 0
RowMap = Ptr → Option PollFd

-- The table is well formed and holds these rows.
pub record Refines (t : Table) (s : RowMap) : Type 0 where
  pub table : IsTable t
  pub rows : (q : Ptr) (r : PollFd) → Row t q r ↔ (s q ≡ some r)
  pub small : t.max_fds < 2 ^ 30

-- The result of an operation: in bounds, with these rows, and at most `n` places in use.
abbrev pub Refined : RowMap → ℕ → Option Table → Type 0
Refined s n none = ⊥
Refined s n (some t) = Refines t s × (t.num_fds ≤ n)

pub Row-unique : (t : Table) (q : Ptr) (r r' : PollFd) → IsTable t → Row t q r → Row t q r' → r ≡ r'
Row-unique t q r r' v (i, li, hi, fi) (j, lj, hj, fj) =
    sym fi ∙ ap t.fds (v.unique i j li lj (hi ∙ sym hj)) ∙ fj

module _ (h : Handlers) where
  -- One operation on the map.
  unfoldable pub map_op : FdOp → Ptr → RowMap → RowMap
  map_op add_fd_op p s = update s p (some (new_row h p))
  map_op mod_fd_op p s = elim (s p) [
    | none ↦ s
    | some r ↦ update s p (some (record r { fd = h.fd_of p; events = get_event_mask h p }))
  ]
  map_op del_fd_op p s = update s p none

  unfoldable pub map_ops : List (FdOp × Ptr) → RowMap → RowMap
  unfolding map_op
  map_ops [] s = s
  map_ops ((op, p) ∷ rest) s = map_ops rest (map_op op p s)

  -- No handler is added that is there.
  abbrev pub Allowed : FdOp → Ptr → RowMap → Type 0
  Allowed add_fd_op p s = s p ≡ none
  Allowed mod_fd_op p s = Unit {0}
  Allowed del_fd_op p s = Unit {0}

  abbrev pub AllAllowed : List (FdOp × Ptr) → RowMap → Type 0
  AllAllowed [] s = Unit {0}
  AllAllowed ((op, p) ∷ rest) s = Allowed op p s × AllAllowed rest (map_op op p s)

  -- The size after adding.
  abbrev pub Sized : ℕ → Option Table → Type 0
  Sized n none = Unit {0}
  Sized n (some t) = (t.num_fds ≤ n) × (t.max_fds < 2 ^ 30)

  pub posix_add_fd_op-Sized :
      (p : Ptr) (t : Table)
      → IsTable t
      → t.max_fds < 2 ^ 30
      → t.num_fds + 1 < 2 ^ 29
      → Sized (t.num_fds + 1) (posix_add_fd_op h true p t)
  unfolding posix_add_fd_op
  posix_add_fd_op-Sized p t v small few = elim (Bool-cases (leb t.max_fds t.num_fds)) [
    | inl full ↦
        let free : ltb t.num_fds (t.max_fds * 2 % 2 ^ 32) ≡ true =
          ground (arith, v.room, v.some_room) in
        let tight : t.max_fds ≤ t.num_fds = ground arith in
        rw (full, posix_add_fd_op, free) (omega arith, omega arith)
    | inr free ↦
        let fits : ltb t.num_fds t.max_fds ≡ true = ground arith in
        rw (free, posix_add_fd_op, fits) (omega arith, small)
  ]

  module _ (t : Table) (s : RowMap) (v : Refines t s) (p : Ptr) where
    -- The rows of a table in which only that of `p` changes.
    rows-update :
        (t' : Table) (x : Option PollFd)
        → ((r : PollFd) → Row t' p r ↔ (x ≡ some r))
        → ((q : Ptr) (r : PollFd) → p ≢ q → Row t q r ↔ Row t' q r)
        → (q : Ptr) (r : PollFd) → Row t' q r ↔ (update s p x q ≡ some r)
    rows-update t' x here others q r = elim (Bool-cases (p == q)) [
      | inl same ↦
          let e : p ≡ q = ground arith in
          rw same (subst (λ z. Row t' z r ↔ (x ≡ some r)) e (here r))
      | inr other ↦
          let ne : p ≢ q = ground arith in
          rw other (
            (λ row. (v.rows q r).0 ((others q r ne).1 row)),
            (λ at. (others q r ne).0 ((v.rows q r).1 at)),
          )
    ]

    only-Row :
        (t' : Table) (x : PollFd)
        → IsTable t'
        → Row t' p x
        → (r : PollFd) → Row t' p r ↔ (some x ≡ some r)
    only-Row t' x v' row r = (
      (λ row'. ap some (Row-unique t' p x r v' row row')),
      (λ e. let same : x ≡ r = cc in subst (λ z. Row t' p z) same row),
    )

    none-Row : (t' : Table) → Absent t' p → (r : PollFd) → Row t' p r ↔ (none ≡ some r)
    none-Row t' absent r = ((λ (i, li, hi, fi). absurd (absent i li hi)), (λ e. absurd (cc)))

    pub Added-Refined :
        (res : Option Table)
        → Sized (t.num_fds + 1) res
        → Added h p t res
        → Refined (update s p (some (new_row h p))) (t.num_fds + 1) res
    Added-Refined none size added = absurd added
    Added-Refined (some t') (few, small) (v', here, others) = (
      record {
        table = v';
        rows = rows-update t' (some (new_row h p)) (only-Row t' (new_row h p) v' here) others;
        small = small;
      },
      few,
    )

    pub Deleted-Refined :
        (res : Option Table)
        → Sized (t.num_fds + 1) res
        → Deleted h p t res
        → Refined (update s p none) (t.num_fds + 1) res
    Deleted-Refined none size deleted = absurd deleted
    Deleted-Refined (some t') (few, small) (v', absent, others) = (
      record { table = v'; rows = rows-update t' none (none-Row t' absent) others; small = small },
      few,
    )

    pub posix_del_fd_op-Sized : Sized (t.num_fds + 1) (posix_del_fd_op h p t)
    unfolding posix_del_fd_op
    posix_del_fd_op-Sized = sized (find_handler t p)
      where
        sized :
            (found : Option ℕ)
            → Sized (t.num_fds + 1) (elim found [
              | none ↦ some t
              | some i ↦ some (record t {
                num_fds = t.num_fds - 1;
                fds = update t.fds i (t.fds (t.num_fds - 1));
                handlers = update t.handlers i (t.handlers (t.num_fds - 1));
              })
            ])
        sized none = (omega arith, v.small)
        sized (some i) = (omega arith, v.small)

    pub mod-Found :
        (found : Option ℕ)
        → find_handler t p ≡ found
        → Found t p found
        → Refined (map_op mod_fd_op p s) (t.num_fds + 1) (posix_mod_fd_op h p t)
    unfolding posix_mod_fd_op map_op
    mod-Found none e absent = rw (e, posix_mod_fd_op) (absent_mod (s p) refl)
      where
        absent_mod :
            (x : Option PollFd) → s p ≡ x → Refined (map_op mod_fd_op p s) (t.num_fds + 1) (some t)
        absent_mod none at = rw (at, map_op) (v, omega arith)
        absent_mod (some r) at = let (i, li, hi, fi) = (v.rows p r).1 at in absurd (absent i li hi)
    mod-Found (some i) e (lt, here) =
        let at : s p ≡ some (t.fds i) = (v.rows p (t.fds i)).0 (i, lt, here, refl) in
        let new : PollFd = record (t.fds i) { fd = h.fd_of p; events = get_event_mask h p } in
        let t' : Table = record t { fds = update t.fds i new } in
        let table : IsTable t' = record {
          room = v.table.room;
          some_room = v.table.some_room;
          fits = v.table.fits;
          unique = v.table.unique;
        } in
        let others : (q : Ptr) (r : PollFd) → p ≢ q → Row t q r ↔ Row t' q r = λ q r ne. (
          (λ (j, lj, hj, fj). (j, lj, hj, ground arith)),
          (λ (j, lj, hj, fj). (j, lj, hj, ground arith)),
        ) in
        rw (e, posix_mod_fd_op, at, map_op)
          (
            record {
              table = table;
              rows =
                  rows-update t' (some new) (only-Row t' new table (i, lt, here, ground arith))
                    others;
              small = v.small;
            },
            omega arith,
          )
