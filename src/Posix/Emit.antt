-- ===== src/Posix/Emit.antt =====
-- `posix_do_poll` of src/posix.c: the handlers that poll() reports are emitted.
use Prim.Native.Nat.{bit_or}
use mathlib.Core.Path.{subst}
use aml.Base.{
  sym, ◌%◌, ◌^◌, ◌++◌, ◌∷◌, [], ℕ, zero, suc, ◌+◌, ◌≡◌, ◌<◌, ◌==◌, true, not, arith, Bool-cases,
  inl, inr, Option, none, some, ◌∙◌,
}
use aml.Base.Int.{ℤ, pos, negsuc}
use aml.World.{Ptr, Obj, World, Cmd, pure, skip, fail, ◌>>=◌, ◌>>◌, load, put, when}
use aml.World.Safe
use aml.World.Safe.{Safe, returns}
use aml.World.Views.{refs}
use aml.Object.{is_handler}
use aml.Queue.{set_event_queue, aml_emit, enqueue}
use aml.Posix.{Table, Handlers, poll_events_to_aml_events}
use aml.Inv.{Held, Inv}
use aml.Inv.Refs.{find, aml_ref-then}
use aml.Inv.Events.{aml_emit-Inv}

-- The `revents` that poll() writes.
abbrev pub with_revents : Table → (ℕ → ℕ) → Table
with_revents t r = record t { fds = λ i. record (t.fds i) { revents = r i } }

module _ {S : Type 0} (h : Handlers) where
  -- The loop over the table from index `i`, with `n` places left.
  unfoldable pub emit_rows : Table → ℕ → ℕ → Cmd S (Unit {0})
  emit_rows t zero i = skip
  emit_rows t (suc n) i = do
    when (not ((t.fds i).revents == 0)) (do
      o ← load (t.handlers i)
      when (not ((t.fds i).fd == o.fd)) fail
      aml_emit (t.handlers i) (poll_events_to_aml_events h (t.fds i).revents))
    emit_rows t n (i + 1)

  abbrev pub emit_reported : Table → ℤ → Cmd S (Unit {0})
  emit_reported t (negsuc n) = skip
  emit_reported t (pos zero) = skip
  emit_reported t (pos (suc n)) = emit_rows t t.num_fds 0

  -- `poll` gives the number of descriptors and what it writes to `revents`.
  unfoldable pub posix_do_poll : Cmd S (ℤ × (ℕ → ℕ)) → Table → Cmd S (ℤ × Table)
  unfolding emit_rows
  posix_do_poll poll t = do
    (nfds, revents) ← poll
    emit_reported (with_revents t revents) nfds
    pure (nfds, with_revents t revents)

abbrev fd_of : Option Obj → Option ℕ
fd_of none = none
fd_of (some o) = some o.fd

-- The descriptors of all objects stay.
abbrev pub SameFds : {S : Type 0} → World S → World S → Type 0
SameFds w w' = (q : Ptr) → fd_of (w'.objs q) ≡ fd_of (w.objs q)

module _ {S : Type 0} where
  enqueue-SameFds :
      (w : World S) (p : Ptr) (o : Obj) → w.objs p ≡ some o → Safe (λ _. SameFds w) (enqueue p w)
  unfolding enqueue
  enqueue-SameFds w p o at =
      let o' : Obj = record o { n_events = (o.n_events + 1) % 2 ^ 32 } in
      let w1 : World S = put p o' w in
      rw (at, load)
        (elim (Bool-cases (o.n_events == 0)) [
          | inl first ↦ rw first (
              aml_ref-then (SameFds w) (set_event_queue (w.event_queue ++ p ∷ []) w1) p o'
                (ground arith) λ small q. ground arith)
          | inr more ↦
              rw more (aml_ref-then (SameFds w) w1 p o' (ground arith) λ small q. ground arith)
        ])

  aml_emit-SameFds :
      (w : World S) (p : Ptr) (revents : ℕ) (o : Obj)
      → w.objs p ≡ some o
      → Safe (λ _. SameFds w) (aml_emit p revents w)
  unfolding aml_emit
  aml_emit-SameFds w p revents o at =
      let o' : Obj = record o { revents = bit_or o.revents revents } in
      rw (at, load)
        (elim (Bool-cases (is_handler o.kind)) [
          | inl is ↦ rw is (elim (Bool-cases (o.revents == 0)) [
            | inl first ↦ rw first (
                Safe.mono (enqueue-SameFds (put p o' w) p o' (ground arith))
                  λ _ w' same q. ground (arith, same q))
            | inr more ↦ rw more (returns (λ q. ground arith))
          ])
          | inr other ↦ rw other (enqueue-SameFds w p o at)
        ])

-- The rows from index `i` on are those of live objects that are held, with their descriptors.
abbrev pub RowsHeld : {S : Type 0} → Held → Table → World S → Type 0
RowsHeld held t w =
    (i : ℕ)
    → i < t.num_fds
    → (0 < held (t.handlers i)) × (fd_of (w.objs (t.handlers i)) ≡ some (t.fds i).fd)

module _ {S : Type 0} (h : Handlers) {loop : Ptr} {held : Held} (t : Table) where
  emit_row-Inv :
      (i : ℕ) (w : World S)
      → Inv loop held w
      → RowsHeld held t w
      → i < t.num_fds
      → Safe
          (λ _ w'. Inv loop held w' × SameFds w w')
          (aml_emit (t.handlers i) (poll_events_to_aml_events h (t.fds i).revents) w)
  emit_row-Inv i w v rows lt =
      let live : 0 < refs w (t.handlers i) =
        ground (arith, rows i, v.core.balance (t.handlers i)) in
      let (o, at) = find {p = t.handlers i} v.core live in
      Safe.both (aml_emit-Inv v (t.handlers i) _ live) (aml_emit-SameFds w (t.handlers i) _ o at)

  emit_rows-Inv :
      (n i : ℕ) (w : World S)
      → Inv loop held w
      → RowsHeld held t w
      → i + n ≡ t.num_fds
      → Safe (λ _ w'. Inv loop held w') (emit_rows h t n i w)
  unfolding emit_rows
  emit_rows-Inv zero i w v rows e = returns v
  emit_rows-Inv (suc n) i w v rows e = elim (Bool-cases ((t.fds i).revents == 0)) [
    | inl quiet ↦ rw quiet (emit_rows-Inv n (i + 1) w v rows (omega arith))
    | inr ready ↦
        let live : 0 < refs w (t.handlers i) =
          ground (arith, rows i, v.core.balance (t.handlers i)) in
        let (o, at) = find {p = t.handlers i} v.core live in
        let same : ((t.fds i).fd == o.fd) ≡ true = ground (arith, rows i) in
        rw (ready, at, load, same)
          (Safe.bind (emit_row-Inv i w v rows (omega arith)) λ _ w' (v', fds).
            emit_rows-Inv n (i + 1) w' v'
              (λ j lt. (ground (arith, rows j), fds (t.handlers j) ∙ (rows j lt).1)) (omega arith))
  ]

  emit_reported-Inv :
      (nfds : ℤ) (w : World S)
      → Inv loop held w
      → RowsHeld held t w
      → Safe (λ _ w'. Inv loop held w') (emit_reported h t nfds w)
  emit_reported-Inv (negsuc n) w v rows = returns v
  emit_reported-Inv (pos zero) w v rows = returns v
  emit_reported-Inv (pos (suc n)) w v rows = emit_rows-Inv t.num_fds 0 w v rows (omega arith)

module _ {S : Type 0} (h : Handlers) {loop : Ptr} {held : Held} where
  -- From a store that satisfies the invariant, if each row of the poll table is that of a held
  -- object and has its descriptor, and poll() leaves the store alone, posix_do_poll never faults,
  -- its assertion included, and unless a reference count would pass INT_MAX the invariant is kept.
  pub posix_do_poll-Inv :
      (poll : Cmd S (ℤ × (ℕ → ℕ))) (t : Table) (w : World S)
      → Inv loop held w
      → RowsHeld held t w
      → Safe (λ _ w'. w' ≡ w) (poll w)
      → Safe (λ _ w'. Inv loop held w') (posix_do_poll h poll t w)
  unfolding posix_do_poll
  posix_do_poll-Inv poll t w v rows quiet = Safe.bind quiet λ (nfds, r) w' same.
      Safe.bind
        (emit_reported-Inv h (with_revents t r) nfds w' (subst (Inv loop held) (sym same) v)
          (subst (RowsHeld held t) (sym same) rows))
        λ _ w'' v''. returns v''
