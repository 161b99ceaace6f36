-- ===== src/Queue/Agenda.antt =====
-- What the event queue of src/aml.c is for its users: an agenda of objects, each with the number of its
-- pending events, first come first served; and what was reported of each handler.
use Prim.Native.Nat.{bit_or}
use aml.Base.{ℕ, ◌+◌, ◌-◌, Bool, true, Option, none, some, List, [], ◌∷◌, ◌==◌, if◌then◌else◌}
use aml.World.{Ptr, Cmd, pure, ◌>>=◌, ◌>>◌, update}
use aml.Queue.{aml_emit, event_dequeue}

pub record Agenda : Type 0 where
  pub pending : List (Ptr × ℕ)
  pub revents : Ptr → ℕ

abbrev pub add : Ptr → List (Ptr × ℕ) → List (Ptr × ℕ)
add p [] = (p, 1) ∷ []
add p ((q, n) ∷ rest) = if q == p then (q, n + 1) ∷ rest else (q, n) ∷ add p rest

abbrev pub take : List (Ptr × ℕ) → Option Ptr × List (Ptr × ℕ)
take [] = (none, [])
take ((q, n) ∷ rest) = (some q, if n - 1 == 0 then rest else (q, n - 1) ∷ rest)

-- A handler that has something to report is not entered again.
abbrev pub emit_to : (handler : Bool) → Ptr → ℕ → Agenda → Agenda
emit_to handler p revents a = record {
  pending = if (if handler then a.revents p == 0 else true) then add p a.pending else a.pending;
  revents = if handler then update a.revents p (bit_or (a.revents p) revents) else a.revents;
}

-- What the users of the queue do, in any order.
pub data Op : Type 0 where
  emit : (p : Ptr) (revents : ℕ) → Op
  dequeue : Op

abbrev pub replay : (handler : Ptr → Bool) → List Op → Agenda → List (Option Ptr) × Agenda
replay handler [] a = ([], a)
replay handler (emit p revents ∷ ops) a = replay handler ops (emit_to (handler p) p revents a)
replay handler (dequeue ∷ ops) a =
    let (r, pending) = take a.pending in
    let (rs, a') = replay handler ops (record a { pending = pending }) in (r ∷ rs, a')

-- The same with the functions of src/aml.c.
unfoldable pub run_ops : {S : Type 0} → List Op → Cmd S (List (Option Ptr))
run_ops [] = pure []
run_ops (emit p revents ∷ ops) = do aml_emit p revents; run_ops ops
run_ops (dequeue ∷ ops) = do r ← event_dequeue; rs ← run_ops ops; pure (r ∷ rs)
