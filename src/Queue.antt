-- ===== src/Queue.antt =====
-- The event queue of src/aml.c: `aml_emit` and `aml__event_dequeue`. An object stands in the queue
-- once, with the number of its pending events in `n_events`.
pub mod Agenda
use Prim.Native.Nat.{bit_or}
use aml.Base.{ℕ, ◌+◌, ◌-◌, ◌%◌, ◌^◌, Option, none, some, List, [], ◌∷◌, ◌++◌, ◌==◌, if◌then◌else◌}
use aml.World.{Ptr, World, Cmd, pure, skip, ◌>>=◌, ◌>>◌, load, store, get, modify, unlink, when}
use aml.Object.{is_handler}
use aml.Ref.{aml_ref}

module _ {S : Type 0} where
  abbrev pub set_event_queue : List Ptr → World S → World S
  set_event_queue l w = record w { event_queue = l }

  -- The critical section of `aml_emit`.
  unfoldable pub enqueue : Ptr → Cmd S (Unit {0})
  enqueue p = do
    o ← load p
    store p (record o { n_events = (o.n_events + 1) % 2 ^ 32 })
    when (o.n_events == 0) (modify (λ w. set_event_queue (w.event_queue ++ p ∷ []) w))
    aml_ref p
    skip

  -- A handler whose `revents` were not yet taken up is queued already.
  unfoldable pub aml_emit : Ptr → ℕ → Cmd S (Unit {0})
  aml_emit p revents = do
    o ← load p
    if is_handler o.kind
        then (do
          store p (record o { revents = bit_or o.revents revents })
          when (o.revents == 0) (enqueue p))
        else enqueue p

  abbrev pub take_event : List Ptr → Cmd S (Option Ptr)
  take_event [] = pure none
  take_event (p ∷ rest) = do
    o ← load p
    let n = (o.n_events + 2 ^ 32 - 1) % 2 ^ 32
    store p (record o { n_events = n })
    when (n == 0) (unlink p (p ∷ rest) set_event_queue)
    pure (some p)

  unfoldable pub event_dequeue : Cmd S (Option Ptr)
  event_dequeue = do q ← get (λ w. w.event_queue); take_event q
