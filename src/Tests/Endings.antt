-- ===== src/Tests/Endings.antt =====
-- The event queue as an agenda, and the end of the loop, at the store of `Tests.Store`.
use aml.Base.{Bool, List, [], ◌∷◌, ◌==◌, if◌then◌else◌, arith, refl}
use aml.World.{Ptr}
use aml.World.Safe.{Safe}
use aml.Queue.Agenda.{Agenda, Op, emit, dequeue, run_ops}
use aml.Inv.{Held, ◌⊕◌, Inv}
use aml.Inv.Agenda.{Sees, Replayed, run_ops-replay}
use aml.Tests.Store.{world, nobody, user, world-Inv}

-- The ticker and the handler twice, between dequeues.
abbrev ops : List Op
ops =
    emit 3 0 ∷ emit 4 1 ∷ dequeue ∷ emit 4 2 ∷ emit 3 0 ∷ dequeue ∷ dequeue ∷ dequeue ∷ dequeue ∷ []

abbrev agenda : Agenda
agenda = record { pending = (2, 1) ∷ []; revents = λ p. 0 }

abbrev handler : Ptr → Bool
handler p = p == 4

world-Sees : Sees handler agenda world
world-Sees = record { kinds = λ p. ground arith; pending = refl; revents = λ p h. ground arith }

run_ops-replay_example : Safe (Replayed 1 handler ops (nobody ⊕ user) agenda) (run_ops ops world)
run_ops-replay_example =
    run_ops-replay ops (nobody ⊕ user) world agenda world-Inv world-Sees (omega arith)

-- The user without the loop.
abbrev others : Held
others p = if p == 1 then 0 else user p
