-- ===== src/Ending/Loop.antt =====
-- `aml_unref` of src/aml.c on the last reference to a loop.
use aml.Base.{◌+◌, ◌-◌, ◌≡◌, ◌≢◌, none, []}
use aml.World.{Ptr, World}
use aml.World.Env.{Env}
use aml.World.Views.{refs, events}
use aml.World.Outside.{Outside}
use aml.Inv.{Held, Inv}
use aml.Ending.Ledger.{Ledger}

-- The loop is gone, with nothing on its lists; each other object has the references of its users left,
-- and one for each of its pending events but one.
pub record Ended {S : Type 0} (loop : Ptr) (held : Held) (w w' : World S) : Type 0 where
  pub gone : w'.objs loop ≡ none
  pub left : (q : Ptr) → q ≢ loop → refs w' q ≡ held q + (events w q - 1)
  pub obj_list : w'.obj_list ≡ []
  pub timer_list : w'.timer_list ≡ []
  pub idle_list : w'.idle_list ≡ []
  pub event_queue : w'.event_queue ≡ []
