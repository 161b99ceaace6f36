-- ===== src/World/Outside.antt =====
-- Calls that change nothing of what belongs to src/aml.c.
use aml.Base.{◌≡◌}
use aml.World.{World, Cmd, ok, and_then}
use aml.World.Safe.{Safe, returns, Ends, ends}

abbrev pub set_state : {S : Type 0} → S → World S → World S
set_state x w = record w { state = x }

-- A call that returns and changes only what lies outside aml.c.
abbrev pub Outside : {S A : Type 0} → Cmd S A → Type 0
Outside {S} {A} c = (w : World S) → (a : A) × (x : S) × (c w ≡ ok a (set_state x w))

module _ {S A : Type 0} {c : Cmd S A} (P : A → World S → Type 0) (w : World S) (out : Outside c)
    (next : (a : A) (x : S) → P a (set_state x w)) where
  pub call-Safe : Safe P (c w)
  call-Safe = let (a, x, e) = out w in rw e (returns (next a x))

  pub call-Ends : Ends P (c w)
  call-Ends = let (a, x, e) = out w in rw e (ends (next a x))

-- Such a call before another.
pub then-Ends :
    {S A B : Type 0} {c : Cmd S A} (k : A → Cmd S B) (Q : B → World S → Type 0) (w : World S)
    → Outside c
    → ((a : A) (x : S) → Ends Q (k a (set_state x w)))
    → Ends Q (and_then (c w) k)
then-Ends k Q w out next = let (a, x, e) = out w in rw e (next a x)
