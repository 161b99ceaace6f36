-- ===== src/World/Safe.antt =====
-- What a run may do. `Safe`: it ends with a postcondition, or a reference count reaches its limit; it
-- neither faults nor runs out of fuel. `Partial`: the same, but the fuel may run out.
use aml.Base.{ℕ, suc, ◌≤◌, ◌<◌, arith}
use aml.World.{World, Run, ok, fault, overflow, out_of_fuel, Cmd, and_then, skip}

pub data Safe {S A : Type 0} (P : A → World S → Type 0) : Run S A → Type 0 where
  returns : {a : A} {w : World S} → P a w → Safe P (ok a w)
  overflows : Safe P overflow

pub data Partial {S A : Type 0} (P : A → World S → Type 0) : Run S A → Type 0 where
  done : {a : A} {w : World S} → P a w → Partial P (ok a w)
  stops : Partial P overflow
  starves : Partial P out_of_fuel

module _ {S A : Type 0} {P : A → World S → Type 0} where
  pub bind :
      {B : Type 0} {Q : B → World S → Type 0} {r : Run S A} {k : A → Cmd S B}
      → Safe P r
      → ((a : A) (w : World S) → P a w → Safe Q (k a w))
      → Safe Q (and_then r k)
  bind (returns p) next = next _ _ p
  bind overflows next = overflows

  pub mono :
      {Q : A → World S → Type 0} {r : Run S A}
      → Safe P r
      → ((a : A) (w : World S) → P a w → Q a w)
      → Safe Q r
  mono (returns p) weaken = returns (weaken _ _ p)
  mono overflows weaken = overflows

  pub bind-Partial :
      {B : Type 0} {Q : B → World S → Type 0} {r : Run S A} {k : A → Cmd S B}
      → Partial P r
      → ((a : A) (w : World S) → P a w → Partial Q (k a w))
      → Partial Q (and_then r k)
  bind-Partial (done p) next = next _ _ p
  bind-Partial stops next = stops
  bind-Partial starves next = starves

  pub Safe-Partial : {r : Run S A} → Safe P r → Partial P r
  Safe-Partial (returns p) = done p
  Safe-Partial overflows = stops

  -- Two postconditions of one run.
  pub both :
      {Q : A → World S → Type 0} {r : Run S A} → Safe P r → Safe Q r → Safe (λ a w. P a w × Q a w) r
  both (returns p) (returns q) = returns (p, q)
  both overflows overflows = overflows

-- A postcondition of a run that returns; it says nothing of any other.
abbrev pub IfOk : {S A : Type 0} → (A → World S → Type 0) → Run S A → Type 0
IfOk P (ok a w) = P a w
IfOk P fault = Unit {0}
IfOk P overflow = Unit {0}
IfOk P out_of_fuel = Unit {0}

pub bind-IfOk :
    {S A B : Type 0} (P : A → World S → Type 0) (Q : B → World S → Type 0) (r : Run S A)
    (k : A → Cmd S B)
    → IfOk P r
    → ((a : A) (w : World S) → P a w → IfOk Q (k a w))
    → IfOk Q (and_then r k)
bind-IfOk P Q (ok a w) k p next = next a w p
bind-IfOk P Q fault k p next = tt
bind-IfOk P Q overflow k p next = tt
bind-IfOk P Q out_of_fuel k p next = tt

pub IfOk-all :
    {S A : Type 0} (P : A → World S → Type 0) (r : Run S A)
    → ((a : A) (w : World S) → P a w)
    → IfOk P r
IfOk-all P (ok a w) p = p a w
IfOk-all P fault p = tt
IfOk-all P overflow p = tt
IfOk-all P out_of_fuel p = tt

pub IfOk-any : {S A : Type 0} (r : Run S A) → IfOk (λ _ _. Unit {0}) r
IfOk-any (ok a w) = tt
IfOk-any fault = tt
IfOk-any overflow = tt
IfOk-any out_of_fuel = tt

-- A run that may run out of fuel only where the fuel is not above `n`.
pub data Within {S A : Type 0} (n fuel : ℕ) (P : A → World S → Type 0) : Run S A → Type 0 where
  ends : {a : A} {w : World S} → P a w → Within n fuel P (ok a w)
  passes : Within n fuel P overflow
  falls_short : fuel ≤ n → Within n fuel P out_of_fuel

module _ {S A : Type 0} {n fuel : ℕ} {P : A → World S → Type 0} where
  pub Within-Partial : {r : Run S A} → Within n fuel P r → Partial P r
  Within-Partial (ends p) = done p
  Within-Partial passes = stops
  Within-Partial (falls_short short) = starves

  pub Within-Safe : {r : Run S A} → n < fuel → Within n fuel P r → Safe P r
  Within-Safe enough (ends p) = returns p
  Within-Safe enough passes = overflows
  Within-Safe enough (falls_short short) = absurd (omega arith)

  pub Within-suc : {r : Run S A} → Within n fuel P r → Within (suc n) (suc fuel) P r
  Within-suc (ends p) = ends p
  Within-suc passes = passes
  Within-suc (falls_short short) = falls_short (omega arith)

pub bind-Within :
    {S A B : Type 0} {n fuel : ℕ} {P : A → World S → Type 0} {Q : B → World S → Type 0}
    {r : Run S A} {k : A → Cmd S B}
    → Safe P r
    → ((a : A) (w : World S) → P a w → Within n fuel Q (k a w))
    → Within n fuel Q (and_then r k)
bind-Within (returns p) next = next _ _ p
bind-Within overflows next = passes

-- A run that returns, with a postcondition.
pub data Ends {S A : Type 0} (P : A → World S → Type 0) : Run S A → Type 0 where
  ends : {a : A} {w : World S} → P a w → Ends P (ok a w)

module _ {S A : Type 0} {P : A → World S → Type 0} where
  pub bind-Ends :
      {B : Type 0} {Q : B → World S → Type 0} {r : Run S A} {k : A → Cmd S B}
      → Ends P r
      → ((a : A) (w : World S) → P a w → Ends Q (k a w))
      → Ends Q (and_then r k)
  bind-Ends (ends p) next = next _ _ p

  pub mono-Ends :
      {Q : A → World S → Type 0} {r : Run S A}
      → Ends P r
      → ((a : A) (w : World S) → P a w → Q a w)
      → Ends Q r
  mono-Ends (ends p) weaken = ends (weaken _ _ p)

  pub Ends-Safe : {r : Run S A} → Ends P r → Safe P r
  Ends-Safe (ends p) = returns p

-- A result that is not used.
pub discard-Ends :
    {S A : Type 0} {P : World S → Type 0} {r : Run S A}
    → Ends (λ _. P) r
    → Ends (λ _. P) (and_then r (λ _. skip))
discard-Ends (ends p) = ends p
