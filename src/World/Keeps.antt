-- ===== src/World/Keeps.antt =====
-- Commands of src/aml.c that leave one weak reference as it is, if they return.
use aml.Base.{ℕ, ◌≡◌, ◌∙◌, Bool, true, false, Option, none, some, refl, ltb, if◌then◌else◌}
use aml.World.{
  Ptr, Obj, World, Run, ok, fault, overflow, out_of_fuel, Cmd, pure, ◌>>=◌, load, store, guard_int,
  int_limit,
}
use aml.World.Safe.{Safe, returns, overflows, IfOk, bind-IfOk}

pub record Keeps {S A : Type 0} (r : Ptr) (c : Cmd S A) : Type 0 where
  pub keeps : (w : World S) → IfOk (λ _ w'. w'.weak r ≡ w.weak r) (c w)

module _ {S A : Type 0} where
  pub with_IfOk :
      {P Q : A → World S → Type 0} {run : Run S A}
      → Safe P run
      → IfOk Q run
      → Safe (λ a w. P a w × Q a w) run
  with_IfOk (returns p) q = returns (p, q)
  with_IfOk overflows q = overflows

module _ {S B : Type 0} (r : Ptr) where
  IfOk-trans :
      (w w1 : World S) (run : Run S B)
      → w1.weak r ≡ w.weak r
      → IfOk (λ _ w'. w'.weak r ≡ w1.weak r) run
      → IfOk (λ _ w'. w'.weak r ≡ w.weak r) run
  IfOk-trans w w1 (ok a w2) same e = e ∙ same
  IfOk-trans w w1 fault same e = tt
  IfOk-trans w w1 overflow same e = tt
  IfOk-trans w w1 out_of_fuel same e = tt

module _ {S : Type 0} {r : Ptr} where
  pub bind-Keeps :
      {A B : Type 0} {m : Cmd S A} {k : A → Cmd S B}
      → Keeps r m
      → ((a : A) → Keeps r (k a))
      → Keeps r (m >>= k)
  bind-Keeps {A} {B} {m} {k} f g = record {
    keeps = λ w.
        bind-IfOk (λ _ w'. w'.weak r ≡ w.weak r) (λ _ w'. w'.weak r ≡ w.weak r) (m w) k (f.keeps w)
          λ a w1 same. IfOk-trans r w w1 (k a w1) same ((g a).keeps w1);
  }

  pub pure-Keeps : {A : Type 0} {a : A} → Keeps {S = S} r (pure a)
  pure-Keeps = record { keeps = λ w. refl }

  pub store-Keeps : (p : Ptr) (o : Obj) → Keeps {S = S} r (store p o)
  store-Keeps p o = record { keeps = λ w. refl }

  pub load-Keeps : (p : Ptr) → Keeps {S = S} r (load p)
  load-Keeps p = record { keeps = λ w. loaded w (w.objs p) }
    where
      loaded :
          (w : World S) (x : Option Obj)
          → IfOk
              (λ _ w'. w'.weak r ≡ w.weak r)
              (elim x as (λ _. Run S Obj) [ none ↦ fault | some o ↦ ok o w ])
      loaded w none = tt
      loaded w (some o) = refl

  pub guard_int-Keeps : (n : ℕ) → Keeps {S = S} r (guard_int n)
  guard_int-Keeps n = record { keeps = λ w. guarded w (ltb n int_limit) }
    where
      guarded :
          (w : World S) (b : Bool)
          → IfOk (λ _ w'. w'.weak r ≡ w.weak r) (if b then ok tt w else overflow)
      guarded w true = refl
      guarded w false = tt

  pub if-Keeps :
      {A : Type 0} {c d : Cmd S A} (b : Bool) → Keeps r c → Keeps r d → Keeps r (if b then c else d)
  if-Keeps true f g = f
  if-Keeps false f g = g
