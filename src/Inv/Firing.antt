-- ===== src/Inv/Firing.antt =====
-- The firings that are left to `while (aml__handle_timeout(self, now));`, which each round lowers.
use native.Mathlib.Nat.{div-eq-sub-div}
use aml.Base.{
  ℕ, sym, ◌/◌, ◌%◌, Bool-cases, inl, inr, ◌+◌, ◌-◌, ◌^◌, ◌≤◌, ◌<◌, ◌≡◌, ◌≢◌, true, false, Option,
  none, some, List, [], ◌∷◌, arith, ◌==◌, ltb, if◌then◌else◌, count, refl,
}
use aml.World.{Ptr, ObjType, timer, ticker, Obj, World}
use aml.Object.{is_timer, is_ticker}
use aml.Inv.{Held, Inv}
use aml.Inv.Events.{emitted}
use aml.Inv.Timeouts.{fired, Fired, Due}

-- The times that a due object can fire up to `now`: a ticker once at its deadline and once for each
-- period since.
abbrev firings_kind : ℕ → ObjType → Obj → ℕ
firings_kind now ticker o = (now - o.deadline) / o.timeout + 1
firings_kind now _ o = 1

abbrev pub firings : ℕ → Option Obj → ℕ
firings now none = 0
firings now (some o) =
    if o.expired then 0 else if ltb now o.deadline then 0 else firings_kind now o.kind o

abbrev pub total_firings : {S : Type 0} → ℕ → World S → List Ptr → ℕ
total_firings now w [] = 0
total_firings now w (p ∷ ps) = firings now (w.objs p) + total_firings now w ps

module _ {S : Type 0} (now : ℕ) (w : World S) where
  -- Started tickers that have not expired have a period, which does not carry a deadline past 2^64.
  abbrev pub IsPeriodic : Type 0
  IsPeriodic =
      (q : Ptr) (x : Obj)
      → 0 < count q w.timer_list
      → w.objs q ≡ some x
      → is_ticker x.kind ≡ true
      → x.expired ≡ false
      → (0 < x.timeout) × (now + x.timeout < 2 ^ 64)

module _ {S : Type 0} (now : ℕ) (w w' : World S) (p : Ptr) where
  total-le :
      (ps : List Ptr)
      → ((q : Ptr) → p ≢ q → w'.objs q ≡ w.objs q)
      → firings now (w'.objs p) < firings now (w.objs p)
      → total_firings now w' ps + (if count p ps == 0 then 0 else 1) ≤ total_firings now w ps
  total-le [] others less = omega arith
  total-le (q ∷ ps) others less = ground (arith, total-le ps others less, others q)

periods_left :
    (now deadline period : ℕ)
    → 0 < period
    → deadline + period ≤ now
    → (now - (deadline + period)) / period + 1 ≡ (now - deadline) / period
periods_left now deadline period some_period again =
    let same : now - (deadline + period) ≡ now - deadline - period = omega arith in
    rw same (sym (div-eq-sub-div some_period (omega arith)))

-- One period later there is one firing less.
ticker_less :
    (now : ℕ) (o : Obj)
    → o.kind ≡ ticker
    → o.expired ≡ false
    → o.deadline ≤ now
    → (0 < o.timeout) × (now + o.timeout < 2 ^ 64)
    → firings now (some (fired ticker (emitted o))) < firings now (some o)
ticker_less now o e a d (period, small) =
    let next : (o.deadline + o.timeout) % 2 ^ 64 ≡ o.deadline + o.timeout = omega arith in
    let due : ltb now o.deadline ≡ false = ground arith in
    elim (Bool-cases (ltb now (o.deadline + o.timeout))) [
      | inl later ↦ rw (e, a, next, due, later) (omega arith)
      | inr again ↦
          let less = periods_left now o.deadline o.timeout period (ground arith) in
          rw (e, a, next, due, again) (omega (arith, less))
    ]

fired_less :
    (now : ℕ) (k : ObjType) (o : Obj)
    → o.kind ≡ k
    → is_timer k ≡ true
    → o.expired ≡ false
    → o.deadline ≤ now
    → (is_ticker k ≡ true → (0 < o.timeout) × (now + o.timeout < 2 ^ 64))
    → firings now (some (fired k (emitted o))) < firings now (some o)
fired_less now timer o e t a d periodic = ground arith
fired_less now ticker o e t a d periodic = ticker_less now o e a d (periodic refl)
fired_less now _ o e t a d periodic = absurd (ground arith)

fired_same :
    (k : ObjType) (o : Obj) → ((fired k o).kind ≡ o.kind) × ((fired k o).timeout ≡ o.timeout)
fired_same timer o = (refl, refl)
fired_same _ o = (refl, refl)

module _ {S : Type 0} {loop : Ptr} {held : Held} {now : ℕ} {w w' : World S} (v : Inv loop held w)
    (periodic : IsPeriodic now w) (d : Due now w) (f : Fired d.timer d.obj w w') where
  due_timer : is_timer d.obj.kind ≡ true
  due_timer = ground (arith, v.timers d.timer, d.at, d.listed)

  -- Firing lowers the bound.
  pub firings-Fired : total_firings now w' w'.timer_list < total_firings now w w.timer_list
  firings-Fired =
      let less =
        fired_less now d.obj.kind d.obj refl due_timer d.active d.due
          (λ t. periodic d.timer d.obj d.listed d.at t d.active) in
      rw f.timer_list (
        ground (
          arith,
          d.listed,
          total-le now w w' d.timer w.timer_list f.others (rw (f.here, d.at) less),
        ))

  pub IsPeriodic-Fired : IsPeriodic now w'
  IsPeriodic-Fired q x n at t a = ground (
    arith,
    f.timer_list,
    f.here,
    f.others q,
    d.at,
    d.listed,
    fired_same d.obj.kind (emitted d.obj),
    periodic q x,
    periodic d.timer d.obj,
  )
