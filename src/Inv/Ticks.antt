-- ===== src/Inv/Ticks.antt =====
-- What `while (aml__handle_timeout(self, now));` does to each timer: how often it has fired, and where
-- its deadline stands then.
use native.Mathlib.Nat.{suc-mul}
use aml.Base.{
  ℕ, zero, suc, ◌+◌, ◌*◌, ◌%◌, ◌^◌, ◌≤◌, ◌<◌, ◌≡◌, ◌∙◌, ap, true, false, Bool, some, arith, ◌==◌,
  count, refl, sym, inl, inr, ◌⊎◌, Bool-cases, eq_of_test,
}
use aml.World.{Ptr, ObjType, timer, ticker, Obj, World, when}
use aml.Object.{is_timer, is_ticker}
use aml.World.Safe
use aml.World.Safe.{Safe, returns}
use aml.Timer.{handle_timeouts, uint64_max}
use aml.Inv.{Held, Inv}
use aml.Inv.Events.{emitted}
use aml.Inv.Timeouts.{fired, Fired, NothingDue, Due, handle_timeout-AfterTimeout}
use aml.Inv.Firing.{IsPeriodic, total_firings, firings-Fired, IsPeriodic-Fired}

-- From `x` to `x'` up to `now`: nothing; a timer fires once and expires; a ticker fires `k` times, the
-- last time for a deadline that is not after `now`.
pub data Caught (now : ℕ) (x x' : Obj) : Type 0 where
  still : x' ≡ x → Caught now x x'
  expires :
      is_ticker x.kind ≡ false
      → x.expired ≡ false
      → x.deadline ≤ now
      → x' ≡ record (emitted x) { expired = true }
      → Caught now x x'
  ticks :
      (k n_events ref deadline : ℕ)
      → is_ticker x.kind ≡ true
      → x.expired ≡ false
      → 0 < k
      → deadline ≤ now + x.timeout
      → deadline ≡ x.deadline + k * x.timeout
      → n_events ≡ x.n_events + k
      → ref ≡ x.ref + k
      → x' ≡ record x { n_events = n_events; ref = ref; deadline = deadline }
      → Caught now x x'

-- One firing of a due timer, and then what follows.
Caught-fired :
    (now : ℕ) (x x' : Obj) (kind : ObjType)
    → x.kind ≡ kind
    → is_timer kind ≡ true
    → x.expired ≡ false
    → x.deadline ≤ now
    → (is_ticker kind ≡ true → now + x.timeout < 2 ^ 64)
    → Caught now (fired kind (emitted x)) x'
    → Caught now x x'
Caught-fired now x x' timer e is active due fits (still same) =
    expires (ground arith) active due same
Caught-fired now x x' timer e is active due fits (expires plain again d same) = absurd (cc)
Caught-fired now x x' timer e is active due fits (ticks k n r d t again more le ed en er same) =
    absurd (cc)
Caught-fired now x x' ticker e is active due fits (still same) =
    ticks 1 (x.n_events + 1) (x.ref + 1) ((x.deadline + x.timeout) % 2 ^ 64) (ground arith) active
      (omega arith) (omega (arith, fits refl)) (omega (arith, fits refl)) refl refl same
Caught-fired now x x' ticker e is active due fits (expires plain again d same) =
    absurd (ground arith)
Caught-fired now x x' ticker e is active due fits (ticks k n r d t again more le ed en er same) =
    ticks (suc k) n r d (ground arith) active (omega arith) le
      (omega (arith, ed, suc-mul k x.timeout, fits refl)) (omega arith) (omega arith) same
Caught-fired now x x' _ e is active due fits c = absurd (ground arith)

module _ {S : Type 0} (now : ℕ) (w w' : World S) where
  -- Every listed timer is caught up, and every other object stays as it is.
  pub record CaughtUp : Type 0 where
    pub timer_list : w'.timer_list ≡ w.timer_list
    pub listed :
        (q : Ptr) (x : Obj)
        → 0 < count q w.timer_list
        → w.objs q ≡ some x
        → (x' : Obj) × (w'.objs q ≡ some x') × Caught now x x'
    pub others : (q : Ptr) → count q w.timer_list ≡ 0 → w'.objs q ≡ w.objs q

CaughtUp-refl : {S : Type 0} (now : ℕ) (w : World S) → CaughtUp now w w
CaughtUp-refl now w = record {
  timer_list = refl;
  listed = λ q x n at. (x, at, still refl);
  others = λ q n. refl;
}

module _ {S : Type 0} {loop : Ptr} {held : Held} {now : ℕ} {w w1 : World S} (v : Inv loop held w)
    (periodic : IsPeriodic now w) (d : Due now w) (f : Fired d.timer d.obj w w1) where
  CaughtUp-Fired : (w' : World S) → CaughtUp now w1 w' → CaughtUp now w w'
  CaughtUp-Fired w' c = record {
    timer_list = c.timer_list ∙ f.timer_list;
    listed = λ q x n at. elim (Bool-cases (d.timer == q)) [
      | inl e ↦ first q x n at (eq_of_test d.timer q e)
      | inr ne ↦ c.listed q x (rw f.timer_list n) (f.others q (ground arith) ∙ at)
    ];
    others =
        λ q n. c.others q (ap (count q) f.timer_list ∙ n) ∙ f.others q (ground (arith, d.listed));
  }
    where
      first :
          (q : Ptr) (x : Obj)
          → 0 < count q w.timer_list
          → w.objs q ≡ some x
          → d.timer ≡ q
          → (x' : Obj) × (w'.objs q ≡ some x') × Caught now x x'
      first q x n at e =
          let (x', at', c') = c.listed d.timer _ (rw f.timer_list d.listed) f.here in
          let same : x ≡ d.obj = cc in
          let is : is_timer d.obj.kind ≡ true = ground (arith, v.timers d.timer, d.at, d.listed) in
          let caught : Caught now d.obj x' =
            Caught-fired now d.obj x' d.obj.kind refl is d.active d.due
              (λ t. (periodic d.timer d.obj d.listed d.at t d.active).1) c' in
          (x', ap w'.objs (sym e) ∙ at', rw same caught)

abbrev Done : {S : Type 0} → Ptr → Held → ℕ → World S → World S → Type 0
Done loop held now w w' = Inv loop held w' × NothingDue now w' × CaughtUp now w w'

module _ {S : Type 0} {loop : Ptr} {held : Held} (now : ℕ) where
  -- From a store that satisfies the invariant, at a time now below UINT64_MAX, where each
  -- started ticker that has not expired has a period other than 0 with now + period below 2^64,
  -- and with fuel above the number of firings that are due, the loop of aml__handle_timeout in
  -- aml_dispatch ends without a fault, unless a reference count would pass INT_MAX: the
  -- invariant holds and nothing is due; of the listed timers, each that is no ticker is as it
  -- was or has fired once and expired, each ticker is as it was or has fired k times, with k
  -- events and references more, its deadline k periods later and at most one period after now;
  -- every other object is as it was.
  pub handle_timeouts-CaughtUp :
      (fuel : ℕ) {w : World S}
      → Inv loop held w
      → now < uint64_max
      → IsPeriodic now w
      → total_firings now w w.timer_list < fuel
      → Safe
          (λ _ w'. Inv loop held w' × NothingDue now w' × CaughtUp now w w')
          (handle_timeouts fuel now w)
  unfolding handle_timeouts
  handle_timeouts-CaughtUp zero v bound periodic enough = absurd (omega arith)
  handle_timeouts-CaughtUp (suc fuel) {w} v bound periodic enough =
      Safe.bind (handle_timeout-AfterTimeout now v bound) λ more w' (v', after).
        next (λ w'' v'' q e. handle_timeouts-CaughtUp fuel v'' bound q e) more w' v' after
    where
      next :
          ((w' : World S)
            → Inv loop held w'
            → IsPeriodic now w'
            → total_firings now w' w'.timer_list < fuel
            → Safe (λ _. Done loop held now w') (handle_timeouts fuel now w'))
          → (more : Bool) (w' : World S) → Inv loop held w'
          → ((more ≡ false) × (w' ≡ w) × NothingDue now w)
            ⊎ ((more ≡ true) × (d : Due now w) × Fired d.timer d.obj w w')
          → Safe (λ _. Done loop held now w) (when more (handle_timeouts fuel now) w')
      next ih more w' v' (inl (e, same, quiet)) =
          rw e (returns (v', rw same quiet, rw same (CaughtUp-refl now w)))
      next ih more w' v' (inr (e, d, f)) = rw e (
          Safe.mono
            (ih w' v' (IsPeriodic-Fired v periodic d f)
              (omega (arith, firings-Fired v periodic d f)))
            λ _ w'' (v'', quiet, c). (v'', quiet, CaughtUp-Fired v periodic d f w'' c))
