-- ===== src/Timer/Earliest.antt =====
-- What `aml__get_timer_with_earliest_deadline` finds.
use aml.Base.{
  ℕ, ◌≤◌, ◌<◌, ◌≡◌, ◌⊎◌, inl, inr, true, false, Option, none, some, List, [], ◌∷◌, arith, count,
  refl, Bool-cases, Option-cases,
}
use aml.World.{Ptr, Obj, World, ok, load}
use aml.World.Views.{refs}
use aml.Timer.{scan_timers, get_timer_with_earliest_deadline, is_earlier, uint64_max}

module _ {S : Type 0} (w : World S) where
  -- No timer in the list that has not expired is due before `d`.
  abbrev pub NoneBefore : List Ptr → ℕ → Type 0
  NoneBefore ps d =
      (q : Ptr) (x : Obj) → 0 < count q ps → w.objs q ≡ some x → x.expired ≡ false → d ≤ x.deadline

  abbrev pub AllLive : List Ptr → Type 0
  AllLive ps = (q : Ptr) → 0 < count q ps → 0 < refs w q

  pub record Earliest (ps : List Ptr) (d : ℕ) (p : Ptr) : Type 0 where
    pub obj : Obj
    pub at : w.objs p ≡ some obj
    pub listed : 0 < count p ps
    pub active : obj.expired ≡ false
    pub before : obj.deadline < d
    pub least : NoneBefore ps obj.deadline

  -- From the best so far, `r` with deadline `d`.
  abbrev Best : List Ptr → ℕ → Option Ptr → Option Ptr → Type 0
  Best ps d r res = ((res ≡ r) × NoneBefore ps d) ⊎ ((p : Ptr) × (res ≡ some p) × Earliest ps d p)

  module _ (p : Ptr) (o : Obj) (at : w.objs p ≡ some o) (ps : List Ptr) where
    NoneBefore-cons :
        (d : ℕ) → (o.expired ≡ false → d ≤ o.deadline) → NoneBefore ps d → NoneBefore (p ∷ ps) d
    NoneBefore-cons d h tail q x n e a = ground (arith, tail q x)

    Earliest-cons :
        (d c : ℕ) (q : Ptr)
        → (e : Earliest ps d q) → d ≤ c
        → (o.expired ≡ false → e.obj.deadline ≤ o.deadline)
        → Earliest (p ∷ ps) c q
    Earliest-cons d c q e le h = record {
      obj = e.obj;
      at = e.at;
      listed = ground (arith, e.listed);
      active = e.active;
      before = omega (arith, e.before);
      least = NoneBefore-cons e.obj.deadline h e.least;
    }

    Earliest-head :
        (d : ℕ) → is_earlier o d ≡ true → NoneBefore ps o.deadline → Earliest (p ∷ ps) d p
    Earliest-head d better tail = record {
      obj = o;
      at = at;
      listed = ground arith;
      active = ground arith;
      before = ground arith;
      least = NoneBefore-cons o.deadline (λ _. omega arith) tail;
    }

    Best-better :
        (d : ℕ) (r res : Option Ptr)
        → is_earlier o d ≡ true
        → Best ps o.deadline (some p) res
        → Best (p ∷ ps) d r res
    Best-better d r res better (inl (e, tail)) = inr (p, e, Earliest-head d better tail)
    Best-better d r res better (inr (q, e, best)) =
        inr
          (q, e, Earliest-cons o.deadline d q best (ground arith) (λ _. omega (arith, best.before)))

    Best-worse :
        (d : ℕ) (r res : Option Ptr)
        → is_earlier o d ≡ false
        → Best ps d r res
        → Best (p ∷ ps) d r res
    Best-worse d r res worse (inl (e, tail)) = inl (e, NoneBefore-cons d (λ a. ground arith) tail)
    Best-worse d r res worse (inr (q, e, best)) =
        inr (q, e, Earliest-cons d d q best (omega arith) (λ a. ground (arith, best.before)))

  scan_timers-Best :
      (ps : List Ptr) (d : ℕ) (r : Option Ptr)
      → AllLive ps
      → (res : Option Ptr) × (scan_timers ps d r w ≡ ok res w) × Best ps d r res
  unfolding scan_timers
  scan_timers-Best [] d r live = (r, refl, inl (refl, λ q x n. elim n [ ]))
  scan_timers-Best (p ∷ ps) d r live = elim (Option-cases (w.objs p)) [
    | inl gone ↦ absurd (ground (arith, live p))
    | inr (o, at) ↦ elim (Bool-cases (is_earlier o d)) [
      | inl better ↦
          let (res, run, best) =
            scan_timers-Best ps o.deadline (some p) (λ q n. live q (ground arith)) in
          (res, rw (at, load, better) run, Best-better p o at ps d r res better best)
      | inr worse ↦
          let (res, run, best) = scan_timers-Best ps d r (λ q n. live q (ground arith)) in
          (res, rw (at, load, worse) run, Best-worse p o at ps d r res worse best)
    ]
  ]

  -- Nothing is due below the largest deadline, or the result is a listed timer that has not
  -- expired, with the least deadline of those.
  abbrev pub IsEarliest : Option Ptr → Type 0
  IsEarliest res =
      ((res ≡ none) × NoneBefore w.timer_list uint64_max)
      ⊎ ((p : Ptr) × (res ≡ some p) × Earliest w.timer_list uint64_max p)

  -- If the listed timers are live, the search for the earliest deadline returns and changes
  -- nothing: it finds a listed timer that has not expired, with a deadline below UINT64_MAX that is
  -- the least of those, or there is none and nothing is found.
  pub get_timer_with_earliest_deadline-IsEarliest :
      AllLive w.timer_list
      → (res : Option Ptr) × (get_timer_with_earliest_deadline w ≡ ok res w) × IsEarliest res
  unfolding get_timer_with_earliest_deadline
  get_timer_with_earliest_deadline-IsEarliest live =
      let (res, run, best) = scan_timers-Best w.timer_list uint64_max none live in (res, run, best)
