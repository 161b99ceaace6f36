-- ===== src/Inv/Timeouts.antt =====
-- `aml__handle_timeout` and the invariant: which timer fires, and what it leaves.
use aml.Base.{
  ℕ, ◌+◌, ◌%◌, ◌^◌, ◌≤◌, ◌<◌, ◌≡◌, ◌≢◌, Bool, true, false, Option, none, some, arith, ltb, count,
  ◌==◌, ◌∷◌, [], ◌++◌, if◌then◌else◌, refl, Bool-cases, inl, inr, ◌⊎◌,
}
use aml.World.{Ptr, ObjType, timer, ticker, Obj, World, pure, load, and_then}
use aml.Object.{is_handler, is_timer}
use aml.World.Safe
use aml.World.Safe.{Safe, returns}
use aml.Queue.{aml_emit}
use aml.Timer.{fire_timer, timeout_of, handle_timeout, after_timeout, uint64_max}
use aml.Timer.Earliest.{
  NoneBefore, AllLive, IsEarliest, get_timer_with_earliest_deadline-IsEarliest,
}
use aml.Inv.{Held, Inv}
use aml.Inv.Step.{put-Inv}
use aml.Inv.Events.{emitted, Emitted, enqueue-Emitted}

-- A timer that fires expires; a ticker moves its deadline.
abbrev pub fired : ObjType → Obj → Obj
fired timer o = record o { expired = true }
fired _ o = record o { deadline = (o.deadline + o.timeout) % 2 ^ 64 }

-- What firing `p` does.
pub record Fired {S : Type 0} (p : Ptr) (o : Obj) (w w' : World S) : Type 0 where
  pub here : w'.objs p ≡ some (fired o.kind (emitted o))
  pub others : (q : Ptr) → p ≢ q → w'.objs q ≡ w.objs q
  pub timer_list : w'.timer_list ≡ w.timer_list
  pub queue : w'.event_queue ≡ (if o.n_events == 0 then w.event_queue ++ p ∷ [] else w.event_queue)
  pub idle_list : w'.idle_list ≡ w.idle_list

module _ {S : Type 0} (loop : Ptr) (held : Held) (p : Ptr) (o : Obj) (w : World S) where
  abbrev pub AfterFire : Bool → World S → Type 0
  AfterFire more w' = (more ≡ true) × Inv loop held w' × Fired p o w w'

  after_timeout-Fired :
      (w1 : World S) (kind : ObjType)
      → o.kind ≡ kind
      → is_timer kind ≡ true
      → Inv loop held w1
      → Emitted p o w w1
      → Safe AfterFire (and_then (after_timeout kind p w1) (λ _. pure true))
  after_timeout-Fired w1 timer is t v e =
      rw (e.here, load)
        (returns (
          refl,
          put-Inv v e.here _
              (record { kind = refl; weak_refs = refl; ref = refl; n_events = refl }),
          record {
            here = ground arith;
            others = λ q ne. ground (arith, e.others q);
            timer_list = e.timer_list;
            queue = e.queue;
            idle_list = e.idle_list;
          },
        ))
  after_timeout-Fired w1 ticker is t v e =
      rw (e.here, load)
        (returns (
          refl,
          put-Inv v e.here _
              (record { kind = refl; weak_refs = refl; ref = refl; n_events = refl }),
          record {
            here = ground arith;
            others = λ q ne. ground (arith, e.others q);
            timer_list = e.timer_list;
            queue = e.queue;
            idle_list = e.idle_list;
          },
        ))
  after_timeout-Fired w1 _ is t v e = absurd (ground arith)

  fire_timer-Fired :
      w.objs p ≡ some o → is_timer o.kind ≡ true → Inv loop held w → Safe AfterFire (fire_timer p w)
  unfolding aml_emit
  fire_timer-Fired at t v =
      let plain : is_handler o.kind ≡ false = ground arith in
      rw (at, load, plain)
        (Safe.bind (enqueue-Emitted v p o at)
          λ _ w1 (v1, e). rw (e.here, load) (after_timeout-Fired w1 o.kind refl t v1 e))

module _ {S : Type 0} (now : ℕ) (w : World S) where
  -- No started timer is due.
  abbrev pub NothingDue : Type 0
  NothingDue =
      (q : Ptr) (x : Obj)
      → 0 < count q w.timer_list
      → w.objs q ≡ some x
      → x.expired ≡ false
      → now < x.deadline

  -- The timer that `aml__handle_timeout` fires.
  pub record Due : Type 0 where
    pub timer : Ptr
    pub obj : Obj
    pub at : w.objs timer ≡ some obj
    pub listed : 0 < count timer w.timer_list
    pub active : obj.expired ≡ false
    pub due : obj.deadline ≤ now
    pub least : NoneBefore w w.timer_list obj.deadline

module _ {S : Type 0} (loop : Ptr) (held : Held) (now : ℕ) (w : World S) where
  -- Nothing is due and nothing changes, or the earliest due timer has fired.
  abbrev pub AfterTimeout : Bool → World S → Type 0
  AfterTimeout more w' =
      Inv loop held w'
      × (((more ≡ false) × (w' ≡ w) × NothingDue now w)
          ⊎ ((more ≡ true) × (d : Due now w) × Fired d.timer d.obj w w'))

module _ {S : Type 0} {loop : Ptr} {held : Held} (now : ℕ) {w : World S} (v : Inv loop held w) where
  pub timers_live : AllLive w w.timer_list
  timers_live q n = ground (arith, v.timers q, v.core.balance q)

  timeout_of-AfterTimeout :
      now < uint64_max
      → (res : Option Ptr) → IsEarliest w res
      → Safe (AfterTimeout loop held now w) (timeout_of now res w)
  timeout_of-AfterTimeout bound none (inl (e, none_before)) =
      returns (v, inl (refl, refl, λ q x n at a. omega (arith, none_before q x n at a)))
  timeout_of-AfterTimeout bound none (inr (p, e, best)) = absurd (cc)
  timeout_of-AfterTimeout bound (some p) (inl (e, none_before)) = absurd (cc)
  timeout_of-AfterTimeout bound (some p) (inr (q, e, best)) =
      rw (e', best.at, load)
        (elim (Bool-cases (ltb now best.obj.deadline)) [
          | inl early ↦
              rw early
                (returns (v, inl (refl, refl, λ r x n at a. ground (arith, best.least r x n at a))))
          | inr late ↦ rw late (
              Safe.mono (fire_timer-Fired loop held q best.obj w best.at is v) λ more w' (e, v', f).
                (
                  v',
                  inr (
                    e,
                    record {
                      timer = q;
                      obj = best.obj;
                      at = best.at;
                      listed = best.listed;
                      active = best.active;
                      due = ground arith;
                      least = best.least;
                    },
                    f,
                  ),
                ))
        ])
    where
      e' : p ≡ q
      e' = ground arith

      is : is_timer best.obj.kind ≡ true
      is = ground (arith, v.timers q, best.at, best.listed)

  -- At a time below UINT64_MAX, from a store that satisfies the invariant, aml__handle_timeout
  -- never faults, and unless a reference count would pass INT_MAX the invariant is kept and either
  -- it returns false, changes nothing and nothing is due, or it returns true and a due listed timer
  -- with the least deadline has one event more and has expired or, for a ticker, has its deadline
  -- moved by its timeout.
  pub handle_timeout-AfterTimeout :
      now < uint64_max → Safe (AfterTimeout loop held now w) (handle_timeout now w)
  unfolding handle_timeout
  handle_timeout-AfterTimeout bound =
      let (res, run, is) = get_timer_with_earliest_deadline-IsEarliest w timers_live in
      rw run (timeout_of-AfterTimeout bound res is)
