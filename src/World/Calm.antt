-- ===== src/World/Calm.antt =====
-- Commands of src/aml.c that add no event to the queue and no object to the idle list, if they return.
use aml.Base.{
  ℕ, ◌+◌, ◌≤◌, ◌≡◌, Bool, true, false, Option, none, some, List, [], ◌∷◌, arith, ltb, length, erase,
  has, if◌then◌else◌, Option-cases, inl, inr,
}
use aml.World.{
  Ptr, Obj, World, Run, ok, fault, overflow, out_of_fuel, Cmd, pure, ◌>>=◌, ◌>>◌, load, put, free,
  get, unlink, when, guard_int, int_limit, update, fail, and_then,
}
use aml.World.Safe.{IfOk, bind-IfOk}

abbrev pub events_in : Option Obj → ℕ
events_in none = 0
events_in (some o) = o.n_events

abbrev pub sum_events : (Ptr → Option Obj) → List Ptr → ℕ
sum_events objs [] = 0
sum_events objs (p ∷ ps) = events_in (objs p) + sum_events objs ps

-- How many events are pending.
abbrev pub pending_events : {S : Type 0} → World S → ℕ
pending_events w = sum_events w.objs w.event_queue

module _ {S : Type 0} (w w' : World S) where
  pub record Calmer : Type 0 where
    pub events : pending_events w' ≤ pending_events w
    pub idle : length w'.idle_list ≤ length w.idle_list

pub record IsCalm {S A : Type 0} (c : Cmd S A) : Type 0 where
  pub calm : (w : World S) → IfOk (λ _. Calmer w) (c w)

module _ {S : Type 0} where
  pub Calmer-refl : (w : World S) → Calmer w w
  Calmer-refl w = omega arith

  pub Calmer-trans : {w w1 w2 : World S} → Calmer w w1 → Calmer w1 w2 → Calmer w w2
  Calmer-trans a b = omega arith

  pub IfOk-Calmer :
      {A : Type 0} {w w1 : World S} (run : Run S A)
      → Calmer w w1
      → IfOk (λ _. Calmer w1) run
      → IfOk (λ _. Calmer w) run
  IfOk-Calmer (ok a w2) c d = Calmer-trans c d
  IfOk-Calmer fault c d = tt
  IfOk-Calmer overflow c d = tt
  IfOk-Calmer out_of_fuel c d = tt

  -- A run with what follows it.
  pub then-Calmer :
      {A B : Type 0} (w : World S) (run : Run S A) (k : A → Cmd S B)
      → IfOk (λ _. Calmer w) run
      → ((a : A) → IsCalm (k a))
      → IfOk (λ _. Calmer w) (and_then run k)
  then-Calmer w run k first next =
      bind-IfOk (λ _. Calmer w) (λ _. Calmer w) run k first
        λ a w1 c. IfOk-Calmer (k a w1) c ((next a).calm w1)

module _ {S A B : Type 0} {m : Cmd S A} {k : A → Cmd S B} where
  pub bind-IsCalm : IsCalm m → ((a : A) → IsCalm (k a)) → IsCalm (m >>= k)
  bind-IsCalm f g = record { calm = λ w. then-Calmer w (m w) k (f.calm w) g }

module _ {S : Type 0} where
  pub pure-IsCalm : {A : Type 0} (a : A) → IsCalm {S = S} (pure a)
  pure-IsCalm a = record { calm = Calmer-refl }

  pub get-IsCalm : {A : Type 0} (f : World S → A) → IsCalm {S = S} (get f)
  get-IsCalm f = record { calm = Calmer-refl }

  pub fail-IsCalm : {A : Type 0} → IsCalm {S = S} {A = A} fail
  fail-IsCalm = record { calm = λ w. tt }

  pub guard_int-IsCalm : (n : ℕ) → IsCalm {S = S} (guard_int n)
  guard_int-IsCalm n = record { calm = λ w. guarded w (ltb n int_limit) }
    where
      guarded : (w : World S) (b : Bool) → IfOk (λ _. Calmer w) (if b then ok tt w else overflow)
      guarded w true = Calmer-refl w
      guarded w false = tt

  pub if-IsCalm :
      {A : Type 0} {c d : Cmd S A} (b : Bool) → IsCalm c → IsCalm d → IsCalm (if b then c else d)
  if-IsCalm true f g = f
  if-IsCalm false f g = g

  pub when-IsCalm : {c : Cmd S (Unit {0})} (b : Bool) → IsCalm c → IsCalm (when b c)
  when-IsCalm b f = if-IsCalm b f (pure-IsCalm tt)

-- The object at `p` has no more events than before; the others are as they were.
sum-update :
    (p : Ptr) (x : Option Obj) (objs : Ptr → Option Obj) (l : List Ptr)
    → events_in x ≤ events_in (objs p)
    → sum_events (update objs p x) l ≤ sum_events objs l
sum-update p x objs [] le = omega arith
sum-update p x objs (q ∷ l) le = ground (arith, sum-update p x objs l le)

sum-erase :
    (p : Ptr) (objs : Ptr → Option Obj) (l : List Ptr)
    → sum_events objs (erase p l) ≤ sum_events objs l
sum-erase p objs [] = omega arith
sum-erase p objs (q ∷ l) = ground (arith, sum-erase p objs l)

pub length-erase : (p : Ptr) (l : List Ptr) → length (erase p l) ≤ length l
length-erase p [] = omega arith
length-erase p (q ∷ l) = ground (arith, length-erase p l)

module _ {S : Type 0} (p : Ptr) where
  -- A command on the object that it reads.
  pub load-IsCalm :
      {B : Type 0} {k : Obj → Cmd S B}
      → ((w : World S) (o : Obj) → w.objs p ≡ some o → IfOk (λ _. Calmer w) (k o w))
      → IsCalm (load p >>= k)
  load-IsCalm {B} {k} next = record {
    calm = λ w. elim (Option-cases (w.objs p)) [
      | inl e ↦ rw (e, load) tt
      | inr (o, e) ↦ rw (e, load) (next w o e)
    ];
  }

  pub put-Calmer :
      {w : World S} {o : Obj} (o' : Obj)
      → w.objs p ≡ some o
      → o'.n_events ≤ o.n_events
      → Calmer w (put p o' w)
  put-Calmer {w} {o} o' at le = record {
    events = sum-update p (some o') w.objs w.event_queue (rw at le);
    idle = omega arith;
  }

  pub free-IsCalm : IsCalm {S = S} (free p)
  free-IsCalm = record {
    calm = λ w. record {
      events = sum-update p none w.objs w.event_queue (omega arith);
      idle = omega arith;
    };
  }

  -- The removal from a list, with what follows it.
  pub unlink-IsCalm :
      {B : Type 0} (l : World S → List Ptr) (f : List Ptr → World S → World S) (c : Cmd S B)
      → ((w : World S) → Calmer w (f (erase p (l w)) w))
      → IsCalm c
      → IsCalm (do x ← get l; unlink p x f; c)
  unlink-IsCalm {B} l f c calmer next = record { calm = λ w. unlinked w (has p (l w)) (calmer w) }
    where
      unlinked :
          (w : World S) (b : Bool) {w' : World S}
          → Calmer w w'
          → IfOk (λ _. Calmer w) (and_then (if b then ok tt w' else fault) (λ _. c))
      unlinked w true {w'} calmer = IfOk-Calmer (c w') calmer (next.calm w')
      unlinked w false calmer = tt

  pub queue-Calmer : {w : World S} → Calmer w (record w { event_queue = erase p w.event_queue })
  queue-Calmer {w} = record { events = sum-erase p w.objs w.event_queue; idle = omega arith }
