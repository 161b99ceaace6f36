-- ===== src/Ending/Events.antt =====
-- `while (!TAILQ_EMPTY(&self->event_queue))` in `aml__free` of src/aml.c: each object of the queue loses
-- the reference of one event, however many are pending.
use aml.Base.{
  ℕ, zero, suc, ◌+◌, ◌-◌, ◌≤◌, ◌<◌, ◌≡◌, ◌≢◌, ◌∙◌, List, [], ◌∷◌, arith, ◌==◌, if◌then◌else◌, refl,
  count, length, test_refl, ap,
}
use aml.World.{Run, Ptr, World, Cmd, ok, ◌>>◌, unlink}
use aml.World.Env.{Env}
use aml.World.Views.{refs}
use aml.World.Safe.{Ends, ends, bind-Ends}
use aml.Queue.{set_event_queue}
use aml.Unref.{free_events, unref_with}
use aml.Inv.{Held, grab}
use aml.Ending.{IsOutside}
use aml.Ending.Ledger.{Ledger, Ledger-owed, find_live, same_store-Ledger}
use aml.Ending.Unref.{unref_with-Lowered}

-- What is owed for the events of an object, which is in the queue `l` or no longer.
abbrev pub owed_events : Held → List Ptr → Held
owed_events due l q = if count q l == 0 then due q - 1 else due q

-- While the queue is emptied.
pub record Draining {S : Type 0} (loop : Ptr) (held due : Held) (l : List Ptr) (w : World S)
    : Type 0 where
  pub ledger : Ledger loop (λ q. held q + owed_events due l q) w
  pub dead : refs w loop ≡ 0
  pub queue : w.event_queue ≡ l
  pub once : (q : Ptr) → count q l ≤ 1
  pub pending : (q : Ptr) → 0 < count q l → 0 < due q
  pub obj_list : w.obj_list ≡ []
  pub timer_list : w.timer_list ≡ []
  pub idle_list : w.idle_list ≡ []

module _ {S : Type 0} (env : Env S) (u : Ptr → Cmd S ℕ) where
  -- What the loop does by the queue.
  abbrev rounds : ℕ → World S → List Ptr → Run S (Unit {0})
  rounds fuel w [] = ok tt w
  rounds fuel w (p ∷ ps) = (do unlink p (p ∷ ps) set_event_queue; u p; free_events env u fuel) w

  unrolled :
      (fuel : ℕ) (w : World S) (l : List Ptr)
      → w.event_queue ≡ l
      → free_events env u (suc fuel) w ≡ rounds fuel w l
  unfolding free_events
  unrolled fuel w l e = at_list w.event_queue ∙ ap (rounds fuel w) e
    where
      at_list :
          (l : List Ptr)
          → (elim l as (λ _. Run S (Unit {0})) [
            | [] ↦ ok tt w
            | p ∷ ps ↦ (do unlink p (p ∷ ps) set_event_queue; u p; free_events env u fuel) w
          ])
            ≡ rounds fuel w l
      at_list [] = refl
      at_list (p ∷ ps) = refl

module _ {S : Type 0} {env : Env S} (outside : IsOutside env) (f : Ptr → Cmd S ℕ) {loop : Ptr}
    {held due : Held} where
  -- One round.
  drop_first-Draining :
      {Q : Unit {0} → World S → Type 0} {k : Cmd S (Unit {0})} (w : World S) (p : Ptr)
      (ps : List Ptr)
      → Draining loop held due (p ∷ ps) w
      → ((w' : World S) → Draining loop held due ps w' → Ends Q (k w'))
      → Ends Q ((do unlink p (p ∷ ps) set_event_queue; unref_with env f p; k) w)
  drop_first-Draining w p ps v next =
      let here : 0 < refs w p = ground (arith, v.ledger.balance p, v.pending p) in
      let other : p ≢ loop = λ e. ground (arith, v.dead, here) in
      let (o, at) = find_live w p here in
      let owed : Ledger loop (grab p (λ q. held q + owed_events due ps q)) (set_event_queue ps w) =
        Ledger-owed (λ q. ground (arith, v.pending p, v.once p))
          (same_store-Ledger w (set_event_queue ps w) refl refl v.ledger) in
      rw (test_refl p) (
        bind-Ends (unref_with-Lowered outside f (set_event_queue ps w) p o at other owed)
          λ _ w1 (c1, low). next w1 (record {
            ledger = c1;
            dead = ground (arith, c1.balance loop, v.ledger.balance loop, v.dead);
            queue = low.same.event_queue;
            once = λ q. ground (arith, v.once q);
            pending = λ q n. ground (arith, v.pending q);
            obj_list = low.same.obj_list ∙ v.obj_list;
            timer_list = low.same.timer_list ∙ v.timer_list;
            idle_list = low.same.idle_list ∙ v.idle_list;
          }))

  pub free_events-Draining :
      (fuel : ℕ) (w : World S) (l : List Ptr)
      → length l < fuel
      → Draining loop held due l w
      → Ends (λ _. Draining loop held due []) (free_events env (unref_with env f) fuel w)
  free_events-Draining zero w l enough v = absurd (omega arith)
  free_events-Draining (suc fuel) w [] enough v =
      rw (unrolled env (unref_with env f) fuel w [] v.queue) (ends v)
  free_events-Draining (suc fuel) w (p ∷ ps) enough v =
      rw (unrolled env (unref_with env f) fuel w (p ∷ ps) v.queue)
        (drop_first-Draining w p ps v λ w1 v1. free_events-Draining fuel w1 ps (omega arith) v1)
