-- ===== src/Ending/Objects.antt =====
-- `while (!LIST_EMPTY(&self->obj_list))` in `aml__free` of src/aml.c: every started object is stopped
-- and loses the reference of the list.
use aml.Base.{
  ℕ, zero, suc, ◌+◌, ◌≤◌, ◌<◌, ◌≡◌, ◌≢◌, ◌∙◌, some, true, List, [], ◌∷◌, arith, if◌then◌else◌, refl,
  has, erase, count, count-has, count-erase, length, test_refl, ap,
}
use aml.World.{Run, Ptr, Obj, World, Cmd, ok, ◌>>◌}
use aml.World.Env.{Env}
use aml.World.Views.{refs, kind_at}
use aml.World.Safe.{Ends, ends, bind-Ends, discard-Ends}
use aml.Object.{is_timer, is_idle}
use aml.Stop.{stop_unchecked}
use aml.Unref.{free_objects, unref_with, set_obj_list, obj_remove_unlocked, discard}
use aml.Inv.{Held, grab}
use aml.Ending.{IsOutside}
use aml.Ending.Ledger.{Ledger, Ledger-owed, find_live, same_store-Ledger}
use aml.Ending.Unref.{Lowered, unref_with-Lowered}
use aml.Ending.Stops.{Stopped, stop_unchecked-Stopped}

-- While objects are stopped: `held` is what the users of the library hold, `due` the pending events,
-- and nothing refers to the loop any more.
pub record Stopping {S : Type 0} (loop : Ptr) (held due : Held) (queue : List Ptr) (w : World S)
    : Type 0 where
  pub ledger : Ledger loop (λ q. held q + count q w.obj_list + due q) w
  pub dead : refs w loop ≡ 0
  pub once : (q : Ptr) → count q w.obj_list ≤ 1
  pub timers :
      (q : Ptr) → count q w.timer_list ≡ (if is_timer (kind_at w q) then count q w.obj_list else 0)
  pub idles :
      (q : Ptr) → count q w.idle_list ≡ (if is_idle (kind_at w q) then count q w.obj_list else 0)
  pub event_queue : w.event_queue ≡ queue

module _ {S : Type 0} {loop : Ptr} {held due : Held} {queue : List Ptr} {w : World S}
    (v : Stopping loop held due queue w) (p : Ptr) (ps : List Ptr)
    (front : w.obj_list ≡ p ∷ ps) where
  started : count p w.obj_list ≡ suc (count p ps)
  started = rw front (ground arith)

  listed_once : count p ps ≡ 0
  listed_once = omega (arith, started, v.once p)

  not_loop : p ≢ loop
  not_loop e = ground (arith, v.ledger.balance p, v.dead, started)

  found : (o : Obj) × (w.objs p ≡ some o)
  found = find_live w p (ground (arith, v.ledger.balance p, started))

  module _ (o : Obj) (at : w.objs p ≡ some o) where
    timed : is_timer o.kind ≡ true → has p w.timer_list ≡ true
    timed t = count-has p w.timer_list (ground (arith, v.timers p, at, started))

    idled : is_idle o.kind ≡ true → has p w.idle_list ≡ true
    idled t = count-has p w.idle_list (ground (arith, v.idles p, at, started))

    module _ (w1 w3 : World S) (s : Stopped p o w w1)
        (low : Lowered p s.obj (set_obj_list ps w1) w3) where
      obj_list-Stopping : w3.obj_list ≡ ps
      obj_list-Stopping = low.same.obj_list

      timer_list : w3.timer_list ≡ (if is_timer o.kind then erase p w.timer_list else w.timer_list)
      timer_list = low.same.timer_list ∙ s.timer_list

      idle_list : w3.idle_list ≡ (if is_idle o.kind then erase p w.idle_list else w.idle_list)
      idle_list = low.same.idle_list ∙ s.idle_list

      kinds : (q : Ptr) → p ≢ q → kind_at w3 q ≡ kind_at w q
      kinds q ne = ground (arith, low.others q, s.others q)

      Stopping-step :
          Ledger loop (λ q. held q + count q ps + due q) w3 → Stopping loop held due queue w3
      Stopping-step c = record {
        ledger = Ledger-owed (λ q. omega (arith, ap (count q) obj_list-Stopping)) c;
        dead = ground (arith, c.balance loop, v.ledger.balance loop, v.dead, front);
        once = λ q. rw (obj_list-Stopping) (ground (arith, v.once q, front));
        timers = λ q.
            rw (timer_list, obj_list-Stopping)
              (ground (
                arith,
                v.timers q,
                started,
                listed_once,
                front,
                at,
                kinds q,
                count-erase p q w.timer_list,
              ));
        idles = λ q.
            rw (idle_list, obj_list-Stopping)
              (ground (
                arith,
                v.idles q,
                started,
                listed_once,
                front,
                at,
                kinds q,
                count-erase p q w.idle_list,
              ));
        event_queue = low.same.event_queue ∙ s.event_queue ∙ v.event_queue;
      }

remove_first :
    {S : Type 0} (unref : Ptr → Cmd S ℕ) (p : Ptr) (ps : List Ptr) (w : World S)
    → w.obj_list ≡ p ∷ ps
    → obj_remove_unlocked unref p w ≡ discard (unref p) (set_obj_list ps w)
remove_first unref p ps w e = rw (e, test_refl p) refl

module _ {S : Type 0} (env : Env S) (u : Ptr → Cmd S ℕ) where
  -- What the loop does by the list.
  abbrev rounds : ℕ → World S → List Ptr → Run S (Unit {0})
  rounds fuel w [] = ok tt w
  rounds fuel w (p ∷ ps) =
      (do stop_unchecked env p; obj_remove_unlocked u p; free_objects env u fuel) w

  unrolled :
      (fuel : ℕ) (w : World S) (l : List Ptr)
      → w.obj_list ≡ l
      → free_objects env u (suc fuel) w ≡ rounds fuel w l
  unfolding free_objects
  unrolled fuel w l e = at_list w.obj_list ∙ ap (rounds fuel w) e
    where
      at_list :
          (l : List Ptr)
          → (elim l as (λ _. Run S (Unit {0})) [
            | [] ↦ ok tt w
            | p ∷ ps ↦ (do stop_unchecked env p; obj_remove_unlocked u p; free_objects env u fuel) w
          ])
            ≡ rounds fuel w l
      at_list [] = refl
      at_list (p ∷ ps) = refl

module _ {S : Type 0} {env : Env S} (outside : IsOutside env) (f : Ptr → Cmd S ℕ) {loop : Ptr}
    {held due : Held} {queue : List Ptr} where
  -- One round.
  stop_first-Stopping :
      {Q : Unit {0} → World S → Type 0} {k : Cmd S (Unit {0})} (w : World S) (p : Ptr)
      (ps : List Ptr)
      → Stopping loop held due queue w
      → w.obj_list ≡ p ∷ ps
      → ((w' : World S) → Stopping loop held due queue w' → w'.obj_list ≡ ps → Ends Q (k w'))
      → Ends Q ((do stop_unchecked env p; obj_remove_unlocked (unref_with env f) p; k) w)
  stop_first-Stopping w p ps v front next =
      let (o, at) = found v p ps front in
      bind-Ends
        (stop_unchecked-Stopped outside w p o at v.ledger (not_loop v p ps front)
          (timed v p ps front o at) (idled v p ps front o at))
        λ _ w1 (c1, s).
          let owed : Ledger loop (grab p (λ q. held q + count q ps + due q)) (set_obj_list ps w1) =
            Ledger-owed (λ q. rw front (omega arith))
              (same_store-Ledger w1 (set_obj_list ps w1) refl refl c1) in
          rw (remove_first (unref_with env f) p ps w1 (s.obj_list ∙ front)) (
            bind-Ends
              (discard-Ends (
                unref_with-Lowered outside f (set_obj_list ps w1) p s.obj s.here
                  (not_loop v p ps front) owed))
              λ _ w3 (c3, low).
                next w3 (Stopping-step v p ps front o at w1 w3 s low c3) low.same.obj_list)

  pub free_objects-Stopping :
      (fuel : ℕ) (w : World S) (l : List Ptr)
      → w.obj_list ≡ l
      → length l < fuel
      → Stopping loop held due queue w
      → Ends
          (λ _ w'. Stopping loop held due queue w' × (w'.obj_list ≡ []))
          (free_objects env (unref_with env f) fuel w)
  free_objects-Stopping zero w l e enough v = absurd (omega arith)
  free_objects-Stopping (suc fuel) w [] e enough v =
      rw (unrolled env (unref_with env f) fuel w [] e) (ends (v, e))
  free_objects-Stopping (suc fuel) w (p ∷ ps) e enough v =
      rw (unrolled env (unref_with env f) fuel w (p ∷ ps) e) (
        stop_first-Stopping w p ps v e
          λ w1 v1 e1. free_objects-Stopping fuel w1 ps e1 (omega arith) v1)
