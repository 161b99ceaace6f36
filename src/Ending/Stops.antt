-- ===== src/Ending/Stops.antt =====
-- `aml__stop_unchecked` of src/aml.c as `aml__free` calls it: the object is on the list of started
-- objects still.
use aml.Base.{◌≡◌, ◌≢◌, Option, none, some, true, false, arith, if◌then◌else◌, refl, has, erase}
use aml.World.{
  Ptr, ObjType, unspec, main_loop, handler, timer, ticker, signal, work, idle, Obj, World, Rc,
  success, failure, load, put, pure, ◌>>◌,
}
use aml.World.Env.{Env}
use aml.World.Safe.{Ends, ends, bind-Ends}
use aml.World.Outside.{set_state, call-Ends}
use aml.Object.{is_timer, is_idle}
use aml.Stop.{
  stop_unchecked, stop_kind, stop_handler, set_timer_list, set_idle_list, set_parent, on_success,
}
use aml.Inv.{Held}
use aml.Ending.{IsOutside}
use aml.Ending.Ledger.{Ledger, set_state-Ledger, same_store-Ledger}

-- The object is off the list of its type, and the counts are as before.
pub record Stopped {S : Type 0} (p : Ptr) (o : Obj) (w w' : World S) : Type 0 where
  pub obj : Obj
  pub here : w'.objs p ≡ some obj
  pub kind : obj.kind ≡ o.kind
  pub others : (q : Ptr) → p ≢ q → w'.objs q ≡ w.objs q
  pub obj_list : w'.obj_list ≡ w.obj_list
  pub event_queue : w'.event_queue ≡ w.event_queue
  pub timer_list : w'.timer_list ≡ (if is_timer o.kind then erase p w.timer_list else w.timer_list)
  pub idle_list : w'.idle_list ≡ (if is_idle o.kind then erase p w.idle_list else w.idle_list)

module _ {S : Type 0} {env : Env S} (outside : IsOutside env) {loop : Ptr} {owed : Held}
    (w : World S) (p : Ptr) (o : Obj) (at : w.objs p ≡ some o) (c : Ledger loop owed w) where
  parent-Ledger : (parent : Option Ptr) → Ledger loop owed (put p (record o { parent = parent }) w)
  parent-Ledger parent = record {
    balance = λ q. ground (arith, c.balance q);
    typed = λ q x t. ground (arith, c.typed q x, c.typed p o);
    one_loop = λ q k. ground (arith, c.one_loop q);
    links = record {
      linked = λ q r n. ground (arith, c.links.linked q r);
      linking = λ q r e. ground (arith, c.links.linking q r);
    };
  }

  abbrev pub After : Rc → World S → Type 0
  After rc w' = Ledger loop owed w' × Stopped p o w w'

  -- Only what lies outside has changed.
  unlisted :
      is_timer o.kind ≡ false → is_idle o.kind ≡ false → (x : S) → Stopped p o w (set_state x w)
  unlisted t i x = record {
    obj = o;
    here = at;
    kind = refl;
    others = λ q ne. refl;
    obj_list = refl;
    event_queue = refl;
    timer_list = rw t refl;
    idle_list = rw i refl;
  }

  -- A timer is off the list of timers.
  untimed : is_timer o.kind ≡ true → After success (set_timer_list (erase p w.timer_list) w)
  untimed t = (
    same_store-Ledger w (set_timer_list (erase p w.timer_list) w) refl refl c,
    record {
      obj = o;
      here = at;
      kind = refl;
      others = λ q ne. refl;
      obj_list = refl;
      event_queue = refl;
      timer_list = rw t refl;
      idle_list = ground arith;
    },
  )

  unidled : is_idle o.kind ≡ true → After success (set_idle_list p (erase p w.idle_list) w)
  unidled t = (
    same_store-Ledger w (set_idle_list p (erase p w.idle_list) w) refl refl c,
    record {
      obj = o;
      here = at;
      kind = refl;
      others = λ q ne. refl;
      obj_list = refl;
      event_queue = refl;
      timer_list = ground arith;
      idle_list = rw t refl;
    },
  )

  -- The backend has let go of the descriptor, or not.
  deleted :
      is_timer o.kind ≡ false
      → is_idle o.kind ≡ false
      → (rc : Rc) (x : S)
      → Ends After (on_success rc (set_parent p none >> pure success) (set_state x w))
  deleted t i failure x = ends (set_state-Ledger x c, unlisted t i x)
  deleted t i success x =
      rw (at, load)
        (ends (
          set_state-Ledger x (parent-Ledger none),
          record {
            obj = record o { parent = none };
            here = ground arith;
            kind = refl;
            others = λ q ne. ground arith;
            obj_list = refl;
            event_queue = refl;
            timer_list = rw t refl;
            idle_list = rw i refl;
          },
        ))

  stop_kind-Stopped :
      (kind : ObjType)
      → o.kind ≡ kind
      → p ≢ loop
      → (is_timer o.kind ≡ true → has p w.timer_list ≡ true)
      → (is_idle o.kind ≡ true → has p w.idle_list ≡ true)
      → Ends After (stop_kind env kind p w)
  unfolding stop_kind stop_handler
  stop_kind-Stopped unspec e other timed idled = absurd (c.typed p o at e)
  stop_kind-Stopped main_loop e other timed idled = absurd (other (c.one_loop p (rw at e)))
  stop_kind-Stopped handler e other timed idled =
      bind-Ends
        (call-Ends (λ rc w1. (x : S) × (w1 ≡ set_state x w)) w (outside.del_fd p) λ rc x. (x, refl))
        λ rc w1 (x, same). rw same (deleted (ground arith) (ground arith) rc x)
  stop_kind-Stopped timer e other timed idled =
      rw (timed (ground arith)) (ends (untimed (ground arith)))
  stop_kind-Stopped ticker e other timed idled =
      rw (timed (ground arith)) (ends (untimed (ground arith)))
  stop_kind-Stopped signal e other timed idled =
      call-Ends After w (outside.del_signal p)
        λ _ x. (set_state-Ledger x c, unlisted (ground arith) (ground arith) x)
  stop_kind-Stopped work e other timed idled =
      ends (c, unlisted (ground arith) (ground arith) w.state)
  stop_kind-Stopped idle e other timed idled =
      rw (idled (ground arith)) (ends (unidled (ground arith)))

  pub stop_unchecked-Stopped :
      p ≢ loop
      → (is_timer o.kind ≡ true → has p w.timer_list ≡ true)
      → (is_idle o.kind ≡ true → has p w.idle_list ≡ true)
      → Ends After (stop_unchecked env p w)
  unfolding stop_unchecked
  stop_unchecked-Stopped other timed idled =
      rw (at, load) (stop_kind-Stopped o.kind refl other timed idled)
