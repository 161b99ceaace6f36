-- ===== src/Ending/Ledger.antt =====
-- `aml_unref` of src/aml.c where the lists of the loop no longer agree with the objects: what each
-- object is owed, and what giving up a reference changes.
use aml.Base.{◌≡◌, ◌<◌, ◌≢◌, some, arith, refl, ◌∙◌, Option-cases, inl, inr, List, [], ◌∷◌}
use aml.World.{Ptr, unspec, main_loop, Obj, World, load}
use aml.World.Views.{refs, kind_at}
use aml.World.Safe.{Ends, ends, mono-Ends}
use aml.World.Outside.{set_state}
use aml.Ref.{load_weak}
use aml.Unref.{clear_weak_refs}
use aml.Inv.{Held}
use aml.Inv.Weak.{Links, with_weak_refs, cleared, points, cleared-Links}

-- Each count is what is owed, whether by lists or by users.
pub record Ledger {S : Type 0} (loop : Ptr) (owed : Held) (w : World S) : Type 0 where
  pub balance : (p : Ptr) → refs w p ≡ owed p
  pub typed : (p : Ptr) (o : Obj) → w.objs p ≡ some o → o.kind ≢ unspec
  pub one_loop : (p : Ptr) → kind_at w p ≡ main_loop → p ≡ loop
  pub links : Links w

-- All but the objects, the weak references and what lies outside is the same.
pub record SameFields {S : Type 0} (w w' : World S) : Type 0 where
  pub obj_list : w'.obj_list ≡ w.obj_list
  pub timer_list : w'.timer_list ≡ w.timer_list
  pub idle_list : w'.idle_list ≡ w.idle_list
  pub event_queue : w'.event_queue ≡ w.event_queue

pub same_fields : {S : Type 0} (w : World S) → SameFields w w
same_fields w = record { obj_list = refl; timer_list = refl; idle_list = refl; event_queue = refl }

-- The weak references of `p` are cleared, and nothing else of it.
pub record Cleared {S : Type 0} (p : Ptr) (o : Obj) (w w' : World S) : Type 0 where
  pub same : SameFields w w'
  pub here : w'.objs p ≡ some (with_weak_refs o [])
  pub others : (q : Ptr) → p ≢ q → w'.objs q ≡ w.objs q

module _ {S : Type 0} {loop : Ptr} {owed : Held} where
  -- Only the objects and the weak references matter.
  pub same_store-Ledger :
      (w w' : World S)
      → w'.objs ≡ w.objs
      → w'.weak ≡ w.weak
      → Ledger loop owed w
      → Ledger loop owed w'
  same_store-Ledger w w' objs weak c = record {
    balance = λ q. rw objs (c.balance q);
    typed = λ q x t. c.typed q x (rw objs at t);
    one_loop = λ q k. c.one_loop q (rw objs at k);
    links = record {
      linked = λ q r n. rw weak (c.links.linked q r (rw objs at n));
      linking = λ q r e. rw objs (c.links.linking q r (rw weak at e));
    };
  }

  pub set_state-Ledger :
      {w : World S} (x : S) → Ledger loop owed w → Ledger loop owed (set_state x w)
  set_state-Ledger {w} x c = same_store-Ledger w (set_state x w) refl refl c

  -- The same, owed otherwise.
  pub Ledger-owed :
      {owed' : Held} {w : World S}
      → ((q : Ptr) → owed q ≡ owed' q)
      → Ledger loop owed w
      → Ledger loop owed' w
  Ledger-owed same c = record {
    balance = λ q. c.balance q ∙ same q;
    typed = c.typed;
    one_loop = c.one_loop;
    links = c.links;
  }

  pub clear_weak_refs-Cleared :
      (rs : List Ptr) {w : World S} (p : Ptr) (o : Obj)
      → w.objs p ≡ some o
      → o.weak_refs ≡ rs
      → Ledger loop owed w
      → Ends (λ _ w'. Ledger loop owed w' × Cleared p o w w') (clear_weak_refs p rs w)
  unfolding clear_weak_refs
  clear_weak_refs-Cleared [] {w} p o at e c =
      ends (c, record { same = same_fields w; here = rw (← e) at; others = λ q ne. refl })
  clear_weak_refs-Cleared (r ∷ rs) {w} p o at e c =
      let next : Ledger loop owed (cleared p o r rs w) = record {
        balance = λ q. ground (arith, c.balance q);
        typed = λ q x t. ground (arith, c.typed q x, c.typed p o);
        one_loop = λ q k. ground (arith, c.one_loop q);
        links = cleared-Links w p r o rs at e c.links;
      } in
      rw (points w p r o rs at e c.links, load_weak, at, load)
        (mono-Ends (clear_weak_refs-Cleared rs p (with_weak_refs o rs) (ground arith) refl next)
          λ _ w' (c', d). (
            c',
            record {
              same = record {
                obj_list = d.same.obj_list;
                timer_list = d.same.timer_list;
                idle_list = d.same.idle_list;
                event_queue = d.same.event_queue;
              };
              here = d.here;
              others = λ q ne. d.others q ne ∙ ground arith;
            },
          ))

pub find_live :
    {S : Type 0} (w : World S) (p : Ptr) → 0 < refs w p → (o : Obj) × (w.objs p ≡ some o)
find_live w p n = elim (Option-cases (w.objs p)) [
  | inl e ↦ absurd (ground arith)
  | inr there ↦ there
]
