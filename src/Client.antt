-- ===== src/Client.antt =====
-- Programs against include/aml.h, as sequences of its calls by code that keeps to the rule for
-- references: it gives up only references that it made or took, and calls only on objects that it has
-- such a reference to or that its caller holds. A callback is called with its object held, and so is
-- the loop. `lent` are the objects that the caller holds, `own` the references of the client itself;
-- `Follows` has the rules for single calls, with which aml_ticker_new and aml_set_duration are defined
-- and aml_start does not abort.
pub mod Calls
use aml.Base.{
  ◌≢◌, true, false, has, ℕ, zero, suc, ◌+◌, ◌≡◌, ◌&&◌, ◌==◌, Option, none, some, List, [], ◌∷◌, not,
}
use aml.World.{Ptr, Fn, Obj, World, Cmd, pure, skip, ◌>>=◌, ◌>>◌, load, get, when}
use aml.World.Env.{Env}
use aml.World.Safe.{IfOk}
use aml.World.Views.{kind_at}
use aml.Object.{
  is_ticker, is_timer, aml_handler_new, aml_timer_new, aml_ticker_new, aml_signal_new, aml_work_new,
  aml_idle_new, aml_set_userdata, aml_set_duration,
}
use aml.Ref.{aml_ref}
use aml.Unref.{aml_unref, discard}
use aml.Registry.{aml_start, aml_stop, aml_interrupt}
use aml.Dispatch.{aml_set_event_mask, aml_exit}

-- A variable of the client: the i-th lent object, or the i-th reference of its own.
pub data Var : Type 0 where
  lent own : ℕ → Var

pub data Call : Type 0 where
  handler_new timer_new ticker_new signal_new : ℕ → Option Fn → Ptr → Option Fn → Call
  work_new : Option Fn → Option Fn → Ptr → Option Fn → Call
  idle_new : Option Fn → Ptr → Option Fn → Call
  ref start stop : Var → Call
  unref : ℕ → Call  -- a reference of its own
  set_event_mask set_duration : Var → ℕ → Call
  set_userdata : Var → Ptr → Option Fn → Call
  interrupt exit : Call

abbrev pub get_elem? : List Ptr → ℕ → Option Ptr
get_elem? [] i = none
get_elem? (p ∷ ps) zero = some p
get_elem? (p ∷ ps) (suc i) = get_elem? ps i

-- The i-th element, and the others.
abbrev pub put_back : Ptr → Option (Ptr × List Ptr) → Option (Ptr × List Ptr)
put_back p none = none
put_back p (some (q, qs)) = some (q, p ∷ qs)

abbrev pub pick : List Ptr → ℕ → Option (Ptr × List Ptr)
pick [] i = none
pick (p ∷ ps) zero = some (p, ps)
pick (p ∷ ps) (suc i) = put_back p (pick ps i)

abbrev pub lookup : List Ptr → List Ptr → Var → Option Ptr
lookup lents owns (lent i) = get_elem? lents i
lookup lents owns (own i) = get_elem? owns i

-- What a constructor returned: NULL, or a reference of the client.
abbrev pub keep : List Ptr → Option Ptr → List Ptr
keep owns none = owns
keep owns (some p) = p ∷ owns

module _ {S : Type 0} where
  -- A call on a variable that is not there is not made.
  abbrev pub on : Option Ptr → (Ptr → Cmd S (Unit {0})) → List Ptr → Cmd S (List Ptr)
  on none c owns = pure owns
  on (some p) c owns = do c p; pure owns

  abbrev pub made : List Ptr → Cmd S (Option Ptr) → Cmd S (List Ptr)
  made owns c = do res ← c; pure (keep owns res)

  abbrev pub take_ref : Option Ptr → List Ptr → Cmd S (List Ptr)
  take_ref none owns = pure owns
  take_ref (some p) owns = do aml_ref p; pure (p ∷ owns)

module _ {S : Type 0} (env : Env S) where
  abbrev pub give_up : Option (Ptr × List Ptr) → List Ptr → Cmd S (List Ptr)
  give_up none owns = pure owns
  give_up (some (p, rest)) owns = do aml_unref env p; pure rest

-- `calloc` is what it returns in each store.
module _ {S : Type 0} (env : Env S) (calloc : World S → Option Ptr) where
  unfoldable pub run_call : Call → (lents owns : List Ptr) → Cmd S (List Ptr)
  run_call (handler_new fd cb x f) ls os =
      made os (do fresh ← get calloc; aml_handler_new fresh fd cb x f)
  run_call (timer_new n cb x f) ls os =
      made os (do fresh ← get calloc; aml_timer_new fresh n cb x f)
  run_call (ticker_new n cb x f) ls os =
      made os (do fresh ← get calloc; aml_ticker_new fresh n cb x f)
  run_call (signal_new n cb x f) ls os =
      made os (do fresh ← get calloc; aml_signal_new fresh n cb x f)
  run_call (work_new w cb x f) ls os = made os (do fresh ← get calloc; aml_work_new fresh w cb x f)
  run_call (idle_new cb x f) ls os = made os (do fresh ← get calloc; aml_idle_new fresh cb x f)
  run_call (ref v) ls os = take_ref (lookup ls os v) os
  run_call (unref i) ls os = give_up env (pick os i) os
  run_call (start v) ls os = on (lookup ls os v) (λ p. discard (aml_start env p)) os
  run_call (stop v) ls os = on (lookup ls os v) (λ p. discard (aml_stop env p)) os
  run_call (set_event_mask v m) ls os = on (lookup ls os v) (λ p. aml_set_event_mask env p m) os
  run_call (set_duration v n) ls os = on (lookup ls os v) (λ p. aml_set_duration p n) os
  run_call (set_userdata v x f) ls os = on (lookup ls os v) (λ p. aml_set_userdata p x f) os
  run_call interrupt ls os = do aml_interrupt env; pure os
  run_call exit ls os = do aml_exit env; pure os

  unfoldable pub run_calls : List Call → (lents owns : List Ptr) → Cmd S (List Ptr)
  run_calls [] ls os = pure os
  run_calls (c ∷ cs) ls os = do os' ← run_call c ls os; run_calls cs ls os'

  -- The rules for single calls besides that for references: a ticker is made only where there is
  -- memory, a duration is set only of a timer or ticker that is not started, and a ticker with a
  -- period of 0 is not started.
  abbrev pub Rule : Call → (lents owns : List Ptr) → World S → Type 0
  Rule (ticker_new n cb x f) ls os w = calloc w ≢ none
  Rule (set_duration v n) ls os w =
      (p : Ptr)
      → lookup ls os v ≡ some p
      → (is_timer (kind_at w p) ≡ true) × (has p w.obj_list ≡ false)
  Rule (start v) ls os w =
      (p : Ptr) (o : Obj)
      → lookup ls os v ≡ some p
      → w.objs p ≡ some o
      → o.timeout ≡ 0
      → is_ticker o.kind ≡ false
  Rule _ ls os w = Unit {0}

  -- Each call is made by the rules, in the store that the calls before it have left.
  abbrev pub Follows : List Call → (lents owns : List Ptr) → World S → Type 0
  Follows [] ls os w = Unit {0}
  Follows (c ∷ cs) ls os w =
      Rule c ls os w × IfOk (λ os' w'. Follows cs ls os' w') (run_call c ls os w)
