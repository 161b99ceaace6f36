-- ===== src/Tests/Clients.antt =====
-- Programs against include/aml.h at the store of `Tests.Store`.
use aml.Base.{◌≡◌, refl, Option, none, some, List, [], ◌∷◌, arith, if◌then◌else◌, is_some}
use aml.World.{Ptr, Obj, timer, ticker, put, World}
use aml.World.Safe.{Safe, IfOk-all}
use aml.Object.{new_obj, aml_ticker_new, aml_timer_new, aml_set_duration}
use aml.Client.{
  Rule, Follows, run_call, Call, lent, own, ticker_new, start, stop, unref, set_duration, exit,
  run_calls,
}
use aml.Client.Calls.{owned, run_calls-Kept}
use aml.Inv.{◌⊕◌, Kept}
use aml.Inv.Step.{Inv-held}
use aml.Tests.Quiet.{S, quiet, quiet-IsTame}
use aml.Tests.Store.{world, nobody, user, world-Inv}

-- One address is to be had.
abbrev calloc : World S → Option Ptr
calloc w = if is_some (w.objs 9) then none else some 9

-- A ticker is made, gets a period, is started and given up; the lent handler is stopped.
abbrev calls : List Call
calls =
    ticker_new 500 (some 76) 0 none
    ∷ set_duration (own 0) 700
    ∷ start (own 0)
    ∷ unref 0
    ∷ stop (lent 1)
    ∷ exit
    ∷ []

abbrev Obeys : List Call → List Ptr → World S → Type 0
Obeys cs os w = Follows quiet calloc cs (1 ∷ 4 ∷ []) os w

-- A call by its rule, whatever it leaves.
obeys :
    (c : Call) (cs : List Call) (os : List Ptr) (w : World S)
    → Rule quiet calloc c (1 ∷ 4 ∷ []) os w
    → ((os : List Ptr) (w : World S) → Obeys cs os w)
    → Obeys (c ∷ cs) os w
obeys c cs os w rule rest =
    (rule, IfOk-all (Obeys cs) (run_call quiet calloc c (1 ∷ 4 ∷ []) os w) rest)

abbrev last_calls : List Call
last_calls = unref 0 ∷ stop (lent 1) ∷ exit ∷ []

last-Obeys : (os : List Ptr) (w : World S) → Obeys last_calls os w
last-Obeys os w =
    obeys (unref 0) (stop (lent 1) ∷ exit ∷ []) os w tt
      λ os w. obeys (stop (lent 1)) (exit ∷ []) os w tt λ os w. obeys exit [] os w tt λ os w. tt

-- A ticker with a period is started.
start-Obeys :
    (w : World S) (o : Obj)
    → w.objs 9 ≡ some o
    → ¬ o.timeout ≡ 0
    → Obeys (start (own 0) ∷ last_calls) (9 ∷ []) w
start-Obeys w o at period =
    obeys (start (own 0)) last_calls (9 ∷ []) w (λ p o' e at' none_set. absurd (period (cc)))
      last-Obeys

-- The ticker as it is made, and with its period changed.
abbrev made_timer : Obj
made_timer = let header = new_obj timer (some 76) 0 none in record header { timeout = 500 }

abbrev made_ticker : Obj
made_ticker = record made_timer { kind = ticker }

abbrev set_ticker : Obj
set_ticker = record made_ticker { timeout = 700 }

by_rules : Obeys calls [] world
unfolding run_call aml_ticker_new aml_timer_new aml_set_duration
by_rules = (
  (λ e. cc),
  (
    (λ p e. (ground arith, ground arith)),
    start-Obeys (put 9 set_ticker (put 9 made_ticker (put 9 made_timer world))) set_ticker refl
        (ground arith),
  ),
)

run_calls-Kept_example :
    Safe (λ left. Kept 1 (owned left ⊕ user)) (run_calls quiet calloc calls (1 ∷ 4 ∷ []) [] world)
run_calls-Kept_example =
    run_calls-Kept quiet (quiet-IsTame 1) (λ c e. absurd (cc)) calloc (λ w p e. ground arith) user
      (omega arith) (1 ∷ 4 ∷ []) (λ p n. ground arith) calls [] nobody world
      (Inv-held (λ p. omega arith) world-Inv) by_rules
