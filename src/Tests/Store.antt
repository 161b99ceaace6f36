-- ===== src/Tests/Store.antt =====
-- A loop with a timer, a ticker and a handler, and the theorems about it.
use aml.Base.{none, some, [], ◌∷◌, true, false, arith, refl, if◌then◌else◌, ◌==◌}
use aml.World.{main_loop, handler, timer, ticker, Obj, World}
use aml.Object.{new_obj}
use aml.Inv.{Held, ◌⊕◌, Inv}
use aml.Tests.Quiet.{S}

-- At 1 the loop, with a weak reference at 11; at 2 a timer that has fired and is queued, with a weak reference at 9; at 3 a ticker
-- with deadline 3000000; at 4 a handler that is not started.
abbrev pub the_loop : Obj
the_loop = let o = new_obj main_loop none 0 none in record o { weak_refs = 11 ∷ [] }

abbrev pub the_timer : Obj
the_timer =
    let o = new_obj timer (some 70) 0 (some 71) in
    record o {
      ref = 3;
      n_events = 1;
      timeout = 1000;
      deadline = 2000;
      expired = true;
      weak_refs = 9 ∷ [];
    }

abbrev pub the_ticker : Obj
the_ticker =
    let o = new_obj ticker (some 72) 0 none in
    record o { ref = 2; timeout = 400; deadline = 3000; backend_data = 4 }

abbrev pub the_handler : Obj
the_handler = let o = new_obj handler (some 73) 0 (some 75) in record o { fd = 5; event_mask = 1 }

abbrev pub world_with : {S : Type 0} → S → World S
world_with x = record {
  objs = λ p.
      if p == 1
      then some the_loop
      else if p == 2
      then some the_timer
      else if p == 3
      then some the_ticker
      else if p == 4
      then some the_handler
      else none;
  weak = λ r. if r == 9 then some (some 2) else if r == 11 then some (some 1) else none;
  default = some 1;
  self = 1;
  do_exit = false;
  obj_list = 3 ∷ 2 ∷ [];
  timer_list = 3 ∷ 2 ∷ [];
  idle_list = [];
  idle_stale = λ p. none;
  event_queue = 2 ∷ [];
  have_thread_pool = false;
  self_pipe_rfd = 0;
  self_pipe_wfd = 0;
  state = x;
}

abbrev pub world : World S
world = world_with tt

-- The user holds one reference to each object.
abbrev pub nobody : Held
nobody p = 0

abbrev pub user : Held
user p = if p == 1 then 1 else if p == 2 then 1 else if p == 3 then 1 else if p == 4 then 1 else 0

-- The store is consistent.
pub world_with-Inv : {S : Type 0} (x : S) → Inv 1 (nobody ⊕ user) (world_with x)
world_with-Inv x = record {
  core = record {
    this = refl;
    balance = λ p. ground arith;
    queued = λ p. ground arith;
    fits = λ p. ground arith;
    once = λ p. ground arith;
    typed = λ p o e. ground arith;
    one_loop = λ p e. ground arith;
    is_loop = refl;
    linked = λ p r n. ground arith;
    linking = λ p r e. ground arith;
  };
  timers = λ p. ground arith;
  idles = λ p. ground arith;
}

pub world-Inv : Inv 1 (nobody ⊕ user) world
world-Inv = world_with-Inv tt
