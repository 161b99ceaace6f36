-- ===== src/Stop.antt =====
-- What stopping does by type in src/aml.c (`aml__stop_handler` to `aml__stop_unchecked`), and the
-- calls of the backend that it makes.
use aml.Base.{Option, none, some, List, [], ◌∷◌, ◌==◌, if◌then◌else◌}
use aml.World.{
  Ptr, ObjType, unspec, main_loop, handler, timer, ticker, signal, work, idle, World, Cmd, Rc,
  success, failure, pure, skip, fail, ◌>>=◌, ◌>>◌, load, store, get, unlink, update,
}
use aml.World.Env.{Env}

abbrev pub first : List Ptr → Option Ptr
first [] = none
first (p ∷ ps) = some p

-- The successor of a list element.
abbrev pub next_in : Ptr → List Ptr → Option Ptr
next_in p [] = none
next_in p (q ∷ qs) = if q == p then first qs else next_in p qs

-- `if (f() < 0) return -1;` before `c`.
abbrev pub on_success : {S : Type 0} → Rc → Cmd S Rc → Cmd S Rc
on_success failure c = pure failure
on_success success c = c

abbrev pub or_skip : {S : Type 0} → Option (Cmd S (Unit {0})) → Cmd S (Unit {0})
or_skip none = skip
or_skip (some c) = c

module _ {S : Type 0} where
  abbrev pub set_timer_list : List Ptr → World S → World S
  set_timer_list l w = record w { timer_list = l }

  -- `aml__stop_timer`
  unfoldable pub stop_timer : Ptr → Cmd S Rc
  stop_timer p = do l ← get (λ w. w.timer_list); unlink p l set_timer_list; pure success

  abbrev pub set_idle_list : Ptr → List Ptr → World S → World S
  set_idle_list p l w = record w {
    idle_list = l;
    idle_stale = update w.idle_stale p (next_in p w.idle_list);
  }

  -- `aml__stop_idle`
  unfoldable pub stop_idle : Ptr → Cmd S Rc
  stop_idle p = do l ← get (λ w. w.idle_list); unlink p l (set_idle_list p); pure success

  -- `aml__stop_work`
  unfoldable pub stop_work : Ptr → Cmd S Rc
  stop_work p = pure success

  abbrev pub set_parent : Ptr → Option Ptr → Cmd S (Unit {0})
  set_parent p parent = do o ← load p; store p (record o { parent = parent })

module _ {S : Type 0} (env : Env S) where
  open env use {backend}

  -- `aml__stop_handler`
  unfoldable pub stop_handler : Ptr → Cmd S Rc
  stop_handler p = do rc ← backend.del_fd p; on_success rc (set_parent p none >> pure success)

  -- `aml__stop_signal`
  unfoldable pub stop_signal : Ptr → Cmd S Rc
  stop_signal p = backend.del_signal p

  -- The switch in `aml__stop_unchecked`.
  unfoldable pub stop_kind : ObjType → Ptr → Cmd S Rc
  unfolding stop_handler stop_timer stop_signal stop_work stop_idle
  stop_kind main_loop p = pure failure
  stop_kind handler p = stop_handler p
  stop_kind timer p = stop_timer p
  stop_kind ticker p = stop_timer p
  stop_kind signal p = stop_signal p
  stop_kind work p = stop_work p
  stop_kind idle p = stop_idle p
  stop_kind unspec p = fail

  unfoldable pub stop_unchecked : Ptr → Cmd S Rc
  unfolding stop_kind
  stop_unchecked p = do o ← load p; stop_kind o.kind p
