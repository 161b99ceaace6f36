-- ===== src/Object.antt =====
-- Constructors, getters and setters of src/aml.c. `fresh` is what `calloc` returns.
use aml.Base.{ℕ, Bool, true, false, Option, none, some, [], if◌then◌else◌}
use aml.World.{
  Ptr, Fn, ObjType, handler, timer, ticker, signal, work, idle, Obj, Cmd, pure, fail, ◌>>=◌, ◌>>◌,
  load, store, get, modify,
}

-- What `calloc` leaves, with the header that every constructor fills in.
abbrev pub new_obj : ObjType → Option Fn → Ptr → Option Fn → Obj
new_obj kind cb userdata free_fn = record {
  kind = kind;
  ref = 1;
  userdata = userdata;
  free_fn = free_fn;
  cb = cb;
  n_events = 0;
  weak_refs = [];
  backend_data = 0;
  fd = 0;
  event_mask = 0;
  revents = 0;
  parent = none;
  timeout = 0;
  deadline = 0;
  expired = false;
  signo = 0;
  work_fn = none;
}

abbrev pub event_read : ℕ
event_read = 1

abbrev pub is_handler : ObjType → Bool
is_handler handler = true
is_handler _ = false

abbrev pub is_timer : ObjType → Bool
is_timer timer = true
is_timer ticker = true
is_timer _ = false

abbrev pub is_ticker : ObjType → Bool
is_ticker ticker = true
is_ticker _ = false

abbrev pub is_idle : ObjType → Bool
is_idle idle = true
is_idle _ = false

-- `aml__obj_is_single_shot`
abbrev pub obj_is_single_shot : ObjType → Bool
obj_is_single_shot timer = true
obj_is_single_shot work = true
obj_is_single_shot _ = false

module _ {S : Type 0} where
  -- `calloc`, NULL passed on.
  abbrev pub alloc : Option Ptr → Obj → Cmd S (Option Ptr)
  alloc none o = pure none
  alloc (some p) o = store p o >> pure (some p)

  unfoldable pub aml_handler_new : Option Ptr → ℕ → Option Fn → Ptr → Option Fn → Cmd S (Option Ptr)
  aml_handler_new fresh fd cb userdata free_fn =
      let header = new_obj handler cb userdata free_fn in
      alloc fresh (record header { fd = fd; event_mask = event_read })

  unfoldable pub aml_timer_new : Option Ptr → ℕ → Option Fn → Ptr → Option Fn → Cmd S (Option Ptr)
  aml_timer_new fresh timeout cb userdata free_fn =
      let header = new_obj timer cb userdata free_fn in
      alloc fresh (record header { timeout = timeout })

  -- `timer->obj.type` is written with no test for NULL.
  unfoldable pub aml_ticker_new : Option Ptr → ℕ → Option Fn → Ptr → Option Fn → Cmd S (Option Ptr)
  unfolding aml_timer_new
  aml_ticker_new fresh period cb userdata free_fn = do
    t ← aml_timer_new fresh period cb userdata free_fn
    elim t [
      | none ↦ fail
      | some p ↦ do o ← load p; store p (record o { kind = ticker }); pure (some p)
    ]

  unfoldable pub aml_signal_new : Option Ptr → ℕ → Option Fn → Ptr → Option Fn → Cmd S (Option Ptr)
  aml_signal_new fresh signo cb userdata free_fn =
      let header = new_obj signal cb userdata free_fn in
      alloc fresh (record header { signo = signo })

  unfoldable pub aml_work_new :
      Option Ptr → Option Fn → Option Fn → Ptr → Option Fn → Cmd S (Option Ptr)
  aml_work_new fresh work_fn cb userdata free_fn =
      let header = new_obj work cb userdata free_fn in
      alloc fresh (record header { work_fn = work_fn })

  unfoldable pub aml_idle_new : Option Ptr → Option Fn → Ptr → Option Fn → Cmd S (Option Ptr)
  aml_idle_new fresh cb userdata free_fn = alloc fresh (new_obj idle cb userdata free_fn)

  unfoldable pub aml_get_userdata : Ptr → Cmd S Ptr
  aml_get_userdata p = do o ← load p; pure o.userdata

  unfoldable pub aml_set_userdata : Ptr → Ptr → Option Fn → Cmd S (Unit {0})
  aml_set_userdata p userdata free_fn = do
    o ← load p
    store p (record o { userdata = userdata; free_fn = free_fn })

  unfoldable pub aml_get_event_mask : Ptr → Cmd S ℕ
  aml_get_event_mask p = do o ← load p; pure o.event_mask

  unfoldable pub aml_get_revents : Ptr → Cmd S ℕ
  aml_get_revents p = do o ← load p; pure o.revents

  unfoldable pub aml_get_signo : Ptr → Cmd S ℕ
  aml_get_signo p = do o ← load p; pure o.signo

  unfoldable pub aml_get_work_fn : Ptr → Cmd S (Option Fn)
  aml_get_work_fn p = do o ← load p; pure o.work_fn

  unfoldable pub aml_get_backend_data : Ptr → Cmd S Ptr
  aml_get_backend_data p = do o ← load p; pure o.backend_data

  unfoldable pub aml_set_backend_data : Ptr → Ptr → Cmd S (Unit {0})
  aml_set_backend_data p x = do o ← load p; store p (record o { backend_data = x })

  -- `abort` on an object that is neither a timer nor a ticker.
  unfoldable pub aml_set_duration : Ptr → ℕ → Cmd S (Unit {0})
  aml_set_duration p duration = do
    o ← load p
    if is_timer o.kind then store p (record o { timeout = duration }) else fail

  unfoldable pub aml_set_default : Option Ptr → Cmd S (Unit {0})
  aml_set_default p = modify (λ w. record w { default = p })

  unfoldable pub aml_get_default : Cmd S (Option Ptr)
  aml_get_default = get (λ w. w.default)
