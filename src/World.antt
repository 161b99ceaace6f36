-- ===== src/World.antt =====
-- The data of src/aml.c: the objects by address, the weak references, the main loop's own fields,
-- and commands that read and write them. One `struct aml` is in play; its header (reference count,
-- weak references) is an object like the others, at the address `self`.
pub mod Env
pub mod Safe
pub mod Outside
pub mod Keeps
pub mod Views
pub mod Calm
use aml.Base.{ℕ, ◌^◌, Bool, List, Option, none, some, ◌==◌, if◌then◌else◌, has, erase, ltb}

-- Addresses, and the identities of callback functions.
abbrev pub Ptr : Type 0
Ptr = ℕ

abbrev pub Fn : Type 0
Fn = ℕ

-- `enum aml_obj_type`
pub data ObjType : Type 0 where
  unspec main_loop handler timer ticker signal work idle : ObjType

-- `struct aml_obj` with the fields of the structs that begin with one. A field of a struct that the
-- object is not stays at the zero of `calloc`, and list links are the lists of `World`.
pub record Obj : Type 0 where
  pub kind : ObjType
  pub ref : ℕ
  pub userdata : Ptr
  pub free_fn : Option Fn
  pub cb : Option Fn
  pub n_events : ℕ
  pub weak_refs : List Ptr
  pub backend_data : Ptr
  pub fd : ℕ
  pub event_mask : ℕ
  pub revents : ℕ
  pub parent : Option Ptr
  pub timeout : ℕ
  pub deadline : ℕ
  pub expired : Bool
  pub signo : ℕ
  pub work_fn : Option Fn

-- The store, the fields of `struct aml`, and the state `S` of whatever lies outside aml.c.
-- `idle_stale p` is the `link.le_next` that an idle object keeps when it is taken off its list;
-- that of an element is its successor in `idle_list`.
-- `weak r` is the `obj` of the `struct aml_weak_ref` at `r`, if one is allocated there.
pub record World (S : Type 0) : Type 0 where
  pub objs : Ptr → Option Obj
  pub weak : Ptr → Option (Option Ptr)
  pub default : Option Ptr
  pub self : Ptr
  pub do_exit : Bool
  pub obj_list : List Ptr
  pub timer_list : List Ptr
  pub idle_list : List Ptr
  pub idle_stale : Ptr → Option Ptr
  pub event_queue : List Ptr
  pub have_thread_pool : Bool
  pub self_pipe_rfd : ℕ
  pub self_pipe_wfd : ℕ
  pub state : S

-- `fault`: a failed assertion, `abort`, a read through a dead or null pointer, the removal of an
-- unlinked list element. `overflow`: a signed counter passes its type. `out_of_fuel`: no verdict.
pub data Run (S A : Type 0) : Type 0 where
  ok : A → World S → Run S A
  fault overflow out_of_fuel : Run S A

abbrev pub Cmd : Type 0 → Type 0 → Type 0
Cmd S A = World S → Run S A

-- The `int` that operations return: 0, or -1.
pub data Rc : Type 0 where
  success failure : Rc

module _ {S : Type 0} where
  abbrev pub pure : {A : Type 0} → A → Cmd S A
  pure a = λ w. ok a w

  abbrev pub fail : {A : Type 0} → Cmd S A
  fail = λ w. fault

  abbrev pub skip : Cmd S (Unit {0})
  skip = λ w. ok tt w

module _ {S A B : Type 0} where
  abbrev pub and_then : Run S A → (A → Cmd S B) → Run S B
  and_then (ok a w) k = k a w
  and_then fault k = fault
  and_then overflow k = overflow
  and_then out_of_fuel k = out_of_fuel

  infixl 5 ◌>>=◌ ◌>>◌
  abbrev pub ◌>>=◌ : Cmd S A → (A → Cmd S B) → Cmd S B
  m >>= k = λ w. and_then (m w) k

  abbrev pub ◌>>◌ : Cmd S A → Cmd S B → Cmd S B
  m >> n = m >>= λ _. n

-- INT_MAX + 1
abbrev pub int_limit : ℕ
int_limit = 2 ^ 31

abbrev pub update {ℓ} : {A : Type ℓ} → (Ptr → A) → Ptr → A → Ptr → A
update f p a q = if p == q then a else f q

module _ {S : Type 0} where
  -- `*p`
  abbrev pub load : Ptr → Cmd S Obj
  load p = λ w. elim (w.objs p) [ none ↦ fault | some o ↦ ok o w ]

  -- Writes the object at `p`; `free` gives the address back.
  abbrev pub put : Ptr → Obj → World S → World S
  put p o w = record w { objs = update w.objs p (some o) }

  abbrev pub store : Ptr → Obj → Cmd S (Unit {0})
  store p o = λ w. ok tt (put p o w)

  abbrev pub free : Ptr → Cmd S (Unit {0})
  free p = λ w. ok tt (record w { objs = update w.objs p none })

  -- The fields of `struct aml`.
  abbrev pub get : {A : Type 0} → (World S → A) → Cmd S A
  get f = λ w. ok (f w) w

  abbrev pub modify : (World S → World S) → Cmd S (Unit {0})
  modify f = λ w. ok tt (f w)

  abbrev pub when : Bool → Cmd S (Unit {0}) → Cmd S (Unit {0})
  when b c = if b then c else skip

  -- LIST_REMOVE from the list that `f` writes: the element must be linked.
  abbrev pub unlink : Ptr → List Ptr → (List Ptr → World S → World S) → Cmd S (Unit {0})
  unlink p l f = λ w. if has p l then ok tt (f (erase p l) w) else fault

  -- `x++` on an `int`.
  abbrev pub guard_int : ℕ → Cmd S (Unit {0})
  guard_int n = λ w. if ltb n int_limit then ok tt w else overflow
