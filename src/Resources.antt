-- ===== src/Resources.antt =====
-- The blocks and descriptors that the backends of src/epoll.c, src/kqueue.c and src/posix.c take from
-- the C library and the kernel. The calls are parameters; `Accounts` says of them what their manuals
-- do: a call that succeeds hands out one thing, and `free` and `close` give back a thing that is held.
use aml.Base.{
  ℕ, ◌+◌, ◌≡◌, ◌<◌, Option, none, some, List, [], ◌∷◌, ◌==◌, if◌then◌else◌, refl, test_refl,
}
pub use aml.World.Safe.{Ends, ends, bind-Ends, mono-Ends}
use aml.World.{Ptr, World, Cmd}

pub data Resource : Type 0 where
  block : Ptr → Resource
  descriptor : (fd : ℕ) → Resource

abbrev pub one : Resource → Resource → ℕ
one (block p) (block q) = if p == q then 1 else 0
one (descriptor a) (descriptor b) = if a == b then 1 else 0
one _ _ = 0

pub one_self : (r : Resource) → one r r ≡ 1
one_self (block p) = rw (test_refl p) refl
one_self (descriptor a) = rw (test_refl a) refl

abbrev pub count : List Resource → Resource → ℕ
count [] q = 0
count (r ∷ rs) q = one r q + count rs q

-- `calloc` and `malloc`, `free` and `close`.
pub record Calls (S : Type 0) : Type 0 where
  pub calloc : Cmd S (Option Ptr)
  pub malloc : (size : ℕ) → Cmd S (Option Ptr)
  pub free : Ptr → Cmd S (Unit {0})
  pub close : (fd : ℕ) → Cmd S (Unit {0})

-- How many of each thing the process holds in a state.
abbrev pub Holdings : Type 0 → Type 0
Holdings S = World S → Resource → ℕ

module _ {S : Type 0} (held : Holdings S) where
  -- From `w` to `w'` the process gains exactly `got`, or loses exactly `lost`.
  abbrev pub Gains : List Resource → World S → World S → Type 0
  Gains got w w' = (q : Resource) → held w' q ≡ held w q + count got q

  abbrev pub Loses : List Resource → World S → World S → Type 0
  Loses lost w w' = (q : Resource) → held w' q + count lost q ≡ held w q

  abbrev pub GainsBy : {A : Type 0} → (A → Resource) → World S → Option A → World S → Type 0
  GainsBy of w none w' = Gains [] w w'
  GainsBy of w (some a) w' = Gains (of a ∷ []) w w'

  pub record Accounts (calls : Calls S) : Type 0 where
    pub calloc : (w : World S) → Ends (GainsBy block w) (calls.calloc w)
    pub malloc : (size : ℕ) (w : World S) → Ends (GainsBy block w) (calls.malloc size w)
    pub free :
        (p : Ptr) (w : World S)
        → 0 < held w (block p)
        → Ends (λ _. Loses (block p ∷ []) w) (calls.free p w)
    pub close :
        (fd : ℕ) (w : World S)
        → 0 < held w (descriptor fd)
        → Ends (λ _. Loses (descriptor fd ∷ []) w) (calls.close fd w)

  -- A state, if one was made, owns `got`; releasing it gives all of that back.
  abbrev pub Lends :
      {A : Type 0}
      → (A → List Resource)
      → (A → Cmd S (Unit {0}))
      → World S
      → Option A
      → World S
      → Type 0
  Lends got release w none w' = Gains [] w w'
  Lends got release w (some a) w' = Gains (got a) w w' × Ends (λ _. Gains [] w) (release a w')
