-- ===== src/Kqueue/State.antt =====
-- The state of the kqueue backend in src/kqueue.c, from `kq_new_state` to `kq_del_state`.
use aml.Base.{ℕ, Option, none, some, List, [], ◌∷◌, arith}
use aml.World.{Ptr, World, Cmd, pure, ◌>>=◌, ◌>>◌}
use aml.Resources.{
  block, descriptor, one_self, Resource, Ends, ends, bind-Ends, mono-Ends, Calls, Holdings, Gains,
  GainsBy, Lends, Accounts,
}

-- `struct kq_state`, with its address.
pub record KqState : Type 0 where
  pub addr : Ptr
  pub aml : Ptr
  pub fd : ℕ

module _ {S : Type 0} (calls : Calls S) (kqueue : Cmd S (Option ℕ)) where
  abbrev pub with_kqueue : Ptr → Ptr → Option ℕ → Cmd S (Option KqState)
  with_kqueue aml p none = do calls.free p; pure none
  with_kqueue aml p (some fd) = pure (some (record { addr = p; aml = aml; fd = fd }))

  abbrev pub with_block : Ptr → Option Ptr → Cmd S (Option KqState)
  with_block aml none = pure none
  with_block aml (some p) = do fd ← kqueue; with_kqueue aml p fd

  unfoldable pub kq_new_state : Ptr → Cmd S (Option KqState)
  kq_new_state aml = do p ← calls.calloc; with_block aml p

module _ {S : Type 0} (calls : Calls S) where
  unfoldable pub kq_del_state : KqState → Cmd S (Unit {0})
  kq_del_state self = do calls.close self.fd; calls.free self.addr

unfoldable pub kq_get_fd : KqState → ℕ
kq_get_fd self = self.fd

abbrev pub kq_owned : KqState → List Resource
kq_owned s = descriptor s.fd ∷ block s.addr ∷ []

module _ {S : Type 0} {held : Holdings S} {calls : Calls S} (accounts : Accounts held calls)
    {kqueue : Cmd S (Option ℕ)}
    (kqueue_accounts : (w : World S) → Ends (GainsBy held descriptor w) (kqueue w)) where
  kq_del_state-Loses :
      (s : KqState) (w0 w : World S)
      → Gains held (kq_owned s) w0 w
      → Ends (λ _. Gains held [] w0) (kq_del_state calls s w)
  unfolding kq_del_state
  kq_del_state-Loses s w0 w b =
      let fd : Resource = descriptor s.fd in
      let p : Resource = block s.addr in
      bind-Ends (accounts.close s.fd w (omega (arith, b fd, one_self fd))) λ _ w1 b1.
        mono-Ends (accounts.free s.addr w1 (omega (arith, b p, b1 p, one_self p)))
          λ _ w2 b2 q. omega (arith, b q, b1 q, b2 q)

  -- If calloc, free, kqueue() and close keep account of what they hand out and take back,
  -- kq_new_state returns a state that owns one block and one descriptor, all of which kq_del_state
  -- gives back, or NULL with nothing kept.
  kq_new_state-Lends :
      (aml : Ptr) (w : World S)
      → Ends (Lends held kq_owned (kq_del_state calls) w) (kq_new_state calls kqueue aml w)
  unfolding kq_new_state
  kq_new_state-Lends aml w = bind-Ends (accounts.calloc w) made
    where
      kept :
          (p : Ptr) (w1 : World S)
          → Gains held (block p ∷ []) w w1
          → (fd : Option ℕ) (w2 : World S) → GainsBy held descriptor w1 fd w2
          → Ends (Lends held kq_owned (kq_del_state calls) w) (with_kqueue calls kqueue aml p fd w2)
      kept p w1 b1 none w2 b2 =
          bind-Ends
            (accounts.free p w2 (omega (arith, b1 (block p), b2 (block p), one_self (block p))))
            λ _ w3 b3. ends λ q. omega (arith, b1 q, b2 q, b3 q)
      kept p w1 b1 (some fd) w2 b2 =
          let b : Gains held (descriptor fd ∷ block p ∷ []) w w2 = λ q. omega (arith, b1 q, b2 q) in
          ends (b, kq_del_state-Loses (record { addr = p; aml = aml; fd = fd }) w w2 b)

      made :
          (p : Option Ptr) (w1 : World S)
          → GainsBy held block w p w1
          → Ends (Lends held kq_owned (kq_del_state calls) w) (with_block calls kqueue aml p w1)
      made none w1 b1 = ends b1
      made (some p) w1 b1 = bind-Ends (kqueue_accounts w1) (kept p w1 b1)
