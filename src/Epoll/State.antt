-- ===== src/Epoll/State.antt =====
-- The state of the epoll backend in src/epoll.c, from `epoll_new_state` to `epoll_del_state`.
use aml.Base.{ℕ, Option, none, some, List, [], ◌∷◌, arith}
use aml.World.{Ptr, World, Cmd, Rc, success, failure, pure, ◌>>=◌, ◌>>◌}
use aml.Resources.{
  block, descriptor, one_self, Resource, Ends, ends, bind-Ends, mono-Ends, Calls, Holdings, Gains,
  GainsBy, Lends, Accounts,
}

-- `struct epoll_state`, with its address.
pub record EpollState : Type 0 where
  pub addr : Ptr
  pub aml : Ptr
  pub epoll_fd : ℕ
  pub timer_fd : ℕ

-- The system calls; `epoll_ctl_add` is EPOLL_CTL_ADD with EPOLLIN and no pointer.
pub record EpollCalls (S : Type 0) : Type 0 where
  pub epoll_create : Cmd S (Option ℕ)
  pub timerfd_create : Cmd S (Option ℕ)
  pub epoll_ctl_add : (epoll_fd timer_fd : ℕ) → Cmd S Rc

module _ {S : Type 0} (calls : Calls S) (kernel : EpollCalls S) where
  -- `epoll_new_state` from its end to its start, with the label that each failure goes to.
  abbrev pub timer_added : EpollState → Rc → Cmd S (Option EpollState)
  timer_added s success = pure (some s)
  timer_added s failure = do
    calls.close s.timer_fd
    calls.close s.epoll_fd
    calls.free s.addr
    pure none

  abbrev pub timer_created : Ptr → Ptr → ℕ → Option ℕ → Cmd S (Option EpollState)
  timer_created aml p epoll_fd none = do calls.close epoll_fd; calls.free p; pure none
  timer_created aml p epoll_fd (some fd) = do
    rc ← kernel.epoll_ctl_add epoll_fd fd
    timer_added (record { addr = p; aml = aml; epoll_fd = epoll_fd; timer_fd = fd }) rc

  abbrev pub epoll_created : Ptr → Ptr → Option ℕ → Cmd S (Option EpollState)
  epoll_created aml p none = do calls.free p; pure none
  epoll_created aml p (some fd) = do t ← kernel.timerfd_create; timer_created aml p fd t

  abbrev pub state_made : Ptr → Option Ptr → Cmd S (Option EpollState)
  state_made aml none = pure none
  state_made aml (some p) = do fd ← kernel.epoll_create; epoll_created aml p fd

  unfoldable pub epoll_new_state : Ptr → Cmd S (Option EpollState)
  epoll_new_state aml = do p ← calls.calloc; state_made aml p

module _ {S : Type 0} (calls : Calls S) where
  unfoldable pub epoll_del_state : EpollState → Cmd S (Unit {0})
  epoll_del_state self = do
    calls.close self.timer_fd
    calls.close self.epoll_fd
    calls.free self.addr

unfoldable pub epoll_get_fd : EpollState → ℕ
epoll_get_fd self = self.epoll_fd

abbrev pub epoll_owned : EpollState → List Resource
epoll_owned s = descriptor s.timer_fd ∷ descriptor s.epoll_fd ∷ block s.addr ∷ []

-- What the manuals say of the system calls.
pub record EpollAccounts {S : Type 0} (held : Holdings S) (kernel : EpollCalls S) : Type 0 where
  pub epoll_create : (w : World S) → Ends (GainsBy held descriptor w) (kernel.epoll_create w)
  pub timerfd_create : (w : World S) → Ends (GainsBy held descriptor w) (kernel.timerfd_create w)
  pub epoll_ctl_add :
      (a b : ℕ) (w : World S) → Ends (λ _. Gains held [] w) (kernel.epoll_ctl_add a b w)

module _ {S : Type 0} {held : Holdings S} {calls : Calls S} (accounts : Accounts held calls) where
  -- The two descriptors are closed.
  closed_both :
      {B : Type 0} {Q : B → World S → Type 0} {k : Cmd S B} (s : EpollState) (w0 w : World S)
      → Gains held (epoll_owned s) w0 w
      → ((w2 : World S) → Gains held (block s.addr ∷ []) w0 w2 → Ends Q (k w2))
      → Ends Q ((do calls.close s.timer_fd; calls.close s.epoll_fd; k) w)
  closed_both s w0 w b next =
      let t : Resource = descriptor s.timer_fd in
      let e : Resource = descriptor s.epoll_fd in
      bind-Ends (accounts.close s.timer_fd w (omega (arith, b t, one_self t))) λ _ w1 b1.
        bind-Ends (accounts.close s.epoll_fd w1 (omega (arith, b e, b1 e, one_self e)))
          λ _ w2 b2. next w2 λ q. omega (arith, b q, b1 q, b2 q)

  epoll_del_state-Gains :
      (s : EpollState) (w0 w : World S)
      → Gains held (epoll_owned s) w0 w
      → Ends (λ _. Gains held [] w0) (epoll_del_state calls s w)
  unfolding epoll_del_state
  epoll_del_state-Gains s w0 w b = closed_both s w0 w b λ w2 b2.
      let p : Resource = block s.addr in
      mono-Ends (accounts.free s.addr w2 (omega (arith, b2 p, one_self p)))
        λ _ w3 b3 q. omega (arith, b2 q, b3 q)

  module _ {kernel : EpollCalls S} (kernel_accounts : EpollAccounts held kernel) where
    abbrev Made : World S → Option EpollState → World S → Type 0
    Made w = Lends held epoll_owned (epoll_del_state calls) w

    timer_added-Lends :
        (s : EpollState) (w w4 w5 : World S) (rc : Rc)
        → Gains held (epoll_owned s) w w4
        → Gains held [] w4 w5
        → Ends (Made w) (timer_added calls kernel s rc w5)
    timer_added-Lends s w w4 w5 success b b5 =
        let b' : Gains held (epoll_owned s) w w5 = λ q. omega (arith, b q, b5 q) in
        ends (b', epoll_del_state-Gains s w w5 b')
    timer_added-Lends s w w4 w5 failure b b5 =
        closed_both s w w5 (λ q. omega (arith, b q, b5 q))
          λ w6 b6.
            let p : Resource = block s.addr in
            bind-Ends (accounts.free s.addr w6 (omega (arith, b6 p, one_self p)))
              λ _ w7 b7. ends λ q. omega (arith, b6 q, b7 q)

    timer_created-Lends :
        (aml p fd : Ptr) (t : Option ℕ) (w w2 w3 : World S)
        → Gains held (descriptor fd ∷ block p ∷ []) w w2
        → GainsBy held descriptor w2 t w3
        → Ends (Made w) (timer_created calls kernel aml p fd t w3)
    timer_created-Lends aml p fd none w w2 w3 b b3 =
        let e : Resource = descriptor fd in
        let m : Resource = block p in
        bind-Ends (accounts.close fd w3 (omega (arith, b e, b3 e, one_self e))) λ _ w4 b4.
          bind-Ends (accounts.free p w4 (omega (arith, b m, b3 m, b4 m, one_self m)))
            λ _ w5 b5. ends λ q. omega (arith, b q, b3 q, b4 q, b5 q)
    timer_created-Lends aml p fd (some t) w w2 w3 b b3 =
        bind-Ends (kernel_accounts.epoll_ctl_add fd t w3) λ rc w4 b4.
          timer_added-Lends (record { addr = p; aml = aml; epoll_fd = fd; timer_fd = t }) w w3 w4 rc
            (λ q. omega (arith, b q, b3 q)) b4

    epoll_created-Lends :
        (aml p : Ptr) (fd : Option ℕ) (w w1 w2 : World S)
        → Gains held (block p ∷ []) w w1
        → GainsBy held descriptor w1 fd w2
        → Ends (Made w) (epoll_created calls kernel aml p fd w2)
    epoll_created-Lends aml p none w w1 w2 b b2 =
        let m : Resource = block p in
        bind-Ends (accounts.free p w2 (omega (arith, b m, b2 m, one_self m)))
          λ _ w3 b3. ends λ q. omega (arith, b q, b2 q, b3 q)
    epoll_created-Lends aml p (some fd) w w1 w2 b b2 =
        bind-Ends (kernel_accounts.timerfd_create w2)
          λ t w3 b3. timer_created-Lends aml p fd t w w2 w3 (λ q. omega (arith, b q, b2 q)) b3

    -- If calloc, free, close and the system calls keep account of what they hand out and take back,
    -- epoll_new_state returns a state that owns exactly one block and two descriptors, all of which
    -- epoll_del_state gives back, or NULL with nothing kept, whichever call fails.
    pub epoll_new_state-Lends :
        (aml : Ptr) (w : World S)
        → Ends
            (Lends held epoll_owned (epoll_del_state calls) w)
            (epoll_new_state calls kernel aml w)
    unfolding epoll_new_state
    epoll_new_state-Lends aml w = bind-Ends (accounts.calloc w) λ p w1 b1.
        elim p
            as (λ p. GainsBy held block w p w1 → Ends (Made w) (state_made calls kernel aml p w1)) [
              | none ↦ λ b. ends b
              | some p ↦ λ b.
                  bind-Ends (kernel_accounts.epoll_create w1)
                    λ fd w2 b2. epoll_created-Lends aml p fd w w1 w2 b b2
            ]
          b1
