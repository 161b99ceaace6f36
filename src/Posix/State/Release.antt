-- ===== src/Posix/State/Release.antt =====
-- The end of `posix_del_state` in src/posix.c gives back what a state owns.
use aml.Base.{[], ◌∷◌, arith}
use aml.World.{World}
use aml.Resources.{
  block, descriptor, one_self, Resource, Ends, bind-Ends, mono-Ends, Calls, Holdings, Gains,
  Accounts,
}
use aml.Posix.State.{PosixState, posix_release, posix_owned}

module _ {S : Type 0} {held : Holdings S} {calls : Calls S} (accounts : Accounts held calls) where
  pub posix_release-Gains :
      (s : PosixState) (w0 w : World S)
      → Gains held (posix_owned s) w0 w
      → Ends (λ _. Gains held [] w0) (posix_release calls s w)
  unfolding posix_release
  posix_release-Gains s w0 w b =
      let r : Resource = descriptor s.event_pipe_rfd in
      let t : Resource = descriptor s.event_pipe_wfd in
      let h : Resource = block s.handlers in
      let f : Resource = block s.fds in
      let p : Resource = block s.addr in
      bind-Ends (accounts.close s.event_pipe_rfd w (omega (arith, b r, one_self r))) λ _ w1 b1.
        let c1 : Gains held (t ∷ h ∷ f ∷ p ∷ []) w0 w1 = λ q. omega (arith, b q, b1 q) in
        bind-Ends (accounts.close s.event_pipe_wfd w1 (omega (arith, c1 t, one_self t))) λ _ w2 b2.
          let c2 : Gains held (h ∷ f ∷ p ∷ []) w0 w2 = λ q. omega (arith, c1 q, b2 q) in
          bind-Ends (accounts.free s.handlers w2 (omega (arith, c2 h, one_self h))) λ _ w3 b3.
            let c3 : Gains held (f ∷ p ∷ []) w0 w3 = λ q. omega (arith, c2 q, b3 q) in
            bind-Ends (accounts.free s.fds w3 (omega (arith, c3 f, one_self f))) λ _ w4 b4.
              let c4 : Gains held (p ∷ []) w0 w4 = λ q. omega (arith, c3 q, b4 q) in
              mono-Ends (accounts.free s.addr w4 (omega (arith, c4 p, one_self p)))
                λ _ w5 b5 q. omega (arith, c4 q, b5 q)
