-- ===== src/Posix/State/Lends.antt =====
-- What `posix_new_state` in src/posix.c leaves behind.
use aml.Base.{
  ℕ, ◌*◌, ◌+◌, ◌≡◌, ◌≤◌, List, Bool, true, false, Option, none, some, [], ◌∷◌, arith, refl,
}
use aml.Base.Int.{ℤ, is_negative}
use aml.World.{Ptr, World, pure, ◌>>◌}
use aml.Resources.{
  block, one_self, Resource, Ends, ends, bind-Ends, mono-Ends, Calls, Holdings, Gains, GainsBy,
  Loses, Accounts, one, count,
}
use aml.Posix.State.{
  PosixState, PosixCalls, posix_new_state, posix_owned, pipe_made, arrays_made, posix_made, spawned,
  piped, free_option, dont_block, init_event_pipe, spawn_poller,
}
use aml.Posix.State.Outcomes.{PipeGains, PosixAccounts, Outcome, created, refused, leaked}
use aml.Posix.State.Release.{posix_release-Gains}

module _ {S : Type 0} {held : Holdings S} {memory pipes : Bool} {calls : Calls S}
    {kernel : PosixCalls S} (accounts : Accounts held calls)
    (posix : PosixAccounts held memory pipes calls kernel) where
  dont_block-Gains : (fd : ℕ) (w : World S) → Ends (λ _. Gains held [] w) (dont_block kernel fd w)
  unfolding dont_block
  dont_block-Gains fd w =
      bind-Ends (posix.getfl fd w)
        λ flags w1 b1. mono-Ends (posix.setfl fd _ w1) λ _ w2 b2 q. omega (arith, b1 q, b2 q)

  init_event_pipe-Gains : (w : World S) → Ends (PipeGains held pipes w) (init_event_pipe kernel w)
  unfolding init_event_pipe
  init_event_pipe-Gains w = bind-Ends (posix.pipe w) λ fds w1 b1. unblocked pipes fds w w1 b1
    where
      unblocked :
          (pipes : Bool) (fds : Option (ℕ × ℕ)) (w w1 : World S)
          → PipeGains held pipes w fds w1
          → Ends (PipeGains held pipes w) (piped kernel fds w1)
      unblocked true none w w1 b = absurd b
      unblocked false none w w1 b = ends b
      unblocked false (some (r, t)) w w1 b = absurd b
      unblocked true (some (r, t)) w w1 b = bind-Ends (dont_block-Gains r w1) λ _ w2 b2.
          bind-Ends (dont_block-Gains t w2) λ _ w3 b3. ends λ q. omega (arith, b q, b2 q, b3 q)

  spawn_poller-Gains :
      (w : World S)
      → Ends (λ rc w'. (is_negative rc ≡ false) × Gains held [] w w') (spawn_poller kernel w)
  unfolding spawn_poller
  spawn_poller-Gains w = bind-Ends (posix.sigaction w) λ _ w1 b1.
      mono-Ends (posix.pthread_create w1)
        λ rc w2 (nonneg, b2). (nonneg, λ q. omega (arith, b1 q, b2 q))

  abbrev Left : World S → Option PosixState → World S → Type 0
  Left w = Outcome held memory pipes calls w

  spawned-Outcome :
      (s : PosixState) (w w1 w2 : World S) (rc : ℤ)
      → pipes ≡ true
      → Gains held (posix_owned s) w w1
      → is_negative rc ≡ false
      → Gains held [] w1 w2
      → Ends (Left w) (spawned calls kernel s rc w2)
  spawned-Outcome s w w1 w2 rc works b nonneg b2 =
      let b' : Gains held (posix_owned s) w w2 = λ q. omega (arith, b q, b2 q) in
      rw (nonneg) (ends (created works b' (posix_release-Gains accounts s w w2 b')))

  -- What is held before the event pipe is made.
  abbrev Arrays : Ptr → Ptr → Ptr → World S → World S → Type 0
  Arrays p f h w w' = Gains held (block h ∷ block f ∷ block p ∷ []) w w'

  pipe_made-Outcome :
      (flag : Bool) (same : pipes ≡ flag) (aml p f h : Ptr) (fds : Option (ℕ × ℕ))
      (w w1 w2 : World S)
      → Arrays p f h w w1
      → PipeGains held flag w1 fds w2
      → Ends (Left w) (pipe_made calls kernel aml p f h fds w2)
  pipe_made-Outcome true same aml p f h none w w1 w2 b b2 = absurd b2
  pipe_made-Outcome false same aml p f h (some (r, t)) w w1 w2 b b2 = absurd b2
  pipe_made-Outcome false same aml p f h none w w1 w2 b b2 =
      let m : Resource = block p in
      bind-Ends (accounts.free p w2 (omega (arith, b m, b2 m, one_self m)))
        λ _ w3 b3. ends (leaked f h same λ q. omega (arith, b q, b2 q, b3 q))
  pipe_made-Outcome true same aml p f h (some (r, t)) w w1 w2 b b2 =
      bind-Ends (spawn_poller-Gains w2) λ rc w3 (nonneg, b3).
        spawned-Outcome _ w w2 w3 rc same (λ q. omega (arith, b q, b2 q)) nonneg b3

  abbrev blocks : Option Ptr → List Resource
  blocks none = []
  blocks (some p) = block p ∷ []

  GainsBy-blocks :
      (p : Option Ptr) (w w' : World S) → GainsBy held block w p w' → Gains held (blocks p) w w'
  GainsBy-blocks none w w' b = b
  GainsBy-blocks (some p) w w' b = b

  free_option-Loses :
      (p : Option Ptr) (w : World S)
      → ((q : Resource) → count (blocks p) q ≤ held w q)
      → Ends (λ _. Loses held (blocks p) w) (free_option calls p w)
  free_option-Loses none w enough = ends λ q. omega arith
  free_option-Loses (some p) w enough =
      accounts.free p w (omega (arith, enough (block p), one_self (block p)))

  -- Where an array could not be made, the other one is freed with the state.
  refused-Outcome :
      (f h : Option Ptr) (p : Ptr) (w w1 : World S)
      → memory ≡ false
      → ((q : Resource)
          → held w1 q ≡ held w q + one (block p) q + count (blocks f) q + count (blocks h) q)
      → Ends (Left w) ((do free_option calls f; free_option calls h; calls.free p; pure none) w1)
  refused-Outcome f h p w w1 short b =
      bind-Ends (free_option-Loses f w1 λ q. omega (arith, b q)) λ _ w2 b2.
        bind-Ends (free_option-Loses h w2 λ q. omega (arith, b q, b2 q)) λ _ w3 b3.
          let m : Resource = block p in
          bind-Ends (accounts.free p w3 (omega (arith, b m, b2 m, b3 m, one_self m)))
            λ _ w4 b4. ends (refused short λ q. omega (arith, b q, b2 q, b3 q, b4 q))

  arrays_made-Outcome :
      (aml p : Ptr) (f h : Option Ptr) (w w1 w2 w3 : World S)
      → Gains held (block p ∷ []) w w1
      → GainsBy held block w1 f w2
      → (f ≡ none → memory ≡ false)
      → GainsBy held block w2 h w3
      → (h ≡ none → memory ≡ false)
      → Ends (Left w) (arrays_made calls kernel aml p f h w3)
  arrays_made-Outcome aml p none h w w1 w2 w3 b b2 f_short b3 h_short =
      let c : Gains held (blocks h) w2 w3 = GainsBy-blocks h w2 w3 b3 in
      refused-Outcome none h p w w3 (f_short refl) λ q. omega (arith, b q, b2 q, c q)
  arrays_made-Outcome aml p (some f) none w w1 w2 w3 b b2 f_short b3 h_short =
      refused-Outcome (some f) none p w w3 (h_short refl) λ q. omega (arith, b q, b2 q, b3 q)
  arrays_made-Outcome aml p (some f) (some h) w w1 w2 w3 b b2 f_short b3 h_short =
      bind-Ends (init_event_pipe-Gains w3) λ fds w4 b4.
        pipe_made-Outcome pipes refl aml p f h fds w w3 w4 (λ q. omega (arith, b q, b2 q, b3 q)) b4

  posix_made-Outcome :
      (aml : Ptr) (p : Option Ptr) (w w1 : World S)
      → GainsBy held block w p w1
      → (p ≡ none → memory ≡ false)
      → Ends (Left w) (posix_made calls kernel aml p w1)
  posix_made-Outcome aml none w w1 b short = ends (refused (short refl) b)
  posix_made-Outcome aml (some p) w w1 b short =
      bind-Ends (posix.malloc (8 * 128) w1) λ f w2 (b2, f_short).
        bind-Ends (posix.malloc (8 * 128) w2)
          λ h w3 (b3, h_short). arrays_made-Outcome aml p f h w w1 w2 w3 b b2 f_short b3 h_short

  -- If the calls of the C library and the kernel keep account of what they hand out and take back,
  -- and pthread_create never returns a negative number, posix_new_state ends in one of three ways:
  -- where pipe() succeeds, with a state, whatever pthread_create returned, that owns exactly three
  -- blocks and two descriptors, all of which the end of posix_del_state gives back; where an
  -- allocation fails, with NULL and nothing kept; where pipe() fails, with NULL and the two arrays
  -- of the poll table still allocated.
  pub posix_new_state-Outcome :
      (aml : Ptr) (w : World S)
      → Ends (Outcome held memory pipes calls w) (posix_new_state calls kernel aml w)
  unfolding posix_new_state
  posix_new_state-Outcome aml w =
      bind-Ends (posix.calloc w) λ p w1 (b, short). posix_made-Outcome aml p w w1 b short
