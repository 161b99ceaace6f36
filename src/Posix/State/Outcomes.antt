-- ===== src/Posix/State/Outcomes.antt =====
-- What src/posix.c relies on of the system calls in `posix_new_state`, and what that may leave behind.
use aml.Base.{ℕ, ◌≡◌, Bool, true, false, Option, none, some, [], ◌∷◌}
use aml.Base.Int.{is_negative}
use aml.World.{Ptr, World}
use aml.Resources.{block, descriptor, Ends, Calls, Holdings, Gains, GainsBy}
use aml.Posix.State.{PosixState, PosixCalls, posix_release, posix_owned}

module _ {S : Type 0} (held : Holdings S) where
  abbrev pub PipeGains : Bool → World S → Option (ℕ × ℕ) → World S → Type 0
  PipeGains true w (some (r, t)) w' = Gains held (descriptor r ∷ descriptor t ∷ []) w w'
  PipeGains false w none w' = Gains held [] w w'
  PipeGains _ w _ w' = ⊥

  -- What the manuals say of the system calls, where pipe() succeeds exactly if `pipes`, and calloc
  -- and malloc succeed if `memory`. pthread_create returns 0 or a positive error number.
  pub record PosixAccounts (memory pipes : Bool) (calls : Calls S) (kernel : PosixCalls S)
      : Type 0 where
    pub calloc :
        (w : World S)
        → Ends (λ p w'. GainsBy held block w p w' × (p ≡ none → memory ≡ false)) (calls.calloc w)
    pub malloc :
        (size : ℕ) (w : World S)
        → Ends
            (λ p w'. GainsBy held block w p w' × (p ≡ none → memory ≡ false))
            (calls.malloc size w)
    pub pipe : (w : World S) → Ends (PipeGains pipes w) (kernel.pipe w)
    pub getfl : (fd : ℕ) (w : World S) → Ends (λ _. Gains held [] w) (kernel.getfl fd w)
    pub setfl : (fd flags : ℕ) (w : World S) → Ends (λ _. Gains held [] w) (kernel.setfl fd flags w)
    pub sigaction : (w : World S) → Ends (λ _. Gains held [] w) (kernel.sigaction w)
    pub pthread_create :
        (w : World S)
        → Ends (λ rc w'. (is_negative rc ≡ false) × Gains held [] w w') (kernel.pthread_create w)

  -- A state that owns what its release gives back; NULL with nothing kept; or NULL with the two
  -- arrays of the poll table kept.
  pub data Outcome (memory pipes : Bool) (calls : Calls S) (w : World S)
      : Option PosixState → World S → Type 0 where
    created :
        {s : PosixState} {w' : World S}
        → pipes ≡ true
        → Gains held (posix_owned s) w w'
        → Ends (λ _. Gains held [] w) (posix_release calls s w')
        → Outcome memory pipes calls w (some s) w'
    refused :
        {w' : World S} → memory ≡ false → Gains held [] w w' → Outcome memory pipes calls w none w'
    leaked :
        {w' : World S} (fds handlers : Ptr)
        → pipes ≡ false
        → Gains held (block fds ∷ block handlers ∷ []) w w'
        → Outcome memory pipes calls w none w'
