-- ===== src/Posix/Signals.antt =====
-- The signal handlers of src/posix.c: one list for the process, and the actions that `sigaction` has
-- set. `signo_of` is the signal number of each signal object.
use aml.Base.{
  ℕ, ◌≡◌, Bool, true, false, Option, none, some, List, [], ◌∷◌, ◌==◌, if◌then◌else◌, is_some, arith,
  refl, ◌≢◌,
}
use aml.World.{Ptr, Rc, success, failure, update, Cmd, skip, ◌>>◌}
use aml.Queue.{aml_emit}

-- `signal_handlers` by the signal objects, and what the process does with each signal: `true` where
-- `posix__signal_handler` is set, `false` for SIG_DFL.
pub record Signals : Type 0 where
  pub handlers : List Ptr
  pub handled : ℕ → Bool
  pub blocked : ℕ → Bool

module _ (signo_of : Ptr → ℕ) where
  -- `signal_handler_find_by_signo`
  unfoldable pub find_by_signo : ℕ → List Ptr → Option Ptr
  find_by_signo signo [] = none
  find_by_signo signo (p ∷ ps) = if signo_of p == signo then some p else find_by_signo signo ps

  -- `signal_handler_find_by_obj`
  unfoldable pub find_by_obj : Ptr → List Ptr → Option Ptr
  find_by_obj sig [] = none
  find_by_obj sig (p ∷ ps) = if p == sig then some p else find_by_obj sig ps

  -- LIST_REMOVE of the entry that was found: the first of that object.
  abbrev pub remove_first : Ptr → List Ptr → List Ptr
  remove_first sig [] = []
  remove_first sig (p ∷ ps) = if p == sig then ps else p ∷ remove_first sig ps

  -- `memory` and `accepted`: whether `calloc` and `sigaction` succeed. The mask is the caller's, which
  -- stays blocked where `sigaction` fails.
  unfoldable pub posix_add_signal : (memory accepted : Bool) → Ptr → Signals → Rc × Signals
  unfolding find_by_signo
  posix_add_signal memory accepted sig s =
      let added : Signals = record s { handlers = sig ∷ s.handlers } in
      let block : Signals = record s { blocked = update s.blocked (signo_of sig) true } in
      if memory
      then (if is_some (find_by_signo (signo_of sig) s.handlers)
          then (success, added)
          else if accepted
          then (
            success,
            record block {
              handlers = sig ∷ s.handlers;
              handled = update s.handled (signo_of sig) true;
            },
          )
          else (failure, block))
      else (failure, s)

  unfoldable pub posix_del_signal : Ptr → Signals → Rc × Signals
  unfolding find_by_signo find_by_obj
  posix_del_signal sig s =
      let left = remove_first sig s.handlers in
      let removed : Signals = record s { handlers = left } in
      if is_some (find_by_obj sig s.handlers)
      then (
        success,
        if is_some (find_by_signo (signo_of sig) left) then removed else record removed {
          handled = update s.handled (signo_of sig) false;
          blocked = update s.blocked (signo_of sig) false;
        },
      )
      else (failure, s)

  -- `posix__signal_handler`
  unfoldable pub signal_handler : {S : Type 0} → ℕ → List Ptr → Cmd S (Unit {0})
  signal_handler signo [] = skip
  signal_handler signo (p ∷ ps) =
      (if signo_of p == signo then aml_emit p 0 else skip) >> signal_handler signo ps

  -- A signal is handled exactly when an object in the list is for it.
  pub record IsInstalled (s : Signals) : Type 0 where
    pub installed : (signo : ℕ) → s.handled signo ≡ is_some (find_by_signo signo s.handlers)

  remove_first-other :
      (sig : Ptr) (signo : ℕ) (ps : List Ptr)
      → signo_of sig ≢ signo
      → is_some (find_by_signo signo (remove_first sig ps)) ≡ is_some (find_by_signo signo ps)
  unfolding find_by_signo
  remove_first-other sig signo [] ne = refl
  remove_first-other sig signo (p ∷ ps) ne = ground (arith, remove_first-other sig signo ps ne)

  remove_first-missing :
      (sig : Ptr) (ps : List Ptr)
      → is_some (find_by_obj sig ps) ≡ true
      → is_some (find_by_signo (signo_of sig) ps) ≡ true
  unfolding find_by_signo find_by_obj
  remove_first-missing sig [] found = absurd (cc)
  remove_first-missing sig (p ∷ ps) found = ground (arith, remove_first-missing sig ps)

  posix_add_signal-at :
      (memory accepted : Bool) (sig : Ptr) (s : Signals)
      → IsInstalled s
      → (signo : ℕ)
      → (posix_add_signal memory accepted sig s).1.handled signo
        ≡ is_some (find_by_signo signo (posix_add_signal memory accepted sig s).1.handlers)
  unfolding posix_add_signal
  posix_add_signal-at memory accepted sig s v signo = ground (arith, v.installed signo)

  posix_del_signal-at :
      (sig : Ptr) (s : Signals)
      → IsInstalled s
      → (signo : ℕ)
      → (posix_del_signal sig s).1.handled signo
        ≡ is_some (find_by_signo signo (posix_del_signal sig s).1.handlers)
  unfolding posix_del_signal
  posix_del_signal-at sig s v signo = ground (
    arith,
    v.installed signo,
    remove_first-other sig signo s.handlers,
    remove_first-missing sig s.handlers,
  )

  -- If each signal has the action of the backend exactly when an object in the list is for it, then
  -- that holds after posix_add_signal, whether calloc and sigaction succeed or not, and after
  -- posix_del_signal, whether the object is in the list or not.
  pub posix_add_signal-IsInstalled :
      (memory accepted : Bool) (sig : Ptr) (s : Signals)
      → IsInstalled s
      → IsInstalled (posix_add_signal memory accepted sig s).1
        × IsInstalled (posix_del_signal sig s).1
  posix_add_signal-IsInstalled memory accepted sig s v = (
    record { installed = posix_add_signal-at memory accepted sig s v },
    record { installed = posix_del_signal-at sig s v },
  )
