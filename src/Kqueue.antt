-- ===== src/Kqueue.antt =====
-- The descriptor events of src/kqueue.c: `kq_add_fd` (also the backend's `mod_fd`) registers what the
-- mask gained and removes what it lost against the mask that it saw last.
pub mod Filters
pub mod Poll
pub mod State
pub mod Backend
pub mod Running
use Prim.Native.Nat.{bit_xor}
use aml.Base.{ℕ, Bool, true, false, List, [], ◌∷◌, ◌++◌, if◌then◌else◌}
use aml.World.{Ptr, Cmd, Rc, ◌>>=◌, ◌>>◌, load, store}
use aml.Object.{event_read}
use aml.Posix.{is_set, event_write}

pub data Filter : Type 0 where
  evfilt_read evfilt_write : Filter

pub data Action : Type 0 where
  ev_add ev_delete : Action

-- `struct kevent`, as far as EV_SET fills it in for a descriptor.
pub record Kevent : Type 0 where
  pub fd : ℕ
  pub filter : Filter
  pub action : Action

abbrev pub action_of : Bool → Action
action_of true = ev_add
action_of false = ev_delete

-- The `events` of `kq_add_fd` for descriptor `fd`.
unfoldable pub changes : ℕ → ℕ → ℕ → List Kevent
changes fd last_mask mask =
    (if is_set (bit_xor mask last_mask) event_read
      then record { fd = fd; filter = evfilt_read; action = action_of (is_set mask event_read) }
        ∷ []
      else [])
    ++ (if is_set (bit_xor mask last_mask) event_write
        then record { fd = fd; filter = evfilt_write; action = action_of (is_set mask event_write) }
          ∷ []
        else [])

-- The `events` of `kq_del_fd`.
unfoldable pub removals : ℕ → ℕ → List Kevent
removals fd last_mask =
    (if is_set last_mask event_read
      then record { fd = fd; filter = evfilt_read; action = ev_delete } ∷ []
      else [])
    ++ (if is_set last_mask event_write
        then record { fd = fd; filter = evfilt_write; action = ev_delete } ∷ []
        else [])

module _ {S : Type 0} (kevent : List Kevent → Cmd S Rc) where
  unfoldable pub kq_add_fd : Ptr → Cmd S Rc
  unfolding changes
  kq_add_fd p = do
    o ← load p
    store p (record o { backend_data = o.event_mask })
    kevent (changes o.fd o.backend_data o.event_mask)

  unfoldable pub kq_del_fd : Ptr → Cmd S Rc
  unfolding removals
  kq_del_fd p = do o ← load p; kevent (removals o.fd o.backend_data)
