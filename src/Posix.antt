-- ===== src/Posix.antt =====
-- The poll table of src/posix.c: two arrays of `max_fds` places, the first `num_fds` in use, which the
-- poller thread changes by the operations that other threads enqueue. `none` is an index out of bounds
-- or a failed assertion.
pub mod Rows
pub mod Maps
pub mod Ops
pub mod Signals
pub mod Emit
pub mod Backend
pub mod Poller
pub mod State
pub mod Handshake
use Prim.Native.Nat.{bit_and, bit_or}
use aml.Base.{
  ℕ, zero, suc, ◌+◌, ◌-◌, ◌*◌, ◌%◌, ◌^◌, Bool, true, false, Option, none, some, List, [], ◌∷◌, ◌++◌,
  ◌==◌, leb, ltb, if◌then◌else◌,
}
use aml.World.{Ptr, update}
use aml.Object.{event_read}

-- `struct pollfd`
pub record PollFd : Type 0 where
  pub fd : ℕ
  pub events : ℕ
  pub revents : ℕ

pub data FdOp : Type 0 where
  add_fd_op mod_fd_op del_fd_op : FdOp

-- The table and the queue of `struct posix_state`.
pub record Table : Type 0 where
  pub fds : ℕ → PollFd
  pub handlers : ℕ → Ptr
  pub max_fds : ℕ
  pub num_fds : ℕ
  pub fd_ops : List (FdOp × Ptr)

-- What the table reads of a handler, and the constants of poll.h.
pub record Handlers : Type 0 where
  pub fd_of : Ptr → ℕ
  pub mask_of : Ptr → ℕ
  pub pollin : ℕ
  pub pollpri : ℕ
  pub pollout : ℕ

abbrev pub event_write : ℕ
event_write = 2

abbrev pub is_set : ℕ → ℕ → Bool
is_set mask bits = if bit_and mask bits == 0 then false else true

abbrev pub add_if : Bool → ℕ → ℕ → ℕ
add_if b bits mask = if b then bit_or mask bits else mask

-- `posix__find_handler`, from index `i` with `n` places left
unfoldable pub find_from : Table → Ptr → ℕ → ℕ → Option ℕ
find_from t p zero i = none
find_from t p (suc n) i = if t.handlers i == p then some i else find_from t p n (i + 1)

unfoldable pub find_handler : Table → Ptr → Option ℕ
unfolding find_from
find_handler t p = find_from t p t.num_fds 0

-- `posix__enqueue_fd_op`, on the table's side
unfoldable pub enqueue_fd_op : FdOp → Ptr → Table → Table
enqueue_fd_op op p t = record t { fd_ops = t.fd_ops ++ (op, p) ∷ [] }

module _ (h : Handlers) where
  -- `posix_get_event_mask`
  unfoldable pub get_event_mask : Ptr → ℕ
  get_event_mask p =
      add_if (is_set (h.mask_of p) event_write) h.pollout
        (add_if (is_set (h.mask_of p) event_read) (bit_or h.pollin h.pollpri) 0)

  -- `posix_poll_events_to_aml_events`
  unfoldable pub poll_events_to_aml_events : ℕ → ℕ
  poll_events_to_aml_events poll_events =
      add_if (is_set poll_events h.pollout) event_read
        (add_if (is_set poll_events (bit_or h.pollin h.pollpri)) event_read 0)

  -- The doubling in `posix_add_fd_op`; `grown` says whether both calls of `realloc` succeed.
  unfoldable pub grow : Bool → Table → Option Table
  grow grown t =
      if leb t.max_fds t.num_fds
      then (if grown then some (record t { max_fds = t.max_fds * 2 % 2 ^ 32 }) else none)
      else some t

  abbrev pub write_last : Ptr → Table → Option Table
  write_last p t =
      if ltb t.num_fds t.max_fds
      then some (record t {
        fds =
            update t.fds t.num_fds
              (record { fd = h.fd_of p; events = get_event_mask p; revents = 0 });
        handlers = update t.handlers t.num_fds p;
        num_fds = (t.num_fds + 1) % 2 ^ 32;
      })
      else none

  unfoldable pub posix_add_fd_op : Bool → Ptr → Table → Option Table
  unfolding grow
  posix_add_fd_op grown p t = elim (grow grown t) [ none ↦ none | some t' ↦ write_last p t' ]

  unfoldable pub posix_mod_fd_op : Ptr → Table → Option Table
  unfolding find_handler
  posix_mod_fd_op p t = elim (find_handler t p) [
    | none ↦ some t
    | some i ↦ some (record t {
      fds = update t.fds i (record (t.fds i) { fd = h.fd_of p; events = get_event_mask p });
    })
  ]

  -- The last place moves to the one that is given up.
  unfoldable pub posix_del_fd_op : Ptr → Table → Option Table
  unfolding find_handler
  posix_del_fd_op p t = elim (find_handler t p) [
    | none ↦ some t
    | some i ↦ some (record t {
      num_fds = t.num_fds - 1;
      fds = update t.fds i (t.fds (t.num_fds - 1));
      handlers = update t.handlers i (t.handlers (t.num_fds - 1));
    })
  ]

  unfoldable pub call_op : Bool → FdOp → Ptr → Table → Option Table
  unfolding posix_add_fd_op posix_mod_fd_op posix_del_fd_op
  call_op grown add_fd_op p t = posix_add_fd_op grown p t
  call_op grown mod_fd_op p t = posix_mod_fd_op p t
  call_op grown del_fd_op p t = posix_del_fd_op p t

  -- `posix__apply_fd_ops`, over the operations that it takes from the queue one by one
  unfoldable pub apply_fd_ops : Bool → List (FdOp × Ptr) → Table → Option Table
  unfolding call_op
  apply_fd_ops grown [] t = some t
  apply_fd_ops grown ((op, p) ∷ rest) t = elim (call_op grown op p (record t { fd_ops = rest })) [
    | none ↦ none
    | some t' ↦ apply_fd_ops grown rest t'
  ]
