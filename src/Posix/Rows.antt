-- ===== src/Posix/Rows.antt =====
-- The poll table of src/posix.c as a set of rows, one for each handler.
use aml.Base.{
  ℕ, zero, suc, ◌+◌, ◌-◌, ◌*◌, ◌%◌, ◌^◌, ◌≡◌, ◌≤◌, ◌<◌, ◌≢◌, Bool, true, false, Option, none, some,
  ◌==◌, leb, ltb, arith, refl, inl, inr, Bool-cases, ◌↔◌,
}
use aml.World.{Ptr, update}
use aml.Object.{event_read}
use aml.Posix.{
  PollFd, Table, Handlers, find_from, find_handler, get_event_mask, posix_add_fd_op,
  posix_del_fd_op, is_set, add_if, event_write, poll_events_to_aml_events,
}

-- The places in use fit the arrays, and no handler has two of them.
pub record IsTable (t : Table) : Type 0 where
  pub room : t.num_fds ≤ t.max_fds
  pub some_room : 0 < t.max_fds
  pub fits : t.max_fds < 2 ^ 31
  pub unique : (i j : ℕ) → i < t.num_fds → j < t.num_fds → t.handlers i ≡ t.handlers j → i ≡ j

-- The row of handler `p`.
abbrev pub Row : Table → Ptr → PollFd → Type 0
Row t p r = (i : ℕ) × (i < t.num_fds) × (t.handlers i ≡ p) × (t.fds i ≡ r)

abbrev pub Absent : Table → Ptr → Type 0
Absent t p = (i : ℕ) → i < t.num_fds → t.handlers i ≢ p

-- What the search finds: a place in use that holds the handler, or there is none.
abbrev pub Found : Table → Ptr → Option ℕ → Type 0
Found t p none = Absent t p
Found t p (some i) = (i < t.num_fds) × (t.handlers i ≡ p)

find_from-Found :
    (t : Table) (p : Ptr) (n i : ℕ)
    → i + n ≡ t.num_fds
    → ((j : ℕ) → j < i → t.handlers j ≢ p)
    → Found t p (find_from t p n i)
unfolding find_from
find_from-Found t p zero i e before = λ j lt. before j (omega arith)
find_from-Found t p (suc n) i e before = elim (Bool-cases (t.handlers i == p)) [
  | inl here ↦ rw here (omega arith, ground arith)
  | inr miss ↦
      rw miss (find_from-Found t p n (i + 1) (omega arith) (λ j lt same. ground (arith, before j)))
]

pub find_handler-Found : (t : Table) (p : Ptr) → Found t p (find_handler t p)
unfolding find_handler
find_handler-Found t p = find_from-Found t p t.num_fds 0 (omega arith) (λ j lt. elim lt [ ])

module _ (h : Handlers) where
  abbrev pub new_row : Ptr → PollFd
  new_row p = record { fd = h.fd_of p; events = get_event_mask h p; revents = 0 }

  -- What adding leaves: the new row, and the others.
  abbrev pub Added : Ptr → Table → Option Table → Type 0
  Added p t none = ⊥
  Added p t (some t') =
      IsTable t' × Row t' p (new_row p) × ((q : Ptr) (r : PollFd) → p ≢ q → Row t q r ↔ Row t' q r)

  abbrev written : Ptr → Table → Table
  written p t = record t {
    fds = update t.fds t.num_fds (new_row p);
    handlers = update t.handlers t.num_fds p;
    num_fds = (t.num_fds + 1) % 2 ^ 32;
  }

  module _ (p : Ptr) (t : Table) (v : IsTable t) (free : t.num_fds < t.max_fds)
      (absent : Absent t p) where
    one_more : (t.num_fds + 1) % 2 ^ 32 ≡ t.num_fds + 1
    one_more = omega (arith, v.fits)

    written-IsTable : IsTable (written p t)
    written-IsTable = record {
      room = omega (arith, one_more);
      some_room = v.some_room;
      fits = v.fits;
      unique = λ i j li lj e. ground (arith, one_more, v.unique i j, absent i, absent j);
    }

    written-Row : Row (written p t) p (new_row p)
    written-Row = (t.num_fds, omega (arith, one_more), ground arith, ground arith)

    written-others : (q : Ptr) (r : PollFd) → p ≢ q → Row t q r ↔ Row (written p t) q r
    written-others q r ne = (
      (λ (i, li, hi, fi). (i, omega (arith, one_more), ground arith, ground arith)),
      (λ (i, li, hi, fi). (i, ground (arith, one_more), ground arith, ground arith)),
    )

    written-Added : Added p t (some (written p t))
    written-Added = (written-IsTable, written-Row, written-others)

  doubled-IsTable :
      (t : Table)
      → IsTable t
      → t.max_fds * 2 < 2 ^ 31
      → leb t.max_fds t.num_fds ≡ true
      → IsTable (record t { max_fds = t.max_fds * 2 % 2 ^ 32 })
  doubled-IsTable t v small full = record {
    room = ground (arith, v.room);
    some_room = ground (arith, v.some_room);
    fits = omega arith;
    unique = v.unique;
  }

  -- From a well-formed poll table with less than 2^30 places, if realloc succeeds, posix_add_fd_op
  -- of a handler without a row stays in bounds and keeps the table well formed, gives the handler
  -- its row, and leaves the rows of every other handler.
  pub posix_add_fd_op-Added :
      (p : Ptr) (t : Table)
      → IsTable t
      → Absent t p
      → t.max_fds * 2 < 2 ^ 31
      → Added p t (posix_add_fd_op h true p t)
  unfolding posix_add_fd_op
  posix_add_fd_op-Added p t v absent small = elim (Bool-cases (leb t.max_fds t.num_fds)) [
    | inl full ↦
        let free : ltb t.num_fds (t.max_fds * 2 % 2 ^ 32) ≡ true =
          ground (arith, v.room, v.some_room) in
        rw (full, posix_add_fd_op, free)
          (written-Added p (record t { max_fds = t.max_fds * 2 % 2 ^ 32 })
            (doubled-IsTable t v small full) (ground arith) absent)
    | inr free ↦
        let fits : ltb t.num_fds t.max_fds ≡ true = ground arith in
        rw (free, posix_add_fd_op, fits) (written-Added p t v (ground arith) absent)
  ]

  -- What deleting leaves: no row of the handler, and the others.
  abbrev pub Deleted : Ptr → Table → Option Table → Type 0
  Deleted p t none = ⊥
  Deleted p t (some t') =
      IsTable t' × Absent t' p × ((q : Ptr) (r : PollFd) → p ≢ q → Row t q r ↔ Row t' q r)

  module _ (p : Ptr) (t : Table) (v : IsTable t) (i : ℕ) (lt : i < t.num_fds)
      (here : t.handlers i ≡ p) where
    abbrev moved : Table
    moved = record t {
      num_fds = t.num_fds - 1;
      fds = update t.fds i (t.fds (t.num_fds - 1));
      handlers = update t.handlers i (t.handlers (t.num_fds - 1));
    }

    moved-IsTable : IsTable moved
    moved-IsTable = record {
      room = omega (arith, v.room);
      some_room = v.some_room;
      fits = v.fits;
      unique = λ a b la lb e.
          ground (arith, v.unique a b, v.unique a (t.num_fds - 1), v.unique (t.num_fds - 1) b);
    }

    moved-Absent : Absent moved p
    moved-Absent j lj e = ground (arith, v.unique i j, v.unique i (t.num_fds - 1))

    moved-others : (q : Ptr) (r : PollFd) → p ≢ q → Row t q r ↔ Row moved q r
    moved-others q r ne = (to, from)
      where
        to : Row t q r → Row moved q r
        to (j, lj, hj, fj) = elim (Bool-cases (j == t.num_fds - 1)) [
          | inl last ↦ (i, ground arith, ground arith, ground arith)
          | inr other ↦ (j, ground arith, ground arith, ground arith)
        ]

        from : Row moved q r → Row t q r
        from (j, lj, hj, fj) = elim (Bool-cases (i == j)) [
          | inl same ↦ (t.num_fds - 1, omega arith, ground arith, ground arith)
          | inr other ↦ (j, omega arith, ground arith, ground arith)
        ]

  del-Found :
      (p : Ptr) (t : Table)
      → IsTable t
      → (found : Option ℕ) → find_handler t p ≡ found
      → Found t p found
      → Deleted p t (posix_del_fd_op h p t)
  unfolding posix_del_fd_op
  del-Found p t v none e absent =
      rw (e, posix_del_fd_op) (v, absent, λ q r ne. ((λ x. x), (λ x. x)))
  del-Found p t v (some i) e (lt, here) =
      rw (e, posix_del_fd_op)
        (moved-IsTable p t v i lt here, moved-Absent p t v i lt here, moved-others p t v i lt here)

  -- From a well-formed poll table, posix_del_fd_op stays in bounds and keeps the table well formed;
  -- afterwards the handler has no row, whether it had one or not, and every other handler has the
  -- rows that it had.
  pub posix_del_fd_op-Deleted :
      (p : Ptr) (t : Table) → IsTable t → Deleted p t (posix_del_fd_op h p t)
  posix_del_fd_op-Deleted p t v = del-Found p t v (find_handler t p) refl (find_handler-Found t p)

-- posix_poll_events_to_aml_events never reports AML_EVENT_WRITE, whatever poll() reports: where
-- POLLOUT is set it reports AML_EVENT_READ alone.
pub poll_events_to_aml_events-write :
    (h : Handlers) (poll_events : ℕ)
    → (is_set (poll_events_to_aml_events h poll_events) event_write ≡ false)
      × (is_set poll_events h.pollout ≡ true → poll_events_to_aml_events h poll_events ≡ event_read)
unfolding poll_events_to_aml_events
poll_events_to_aml_events-write h e = (never (is_set e h.pollout) _, to_read (is_set e h.pollout) _)
  where
    never : (a b : Bool) → is_set (add_if a event_read (add_if b event_read 0)) event_write ≡ false
    never true true = refl
    never true false = refl
    never false true = refl
    never false false = refl

    to_read : (a b : Bool) → a ≡ true → add_if a event_read (add_if b event_read 0) ≡ event_read
    to_read true true e = refl
    to_read true false e = refl
    to_read false b e = absurd (cc)
