-- ===== src/Kqueue/Filters.antt =====
-- What the changes of `kq_add_fd` and `kq_del_fd` make of the filters that are registered.
use Prim.Native.Nat.{bit_xor}
use aml.Base.{
  ℕ, zero, suc, ◌<◌, ◌≡◌, Bool, true, false, Option, none, some, List, [], ◌∷◌, ◌++◌, if◌then◌else◌,
  arith, refl, ◌&&◌, not,
}
use aml.Object.{event_read}
use aml.Posix.{is_set, event_write}
use aml.Kqueue.{
  Filter, evfilt_read, evfilt_write, Action, ev_add, ev_delete, Kevent, action_of, changes,
  removals,
}

-- The filters of one descriptor that are registered.
pub record Filters : Type 0 where
  pub reading : Bool
  pub writing : Bool

-- kevent(2) on one change: the removal of a filter that is not registered is an error.
abbrev change : Filter → Action → Filters → Option Filters
change evfilt_read ev_add s = some (record s { reading = true })
change evfilt_read ev_delete s = if s.reading then some (record s { reading = false }) else none
change evfilt_write ev_add s = some (record s { writing = true })
change evfilt_write ev_delete s = if s.writing then some (record s { writing = false }) else none

abbrev pub apply_changes : List Kevent → Filters → Option Filters
apply_changes [] s = some s
apply_changes (k ∷ ks) s = elim (change k.filter k.action s) [
  | none ↦ none
  | some s' ↦ apply_changes ks s'
]

abbrev pub filters_of : ℕ → Filters
filters_of mask = record { reading = is_set mask event_read; writing = is_set mask event_write }

abbrev differ : Bool → Bool → Bool
differ true b = not b
differ false b = b

abbrev same : Bool → Bool → Bool
same a b = not (differ a b)

eq_of_same : (a b : Bool) → same a b ≡ true → a ≡ b
eq_of_same true true e = refl
eq_of_same true false e = absurd (cc)
eq_of_same false true e = absurd (cc)
eq_of_same false false e = refl

-- Every value below a bound.
all_below : ℕ → (ℕ → Bool) → Bool
all_below zero test = true
all_below (suc n) test = test n && all_below n test

all_below_sound :
    (n : ℕ) (test : ℕ → Bool) (x : ℕ) → all_below n test ≡ true → x < n → test x ≡ true
unfolding all_below
all_below_sound zero test x h lt = absurd (omega arith)
all_below_sound (suc n) test x h lt = ground (arith, all_below_sound n test x)

abbrev bit_differs : ℕ → ℕ → ℕ → Bool
bit_differs b m l = same (is_set (bit_xor m l) b) (differ (is_set m b) (is_set l b))

abbrev both_bits : ℕ → ℕ → Bool
both_bits m l = bit_differs event_read m l && bit_differs event_write m l

xor_table : all_below 8 (λ m. all_below 8 (both_bits m)) ≡ true
unfolding all_below
xor_table = refl

both_bits_below : (m l : ℕ) → m < 8 → l < 8 → both_bits m l ≡ true
both_bits_below m l hm hl =
    all_below_sound 8 (both_bits m) l
      (all_below_sound 8 (λ x. all_below 8 (both_bits x)) m xor_table hm) hl

-- The changes by the tests of the two bits, before (`b`, `d`) and after (`a`, `c`).
changed :
    (fd : ℕ) (a b c d : Bool)
    → apply_changes
        ((if differ a b
            then record { fd = fd; filter = evfilt_read; action = action_of a } ∷ []
            else [])
          ++ (if differ c d
              then record { fd = fd; filter = evfilt_write; action = action_of c } ∷ []
              else []))
        (record { reading = b; writing = d })
      ≡ some (record { reading = a; writing = c })
changed fd true true true true = refl
changed fd true true true false = refl
changed fd true true false true = refl
changed fd true true false false = refl
changed fd true false true true = refl
changed fd true false true false = refl
changed fd true false false true = refl
changed fd true false false false = refl
changed fd false true true true = refl
changed fd false true true false = refl
changed fd false true false true = refl
changed fd false true false false = refl
changed fd false false true true = refl
changed fd false false true false = refl
changed fd false false false true = refl
changed fd false false false false = refl

-- For masks of READ, WRITE and OOB, from the filters of the mask that was seen last, the changes of
-- kq_add_fd lead to the filters of the new mask with no removal of a filter that is not registered,
-- and those of kq_del_fd lead to none.
pub apply_changes-changes :
    (fd last mask : ℕ)
    → last < 8
    → mask < 8
    → (apply_changes (changes fd last mask) (filters_of last) ≡ some (filters_of mask))
      × (apply_changes (removals fd last) (filters_of last)
          ≡ some (record { reading = false; writing = false }))
unfolding changes removals
apply_changes-changes fd last mask hl hm = (
  rw
      (
        eq_of_same (is_set (bit_xor mask last) event_read)
            (differ (is_set mask event_read) (is_set last event_read)) read_bit,
        eq_of_same (is_set (bit_xor mask last) event_write)
            (differ (is_set mask event_write) (is_set last event_write)) write_bit,
      )
      (changed fd (is_set mask event_read) (is_set last event_read) (is_set mask event_write)
        (is_set last event_write)),
  removed (is_set last event_read) (is_set last event_write),
)
  where
    read_bit : bit_differs event_read mask last ≡ true
    read_bit = ground (arith, both_bits_below mask last hm hl)

    write_bit : bit_differs event_write mask last ≡ true
    write_bit = ground (arith, both_bits_below mask last hm hl)

    removed :
        (b d : Bool)
        → apply_changes
            ((if b then record { fd = fd; filter = evfilt_read; action = ev_delete } ∷ [] else [])
              ++ (if d
                  then record { fd = fd; filter = evfilt_write; action = ev_delete } ∷ []
                  else []))
            (record { reading = b; writing = d })
          ≡ some (record { reading = false; writing = false })
    removed true true = refl
    removed true false = refl
    removed false true = refl
    removed false false = refl
