-- ===== src/Lib.antt =====
-- Verification of Andri's Main Loop, an event loop in C. src/aml.c keeps reference-counted objects
-- (handlers for descriptors, timers, tickers, signals, work, idle callbacks) that user code starts and
-- stops, a queue of pending events, and a loop that polls a backend and dispatches the events. The
-- backend is one of src/epoll.c, src/posix.c and src/kqueue.c behind the table of function pointers of
-- include/backend.h; work runs on the threads of src/thread-pool.c.
--
-- Which file models what:
--   Base, Base/*        numbers, Boolean tests and list lemmas that the others share
--   World, World/*      the structs of src/aml.c as a store of objects by address, the commands on it
--                       and their results; World/Env is struct aml_backend, the user's callbacks, the
--                       clock and the self pipe; World/Safe says what it is not to fault,
--                       World/Outside what it is to leave the store of aml.c alone
--   Object, Ref         constructors, getters and setters; aml_ref, aml_weak_ref_new, _del and _read
--   Queue               aml_emit and aml__event_dequeue; Queue/Agenda what they are to their users, and
--                       Inv/Agenda the refinement
--   Timer, Timer/*      the timer with the earliest deadline, aml__handle_timeout and its loop
--   Stop, Unref         aml__stop_unchecked; aml_unref, aml__free and the functions that free objects
--   Registry            aml_start, aml_stop and aml_is_started; Registry/Cancel, Registry/Runs and
--                       Registry/Roundtrip what starting and stopping leave behind
--   Setup               aml_new, the self pipe, aml_require_workers, aml_get_fd
--   Dispatch            aml__handle_event, aml__handle_idle, aml_dispatch, aml_poll, aml_run, aml_exit;
--                       Dispatch/Timeouts the timeout of aml_poll on its way through the backends
--   Ending, Ending/*    the last aml_unref of a loop: aml__free and what it leaves behind
--   Inv, Inv/*          the invariant of the store, and its proofs by operation; Inv/Ticks the loop over
--                       the timeouts, Inv/Returning the rounds that end
--   Calm, Calm/*        which functions add nothing to the event queue and the idle list
--   Client, Client/*    sequences of calls of include/aml.h by user code that holds references of its
--                       own and keeps to the rules of that file
--   Resources           the blocks and descriptors that the backends take, as counts; Epoll/State,
--                       Kqueue/State and Posix/State create and release the backends' states
--   Epoll, Epoll/*      event masks, the poll call, deadlines and signals of src/epoll.c;
--                       Epoll/Backend its table of operations but for those on signals,
--                       Epoll/Running the loop on it, Epoll/Adding the signals that are added and
--                       deleted
--   Posix, Posix/*      src/posix.c: the poll table and its operations; Posix/Emit the poll call,
--                       Posix/Signals the signals, Posix/Poller the two threads
--   Kqueue, Kqueue/*    what src/kqueue.c registers, its poll call, signals and deadlines;
--                       Kqueue/Backend its table of operations, Kqueue/Running the loop on it
--   ThreadPool, .../*   counters and queue of src/thread-pool.c; ThreadPool/Order the order of its work,
--                       ThreadPool/Job a worker's job
--   Tests, Tests/*      a concrete store, backends, kernels and pools, with the theorems at them
-- A definition has the name of the C function, without the prefix aml__ where that function is static.
--
-- The model. A command takes the store to a result: `ok`, `fault` (a failed assertion, abort, a read
-- through a dead or null pointer, the removal of an unlinked list element, of which the last three are
-- undefined in C), `overflow` (a signed count would pass INT_MAX, undefined in C) or `out_of_fuel`. The
-- invariant: each reference count is the references that are held, plus one for a started object, plus
-- one for each pending event; an object is in the event queue once if it has pending events; the timer
-- list and the idle list hold the started objects of their types; weak references and the objects that
-- they lead to agree; the loop is there, and no other object is a loop. References `held` are split
-- into those of the code that is called and those of its caller, `u ⊕ k`: what a backend or a callback
-- is asked for is to keep the invariant and `k`.
--
-- Bounds. uint32_t and uint64_t wrap around as written. Fuel bounds the loops that user code can prolong
-- (the event queue, the idle list, aml_run) and the loop over timeouts. Enough fuel is given by a count
-- of the firings that are due for the timeouts, and by the events pending and the idle objects where
-- callbacks add none; the loops of aml__free take the length of their list and one.
--
-- Not modelled: locks and signal masks (a critical section is one step, and threads interleave in
-- ThreadPool/Order and Posix/Poller alone); more than one struct aml; the signal by which src/posix.c
-- interrupts poll(); failures of calloc where no argument says so; include/sys/queue.h, whose lists are
-- lists of addresses; the programs of examples/; the loop of src/aml.c with the operations on signals
-- of src/epoll.c, of which epoll_add_signal faults where aml_start fails. The kernel and the C library
-- are parameters.
pub mod Base
pub mod World
pub mod Object
pub mod Ref
pub mod Queue
pub mod Timer
pub mod Stop
pub mod Unref
pub mod Registry
pub mod Setup
pub mod Dispatch
pub mod Calm
pub mod Ending
pub mod Inv
pub mod Client
mod Tests
pub mod Posix
pub mod Resources
pub mod Epoll
pub mod Kqueue
pub mod ThreadPool
