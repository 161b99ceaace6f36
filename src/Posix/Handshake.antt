-- ===== src/Posix/Handshake.antt =====
-- What the threads of src/posix.c do to one another, while the loop polls with no timeout.
use aml.Base.{◌≡◌, ◌≢◌, Bool, true, false, arith, refl, inl, inr, ◌⊎◌}
use aml.Base.Int.{ℤ, pos}
use aml.Posix.Poller.{
  PollerPc, running, polled, flagged, parked, MainPc, polling, dispatching, Threads, started, Step,
  poll_again, poll_returns, flag, publish, leave, take, give_up, post_dispatch, Reach, here, next,
}

-- What `nfds` and `waiting_for_dispatch` are, wherever the threads stand.
abbrev Agree : PollerPc → MainPc → ℤ → Bool → Type 0
Agree running polling n b = n ≡ pos 0
Agree (polled k) polling n b = (n ≡ pos 0) × (k ≢ pos 0)
Agree (flagged k) polling n b = (n ≡ pos 0) × (k ≢ pos 0) × (b ≡ true)
Agree parked polling n b = ((b ≡ true) × (n ≢ pos 0)) ⊎ ((b ≡ false) × (n ≡ pos 0))
Agree parked (dispatching k) n b = (b ≡ true) × (n ≡ pos 0) × (k ≢ pos 0)
Agree _ (dispatching k) n b = ⊥

abbrev InStep : Threads → Type 0
InStep s = Agree s.poller s.main s.nfds s.waiting_for_dispatch

Step-InStep : {s t : Threads} → Step true s t → InStep s → InStep t
Step-InStep (poll_again e) v = v
Step-InStep (poll_returns n ne e) v = ground arith
Step-InStep (flag n e) v = ground arith
Step-InStep (publish n e) v = ground arith
Step-InStep (leave e w) v = ground arith
Step-InStep (take e ne) v = ground arith
Step-InStep (give_up e m) v = absurd (cc)
Step-InStep (post_dispatch n e) v = ground arith

Reach-InStep : {s t : Threads} → Reach true s t → InStep s → InStep t
Reach-InStep here v = v
Reach-InStep (next r x) v = Step-InStep x (Reach-InStep r v)

-- While the loop polls with a negative timeout only, for every interleaving of the two threads of
-- src/posix.c from the start: as long as the loop dispatches, the poller thread waits with
-- waiting_for_dispatch set, the number of descriptors was taken, and it was not 0.
pub Reach-dispatching_Exclusive :
    (s : Threads) (n : ℤ)
    → Reach true started s
    → s.main ≡ dispatching n
    → (s.poller ≡ parked) × (s.waiting_for_dispatch ≡ true) × (s.nfds ≡ pos 0) × (n ≢ pos 0)
Reach-dispatching_Exclusive s n r e = let v : InStep s = Reach-InStep r refl in ground arith

-- A way to a dispatch.
record Dispatches (s : Threads) : Type 0 where
  pub then : Threads
  pub nfds : ℤ
  pub way : Reach true s then
  pub main : then.main ≡ dispatching nfds

Reach-before : {s t u : Threads} → Step true s t → Reach true t u → Reach true s u
Reach-before x here = next here x
Reach-before x (next r y) = next (Reach-before x r) y

before : {s t : Threads} → Step true s t → Dispatches t → Dispatches s
before x d = record { then = d.then; nfds = d.nfds; way = Reach-before x d.way; main = d.main }

-- From each place of the poller thread on, while the other one polls.
taking : (s : Threads) → s.main ≡ polling → s.nfds ≢ pos 0 → Dispatches s
taking s e ne = record {
  then = record s { nfds = pos 0; main = dispatching s.nfds };
  nfds = s.nfds;
  way = next here (take e ne);
  main = refl;
}

publishing :
    (s : Threads) (k : ℤ) → s.main ≡ polling → s.poller ≡ flagged k → k ≢ pos 0 → Dispatches s
publishing s k e at ne =
    before (publish k at) (taking (record s { nfds = k; poller = parked }) e ne)

flagging : (s : Threads) (k : ℤ) → s.main ≡ polling → s.poller ≡ polled k → k ≢ pos 0 → Dispatches s
flagging s k e at ne =
    before (flag k at)
      (publishing (record s { waiting_for_dispatch = true; poller = flagged k }) k e refl ne)

-- The poll reports one descriptor.
waking : (s : Threads) → s.main ≡ polling → s.poller ≡ running → Dispatches s
waking s e at =
    let ne : pos 1 ≢ pos 0 = λ z. cc in
    before (poll_returns (pos 1) ne at)
      (flagging (record s { poller = polled (pos 1) }) (pos 1) e refl ne)

InStep-Dispatches :
    (s : Threads) (p : PollerPc) (m : MainPc)
    → s.poller ≡ p
    → s.main ≡ m
    → Agree p m s.nfds s.waiting_for_dispatch
    → Dispatches s
InStep-Dispatches s running polling at e v = waking s e at
InStep-Dispatches s (polled k) polling at e v = flagging s k e at v.1
InStep-Dispatches s (flagged k) polling at e v = publishing s k e at v.1
InStep-Dispatches s parked polling at e (inl (b, ne)) = taking s e ne
InStep-Dispatches s parked polling at e (inr (b, z)) =
    before (leave at b) (waking (record s { poller = running }) e refl)
InStep-Dispatches s parked (dispatching k) at e v = record {
  then = s;
  nfds = k;
  way = here;
  main = e;
}
InStep-Dispatches s running (dispatching k) at e v = elim v [ ]
InStep-Dispatches s (polled k) (dispatching n) at e v = elim v [ ]
InStep-Dispatches s (flagged k) (dispatching n) at e v = elim v [ ]

-- A way to a dispatch, and from there to a poller thread that runs.
pub record Continues (s : Threads) : Type 0 where
  pub then : Threads
  pub nfds : ℤ
  pub way : Reach true s then
  pub main : then.main ≡ dispatching nfds
  pub after : Threads
  pub back : Reach true then after
  pub runs : after.poller ≡ running

-- While the loop polls with a negative timeout only, the two threads of src/posix.c never block
-- each other for good: from every state that they reach there is a way to a dispatch, and from
-- there to a state in which the poller thread runs again.
pub Reach-Continues : (s : Threads) → Reach true started s → Continues s
Reach-Continues s r =
    let d = InStep-Dispatches s s.poller s.main refl refl (Reach-InStep r refl) in
    let t : Threads = d.then in
    let v : InStep t = Reach-InStep d.way (Reach-InStep r refl) in
    let at : t.poller ≡ parked = let m = d.main in ground arith in
    record {
      then = t;
      nfds = d.nfds;
      way = d.way;
      main = d.main;
      after = record t { waiting_for_dispatch = false; main = polling; poller = running };
      back = next (next here (post_dispatch d.nfds d.main)) (leave at refl);
      runs = refl;
    }
