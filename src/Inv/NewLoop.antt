-- ===== src/Inv/NewLoop.antt =====
-- `aml_new` establishes the invariant.
use aml.Base.{ℕ, ◌≡◌, ◌<◌, Option, none, some, arith, refl}
use aml.World.{Ptr, Fn, main_loop, World, Cmd, Rc, success, failure, put}
use aml.World.Env.{Env}
use aml.World.Safe
use aml.World.Safe.{Safe, returns}
use aml.Object.{new_obj}
use aml.Setup.{
  System, PipeFns, open_pipe, start_pipe, init_unless, init_self_pipe, piped, with_state, set_up,
  cleared, aml_new,
}
use aml.Inv.{Held, ◌⊕◌, grab, Inv, Kept, Frames}
use aml.Inv.Step.{Inv-held}
use aml.Inv.Alloc.{new_handler, Fresh, Created, aml_handler_new-Created}
use aml.Inv.Unref.{aml_unref-Kept}
use aml.Inv.Starting.{aml_start-Kept}
use aml.Inv.Tame.{IsTame}

-- What the system calls keep to: addresses from `calloc` are free, and nothing else touches the store
-- but the backend, which gives up only references of its own.
pub record IsSystem {S : Type 0} (sys : System S) : Type 0 where
  pub fresh : (w : World S) → Fresh w (sys.calloc w)
  pub new_state : (loop p : Ptr) → Frames loop (sys.new_state p)
  pub pipe : (loop : Ptr) → Frames loop sys.pipe
  pub dont_block : (loop fd : ℕ) → Frames loop (sys.dont_block fd)
  pub close : (loop fd : ℕ) → Frames loop (sys.close fd)

-- No object and no weak reference is there yet.
pub record IsBlank {S : Type 0} (w : World S) : Type 0 where
  pub objs : (p : Ptr) → w.objs p ≡ none
  pub weak : (r : Ptr) → w.weak r ≡ none

abbrev pub nobody : Held
nobody p = 0

-- The caller's one reference, to the loop.
abbrev pub only : Ptr → Held
only p = grab p nobody

module _ {S : Type 0} {loop : Ptr} {held : Held} {w : World S} {rfd wfd : ℕ} where
  with_fields :
      Inv loop held w → Inv loop held (record w { self_pipe_rfd = rfd; self_pipe_wfd = wfd })
  with_fields v = record {
    core = record {
      this = v.core.this;
      balance = v.core.balance;
      queued = v.core.queued;
      fits = v.core.fits;
      once = v.core.once;
      typed = v.core.typed;
      one_loop = v.core.one_loop;
      is_loop = v.core.is_loop;
      linked = v.core.linked;
      linking = v.core.linking;
    };
    timers = v.timers;
    idles = v.idles;
  }

module _ {S : Type 0} (sys : System S) (is : IsSystem sys) (env : Env S) (fns : PipeFns) where
  cleared-Inv :
      (w : World S) (p : Ptr)
      → IsBlank w
      → Inv p (nobody ⊕ only p) (cleared sys env fns p (put p (new_obj main_loop none 0 none) w))
  cleared-Inv w p b = record {
    core = record {
      this = refl;
      balance = λ q. ground (arith, b.objs q);
      queued = λ q. ground (arith, b.objs q);
      fits = λ q. ground (arith, b.objs q);
      once = λ q. omega arith;
      typed = λ q x e. ground (arith, b.objs q);
      one_loop = λ q e. ground (arith, b.objs q);
      is_loop = ground arith;
      linked = λ q r n. ground (arith, b.objs q);
      linking = λ q r e. ground (arith, b.weak r);
    };
    timers = λ q. ground (arith, b.objs q);
    idles = λ q. ground (arith, b.objs q);
  }

  module _ (loop : Ptr) (tame : IsTame loop env) where
    start_pipe-Kept :
        (k : Held)
        → 0 < k loop
        → (rfd wfd userdata : ℕ) (cb free_fn : Option Fn) (fresh h : Option Ptr) (u : Held)
          (w w' : World S)
        → Inv loop (u ⊕ k) w
        → Created loop (u ⊕ k) w (new_handler rfd cb userdata free_fn) fresh h w'
        → Safe (λ _. Kept loop k) (start_pipe sys env fns rfd wfd h w')
    start_pipe-Kept k l rfd wfd x cb f none h u w w' v (e, same) =
        rw (e, same)
          (Safe.bind (is.close loop wfd u k w v l)
            λ _ w1 (u1, v1). Safe.bind (is.close loop rfd u1 k w1 v1 l) λ _ w2 kept. returns kept)
    start_pipe-Kept k l rfd wfd x cb f (some p) h u w w' v (e, same, v') = rw e (
        Safe.bind
          (aml_start-Kept env tame u (grab p k) w' p (Inv-held (λ q. omega arith) v') (omega arith)
            (ground arith) (λ o at z. ground (arith, same)))
          λ _ w1 (u1, v1).
            Safe.bind (aml_unref-Kept env tame.free u1 k w1 p v1 l) λ _ w2 (kept, _). returns kept)

    open_pipe-Kept : (fds : Option (ℕ × ℕ)) (p : Ptr) → Frames loop (open_pipe sys env fns p fds)
    open_pipe-Kept none p u k w v l = returns (u, v)
    open_pipe-Kept (some (rfd, wfd)) p u k w v l =
        Safe.bind (is.dont_block loop rfd u k w v l) λ _ w1 (u1, v1).
          Safe.bind (is.dont_block loop wfd u1 k w1 v1 l) λ _ w2 (u2, v2).
            let w3 : World S = record w2 { self_pipe_rfd = rfd; self_pipe_wfd = wfd } in
            let v3 : Inv loop (u2 ⊕ k) w3 = with_fields v2 in
            Safe.bind
              (aml_handler_new-Created v3 (sys.calloc w3) rfd (some fns.on_self_pipe_read) p
                (some fns.destroy_self_pipe) (is.fresh w3))
              λ h w4 c. start_pipe-Kept k l rfd wfd p _ _ (sys.calloc w3) h u2 w3 w4 v3 c

    init_self_pipe-Kept : (p : Ptr) → Frames loop (init_self_pipe sys env fns p)
    unfolding init_self_pipe
    init_self_pipe-Kept p = unless env.backend.interrupt
      where
        unless : (c : Option (Cmd S (Unit {0}))) → Frames loop (init_unless sys env fns p c)
        unless (some c) u k w v l = returns (u, v)
        unless none u k w v l =
            Safe.bind (is.pipe loop u k w v l) λ fds w' (u', v'). open_pipe-Kept fds p u' k w' v' l

  -- What `aml_new` returns: NULL, or a loop to which the caller has the reference.
  abbrev pub NewLoop : Option Ptr → World S → Type 0
  NewLoop none w = Unit {0}
  NewLoop (some p) w = Kept p (only p) w

  module _ (tame : (loop : Ptr) → IsTame loop env)
      (del : (loop : Ptr) → Frames loop env.backend.del_state) where
    piped-NewLoop :
        (p : Ptr) (rc : Rc) (u : Held) (w : World S)
        → Inv p (u ⊕ only p) w
        → Safe NewLoop (piped sys env fns p rc w)
    piped-NewLoop p success u w v = returns (u, v)
    piped-NewLoop p failure u w v =
        Safe.bind (del p u (only p) w v (ground arith)) λ _ w' kept. returns tt

    with_state-NewLoop :
        (p : Ptr) (rc : Rc) (u : Held) (w : World S)
        → Inv p (u ⊕ only p) w
        → Safe NewLoop (with_state sys env fns p rc w)
    with_state-NewLoop p failure u w v = returns tt
    with_state-NewLoop p success u w v =
        Safe.bind (init_self_pipe-Kept p (tame p) p u (only p) w v (ground arith))
          λ rc w' (u', v'). piped-NewLoop p rc u' w' v'

    set_up-NewLoop :
        (fresh : Option Ptr) (w : World S) → IsBlank w → Safe NewLoop (set_up sys env fns fresh w)
    set_up-NewLoop none w b = returns tt
    set_up-NewLoop (some p) w b =
        Safe.bind (is.new_state p p nobody (only p) _ (cleared-Inv w p b) (ground arith))
          λ rc w' (u, v). with_state-NewLoop p rc u w' v

    -- From a store without objects and weak references, aml_new never faults: unless a reference
    -- count would pass INT_MAX it returns NULL, or a loop with the invariant established and one
    -- reference to the loop for the caller, provided that calloc returns free addresses and that
    -- the backend, the system calls and the user code return and give up only references of their
    -- own.
    pub aml_new-NewLoop : (w : World S) → IsBlank w → Safe NewLoop (aml_new sys env fns w)
    unfolding aml_new
    aml_new-NewLoop w b = set_up-NewLoop (sys.calloc w) w b
