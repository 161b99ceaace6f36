-- ===== src/Inv/Idle.antt =====
-- `aml__handle_idle` of src/aml.c: the walk over the idle objects, whose callbacks may stop their own.
use mathlib.Core.List.{append_assoc}
use aml.Base.{
  ℕ, zero, suc, ◌≡◌, ◌≤◌, ◌<◌, Option, none, some, true, List, [], ◌∷◌, ◌++◌, length, count, has,
  erase, arith, refl, sym, ap, ◌∙◌, inl, inr, ◌⊎◌, Bool-cases, count-append, count-has, has-count,
}
use aml.World.{Ptr, Fn, Obj, World, load}
use aml.World.Env.{Env}
use aml.World.Safe.{Safe, returns, Within, ends, falls_short, bind-Within, Within-suc, Within-Safe}
use aml.Stop.{first, next_in}
use aml.Registry.{aml_is_started}
use aml.Dispatch.{walk_idle, handle_idle, call_if_started}
use aml.Inv.{Held, ◌⊕◌, Inv, Kept}
use aml.Inv.Refs.{find}

count-middle : (p : Ptr) (pre rest : List Ptr) → count p (pre ++ p ∷ rest) ≤ 1 → count p pre ≡ 0
count-middle p pre rest once = ground (arith, count-append p pre (p ∷ rest))

next_in-middle :
    (p : Ptr) (pre rest : List Ptr) → count p pre ≡ 0 → next_in p (pre ++ p ∷ rest) ≡ first rest
next_in-middle p [] rest e = ground arith
next_in-middle p (q ∷ pre) rest e = ground (arith, next_in-middle p pre rest)

erase-middle :
    (p : Ptr) (pre rest : List Ptr) → count p pre ≡ 0 → erase p (pre ++ p ∷ rest) ≡ pre ++ rest
erase-middle p [] rest e = ground arith
erase-middle p (q ∷ pre) rest e = ground (arith, erase-middle p pre rest)

has-middle : (p : Ptr) (pre rest : List Ptr) → has p (pre ++ p ∷ rest) ≡ true
has-middle p pre rest =
    count-has p (pre ++ p ∷ rest) (ground (arith, count-append p pre (p ∷ rest)))

-- What the callback of the idle object `p` may leave of the idle list: the rest as it was, with or
-- without `p`, behind what it has started.
abbrev pub IdleLeft : Ptr → (before after : List Ptr) → Type 0
IdleLeft p before after =
    (started : List Ptr) × ((after ≡ started ++ before) ⊎ (after ≡ started ++ erase p before))

-- What the walk asks of the callback of an idle object on the idle list: it gives up only references
-- of its own, and of the idle list it takes off nothing but its object.
abbrev pub StopsOnlyItself : {S : Type 0} → Ptr → Env S → Type 0
StopsOnlyItself loop env =
    (f : Fn) (p : Ptr) (o : Obj) (u k : Held) (w : World _)
    → Inv loop (u ⊕ k) w
    → 0 < k loop
    → w.objs p ≡ some o
    → o.cb ≡ some f
    → 0 < count p w.idle_list
    → Safe (λ _ w'. Kept loop k w' × IdleLeft p w.idle_list w'.idle_list) (env.call_cb f p w)

module _ {S : Type 0} (env : Env S) {loop : Ptr} (idle : StopsOnlyItself loop env) where
  call_if_started-Kept :
      (cb : Option Fn) (p : Ptr) (o : Obj) (u k : Held) (w : World S)
      → Inv loop (u ⊕ k) w
      → 0 < k loop
      → w.objs p ≡ some o
      → o.cb ≡ cb
      → 0 < count p w.idle_list
      → Safe
          (λ _ w'. Kept loop k w' × IdleLeft p w.idle_list w'.idle_list)
          (call_if_started env cb p w)
  unfolding aml_is_started
  call_if_started-Kept none p o u k w v l at e listed = returns ((u, v), ([], inl refl))
  call_if_started-Kept (some f) p o u k w v l at e listed = elim (Bool-cases (has p w.obj_list)) [
    | inl started ↦ rw started (idle f p o u k w v l at e listed)
    | inr stopped ↦ rw stopped (returns ((u, v), ([], inl refl)))
  ]

  walk_idle-Within :
      (fuel : ℕ) (rest pre : List Ptr) (u k : Held) (w : World S)
      → Inv loop (u ⊕ k) w
      → 0 < k loop
      → w.idle_list ≡ pre ++ rest
      → Within (length rest) fuel (λ _. Kept loop k) (walk_idle env fuel (first rest) w)
  unfolding walk_idle
  walk_idle-Within zero [] pre u k w v l e = ends (u, v)
  walk_idle-Within (suc fuel) [] pre u k w v l e = ends (u, v)
  walk_idle-Within zero (p ∷ rest) pre u k w v l e = falls_short (omega arith)
  walk_idle-Within (suc fuel) (p ∷ rest) pre u k w v l e =
      let once : count p (pre ++ p ∷ rest) ≤ 1 =
        rw (← e) (ground (arith, v.idles p, v.core.once p)) in
      let clear : count p pre ≡ 0 = count-middle p pre rest once in
      let here : has p w.idle_list ≡ true = ap (has p) e ∙ has-middle p pre rest in
      let follows : next_in p w.idle_list ≡ first rest =
        ap (next_in p) e ∙ next_in-middle p pre rest clear in
      let (o, at) =
        find {p = p} v.core
          (ground (arith, v.idles p, v.core.balance p, has-count p w.idle_list)) in
      rw (at, load, here, follows)
        (Within-suc (
          bind-Within
            (call_if_started-Kept o.cb p o u k w v l at refl (has-count p w.idle_list here))
            λ _ w' ((u', v'), (new, left)). elim left [
              | inl same ↦ walk_idle-Within fuel rest (new ++ pre ++ p ∷ []) u' k w' v' l (
                  same
                  ∙ ap (λ l. new ++ l) e
                  ∙ sym (append_assoc new pre (p ∷ rest))
                  ∙ sym (append_assoc (new ++ pre) (p ∷ []) rest))
              | inr erased ↦ walk_idle-Within fuel rest (new ++ pre) u' k w' v' l (
                  erased
                  ∙ ap (λ l. new ++ l) (ap (erase p) e ∙ erase-middle p pre rest clear)
                  ∙ sym (append_assoc new pre rest))
            ]))

  pub handle_idle-Within :
      (fuel : ℕ) (u k : Held) (w : World S)
      → Inv loop (u ⊕ k) w
      → 0 < k loop
      → Within (length w.idle_list) fuel (λ _. Kept loop k) (handle_idle env fuel w)
  unfolding handle_idle
  handle_idle-Within fuel u k w v l = walk_idle-Within fuel w.idle_list [] u k w v l refl

  -- From a store that satisfies the invariant and in which the caller holds the loop, with more
  -- fuel than idle objects, aml__handle_idle ends and never faults: unless a reference count would
  -- pass INT_MAX the invariant and the references of the caller are kept, if the callback of an
  -- idle object, called while the object is on the idle list, returns, gives up only references of
  -- its own and takes nothing off the idle list but its own object; what it starts stands in front.
  pub handle_idle-Kept :
      (fuel : ℕ) (u k : Held) (w : World S)
      → Inv loop (u ⊕ k) w
      → 0 < k loop
      → length w.idle_list < fuel
      → Safe (λ _. Kept loop k) (handle_idle env fuel w)
  handle_idle-Kept fuel u k w v l enough = Within-Safe enough (handle_idle-Within fuel u k w v l)
