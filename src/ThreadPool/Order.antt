-- ===== src/ThreadPool/Order.antt =====
-- The order in which the workers of src/thread-pool.c take work, for every interleaving of
-- `enqueue_work` and `dequeue_work`.
use mathlib.Core.Path.{subst}
use mathlib.Core.List.{append_assoc, append-nil}
use aml.Base.{◌≡◌, Option, none, some, List, [], ◌∷◌, ◌++◌, refl, sym, ap, ◌∙◌}
use aml.World.{Ptr}
use aml.ThreadPool.{DefaultWork, sentinel, job, Pool, enqueue_work, dequeue_work}

-- What has happened: the work given, the work taken, and the work given before the sentinel.
pub record History : Type 0 where
  pub given : List Ptr
  pub taken : List Ptr
  pub closed : Option (List Ptr)

abbrev pub nothing : History
nothing = record { given = []; taken = []; closed = none }

-- `enqueue_work` of a job and, once, of the sentinel, and `dequeue_work` by a worker that takes a job
-- or leaves.
pub data Reaches (start : Pool) : History → Pool → Type 0 where
  begin : Reaches start nothing start
  give :
      {h : History} {s : Pool} (p : Ptr)
      → Reaches start h s
      → Reaches start (record h { given = h.given ++ p ∷ [] }) (enqueue_work (job p) s)
  close :
      {h : History} {s : Pool}
      → h.closed ≡ none
      → Reaches start h s
      → Reaches start (record h { closed = some h.given }) (enqueue_work sentinel s)
  take :
      {h : History} {s : Pool} {p : Ptr} {left : List DefaultWork}
      → dequeue_work s.work_queue ≡ some (job p, left)
      → Reaches start h s
      → Reaches start (record h { taken = h.taken ++ p ∷ [] }) (record s { work_queue = left })
  leave :
      {h : History} {s : Pool} {left : List DefaultWork}
      → dequeue_work s.work_queue ≡ some (sentinel, left)
      → Reaches start h s
      → Reaches start h (record s { work_queue = left })

-- The queue after the jobs `taken`: before the sentinel the rest of what was given by then.
pub data Explains
    : (given : List Ptr) (closed : Option (List Ptr)) (queue : List DefaultWork) → Type 0 where
  open_end : Explains [] none []
  shut : (given : List Ptr) (queue : List DefaultWork) → Explains given (some []) (sentinel ∷ queue)
  queued :
      {p : Ptr} {given : List Ptr} {queue : List DefaultWork}
      → Explains given none queue
      → Explains (p ∷ given) none (job p ∷ queue)
  queued_shut :
      {p : Ptr} {given g : List Ptr} {queue : List DefaultWork}
      → Explains given (some g) queue
      → Explains (p ∷ given) (some (p ∷ g)) (job p ∷ queue)

Explains-give :
    {given : List Ptr} {c : Option (List Ptr)} {queue : List DefaultWork} (p : Ptr)
    → Explains given c queue
    → Explains (given ++ p ∷ []) c (queue ++ job p ∷ [])
Explains-give p open_end = queued open_end
Explains-give p (shut g q) = shut _ _
Explains-give p (queued e) = queued (Explains-give p e)
Explains-give p (queued_shut e) = queued_shut (Explains-give p e)

Explains-close :
    {given : List Ptr} {c : Option (List Ptr)} {queue : List DefaultWork}
    → c ≡ none
    → Explains given c queue
    → Explains given (some given) (queue ++ sentinel ∷ [])
Explains-close n open_end = shut [] []
Explains-close n (shut g q) = absurd (cc)
Explains-close n (queued e) = queued_shut (Explains-close refl e)
Explains-close n (queued_shut e) = absurd (cc)

abbrev prefixed : List Ptr → Option (List Ptr) → Option (List Ptr)
prefixed l none = none
prefixed l (some g) = some (l ++ g)

prefixed-none : (l : List Ptr) (c : Option (List Ptr)) → prefixed l c ≡ none → c ≡ none
prefixed-none l none e = refl
prefixed-none l (some g) e = absurd (cc)

prefixed_twice :
    (l : List Ptr) (p : Ptr) (c : Option (List Ptr))
    → prefixed l (prefixed (p ∷ []) c) ≡ prefixed (l ++ p ∷ []) c
prefixed_twice l p none = refl
prefixed_twice l p (some g) = ap some (sym (append_assoc l (p ∷ []) g))

-- What a job taken leaves of the queue and of the work.
record Taken (given : List Ptr) (closed : Option (List Ptr)) (p : Ptr) (left : List DefaultWork)
    : Type 0 where
  pub rest : List Ptr
  pub until : Option (List Ptr)
  pub given_is : given ≡ p ∷ rest
  pub closed_is : closed ≡ prefixed (p ∷ []) until
  pub explained : Explains rest until left

Explains-take :
    {given : List Ptr} {c : Option (List Ptr)} {queue : List DefaultWork} (left : List DefaultWork)
    (p : Ptr)
    → Explains given c queue
    → dequeue_work queue ≡ some (job p, left)
    → Taken given c p left
unfolding dequeue_work
Explains-take left p open_end e = absurd (cc)
Explains-take left p (shut g q) e = absurd (cc)
Explains-take left p (queued {p = q} {given = rest} {queue = l} x) e =
    let same : l ≡ left = cc in
    record {
      rest = rest;
      until = none;
      given_is = cc;
      closed_is = refl;
      explained = subst (λ z. Explains rest none z) same x;
    }
Explains-take left p (queued_shut {p = q} {given = rest} {g = g} {queue = l} x) e =
    let same : l ≡ left = cc in
    record {
      rest = rest;
      until = some g;
      given_is = cc;
      closed_is = cc;
      explained = subst (λ z. Explains rest (some g) z) same x;
    }

Explains-leave :
    {given : List Ptr} {c : Option (List Ptr)} {queue : List DefaultWork} (left : List DefaultWork)
    → Explains given c queue
    → dequeue_work queue ≡ some (sentinel, left)
    → Explains given c left
unfolding dequeue_work
Explains-leave left open_end e = absurd (cc)
Explains-leave left (shut g q) e =
    let same : sentinel ∷ q ≡ left = cc in subst (λ z. Explains g (some []) z) same (shut g q)
Explains-leave left (queued x) e = absurd (cc)
Explains-leave left (queued_shut x) e = absurd (cc)

-- The work given is the work taken and the rest, which the queue holds.
record Ordered (h : History) (s : Pool) : Type 0 where
  pub rest : List Ptr
  pub until : Option (List Ptr)
  pub given_is : h.given ≡ h.taken ++ rest
  pub closed_is : h.closed ≡ prefixed h.taken until
  pub explained : Explains rest until s.work_queue

Reaches-Ordered :
    {start : Pool} {h : History} {s : Pool}
    → start.work_queue ≡ []
    → Reaches start h s
    → Ordered h s
unfolding enqueue_work
Reaches-Ordered {start} empty begin = record {
  rest = [];
  until = none;
  given_is = refl;
  closed_is = refl;
  explained = subst (λ q. Explains [] none q) (sym empty) open_end;
}
Reaches-Ordered empty (give {h = h} p x) =
    let o = Reaches-Ordered empty x in
    record {
      rest = o.rest ++ p ∷ [];
      until = o.until;
      given_is = ap (λ l. l ++ p ∷ []) o.given_is ∙ append_assoc h.taken o.rest (p ∷ []);
      closed_is = o.closed_is;
      explained = Explains-give p o.explained;
    }
Reaches-Ordered empty (close {h = h} n x) =
    let o = Reaches-Ordered empty x in
    record {
      rest = o.rest;
      until = some o.rest;
      given_is = o.given_is;
      closed_is = ap some o.given_is;
      explained = Explains-close (prefixed-none h.taken o.until (sym o.closed_is ∙ n)) o.explained;
    }
Reaches-Ordered empty (take {h = h} {p = p} {left = left} e x) =
    let o = Reaches-Ordered empty x in
    let t = Explains-take left p o.explained e in
    record {
      rest = t.rest;
      until = t.until;
      given_is =
          o.given_is
          ∙ ap (λ l. h.taken ++ l) t.given_is
          ∙ sym (append_assoc h.taken (p ∷ []) t.rest);
      closed_is =
          o.closed_is ∙ ap (prefixed h.taken) t.closed_is ∙ prefixed_twice h.taken p t.until;
      explained = t.explained;
    }
Reaches-Ordered empty (leave {left = left} e x) =
    let o = Reaches-Ordered empty x in
    record {
      rest = o.rest;
      until = o.until;
      given_is = o.given_is;
      closed_is = o.closed_is;
      explained = Explains-leave left o.explained e;
    }

-- What a worker is told: to wait, when all that was given is taken and the pool is not closed; to
-- leave, when exactly what was given before the sentinel is taken; or the next job in order.
abbrev pub InOrder : History → Option (DefaultWork × List DefaultWork) → Type 0
InOrder h none = (h.given ≡ h.taken) × (h.closed ≡ none)
InOrder h (some (sentinel, left)) = h.closed ≡ some h.taken
InOrder h (some (job p, left)) = (rest : List Ptr) × (h.given ≡ h.taken ++ p ∷ rest)

Ordered-InOrder :
    (h : History) (queue : List DefaultWork) (rest : List Ptr) (until : Option (List Ptr))
    → h.given ≡ h.taken ++ rest
    → h.closed ≡ prefixed h.taken until
    → Explains rest until queue
    → InOrder h (dequeue_work queue)
unfolding dequeue_work
Ordered-InOrder h queue rest until g c open_end = (g ∙ append-nil h.taken, c)
Ordered-InOrder h queue rest until g c (shut r q) = c ∙ ap some (append-nil h.taken)
Ordered-InOrder h queue rest until g c (queued {given = r} x) = (r, g)
Ordered-InOrder h queue rest until g c (queued_shut {given = r} x) = (r, g)

-- Whatever the interleaving of jobs enqueued, one sentinel enqueued, and jobs and the sentinel
-- dequeued, on a queue that starts empty: dequeue_work has nothing to return only when every job
-- given is taken and no sentinel was enqueued, it returns the first job given that is not taken, or
-- it returns the sentinel when exactly the jobs given before the sentinel are taken.
pub dequeue_work-InOrder :
    (start : Pool) (h : History) (s : Pool)
    → start.work_queue ≡ []
    → Reaches start h s
    → InOrder h (dequeue_work s.work_queue)
dequeue_work-InOrder start h s empty x =
    let o = Reaches-Ordered empty x in
    Ordered-InOrder h s.work_queue o.rest o.until o.given_is o.closed_is o.explained
