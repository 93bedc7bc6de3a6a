-- ===== src/Scheduler/Fifo.antt =====
-- runtime/scheduler.cpp: the ready list is a first-in, first-out queue.
use aike.Base.{
  ℕ, ◌≡◌, sym, ◌++◌, ◌≢◌, refl, ap, ◌∙◌, List, [], ◌∷◌, Option, none, some, if◌then◌else◌, ==_refl,
  ne→==,
}
use aike.Scheduler.Queue.{
  Coro, Scheduler, resumes, assertion, update, set_next, set_prev, is_null, resume, same_coro,
  dispatch_next, dispatch_head, coro_dispatch, coro_queue, queue_behind, returns,
}

abbrev pub first : List ℕ → Option ℕ
first [] = none
first (c ∷ _) = some c

abbrev pub last_or : Option ℕ → List ℕ → Option ℕ
last_or p [] = p
last_or p (c ∷ cs) = last_or (some c) cs

-- The coroutines of the list point to one another in its order, the first of them back to `p`.
abbrev pub Linked : (ℕ → Coro) → Option ℕ → List ℕ → Type 0
Linked memory p [] = Unit {0}
Linked memory p (c ∷ cs) =
    ((memory c).prev ≡ p) × ((memory c).next ≡ first cs) × Linked memory (some c) cs

abbrev pub Lacks : ℕ → List ℕ → Type 0
Lacks c [] = Unit {0}
Lacks c (d ∷ ds) = (c ≢ d) × Lacks c ds

abbrev pub Distinct : List ℕ → Type 0
Distinct [] = Unit {0}
Distinct (c ∷ cs) = Lacks c cs × Distinct cs

-- The ready list of the scheduler is `cs`.
pub record IsQueue (s : Scheduler) (cs : List ℕ) : Type 0 where
  pub head : s.ready_head ≡ first cs
  pub tail : s.ready_tail ≡ last_or none cs
  pub linked : Linked s.memory none cs
  pub distinct : Distinct cs

-- A write to a coroutine that is not in the list leaves its links.
pub Linked-update :
    (a : ℕ) (v : Coro) (memory : ℕ → Coro) (p : Option ℕ) (cs : List ℕ)
    → Lacks a cs
    → Linked memory p cs
    → Linked (update a v memory) p cs
Linked-update a v memory p [] l h = tt
Linked-update a v memory p (c ∷ cs) l h =
    (rw (ne→== a c l.0) h.0, rw (ne→== a c l.0) h.1, Linked-update a v memory (some c) cs l.1 h.2)

-- The queue once its first coroutine is taken.
IsQueue-next :
    (s : Scheduler) (c n : ℕ) (cs : List ℕ)
    → IsQueue s (c ∷ n ∷ cs)
    → IsQueue
        (record s {
          memory = set_next c none (set_prev n none s.memory);
          ready_head = some n;
          current = some c;
        })
        (n ∷ cs)
IsQueue-next s c n cs q = record {
  head = refl;
  tail = q.tail;
  linked = (
    rw (ne→== c n q.distinct.0.0, ==_refl n),
    rw (ne→== c n q.distinct.0.0, ==_refl n) q.linked.2.1,
    Linked-update c _ _ (some n) cs q.distinct.0.1
        (Linked-update n _ _ (some n) cs q.distinct.1.0 q.linked.2.2),
  );
  distinct = q.distinct.1;
}

resume_idle :
    (c : ℕ) (s : Scheduler)
    → s.current ≡ none
    → resume c s ≡ (record s { current = some c }, resumes c)
unfolding resume
resume_idle c s e =
    ap (λ o. if is_null o then (record s { current = some c }, resumes c) else (s, assertion)) e

dispatch_first :
    (s : Scheduler) (c : ℕ) (o : Option ℕ)
    → s.ready_head ≡ some c
    → (s.memory c).prev ≡ none
    → (s.memory c).next ≡ o
    → coro_dispatch s ≡ dispatch_next c o s
unfolding coro_dispatch dispatch_head
dispatch_first s c o h p n =
    ap (λ k. dispatch_head k s) h
    ∙ ap (λ k. if is_null k then dispatch_next c (s.memory c).next s else (s, assertion)) p
    ∙ ap (λ k. dispatch_next c k s) n

-- Where no coroutine runs, coroDispatch resumes the one that is first in the ready list, and the
-- others stay in it in their order.
pub coro_dispatch-IsQueue :
    (s : Scheduler) (c : ℕ) (cs : List ℕ)
    → IsQueue s (c ∷ cs)
    → s.current ≡ none
    → (t : Scheduler) × (coro_dispatch s ≡ (t, resumes c)) × (t.current ≡ some c) × IsQueue t cs
unfolding dispatch_next
coro_dispatch-IsQueue s c [] q e = (
  record s { ready_head = none; ready_tail = none; current = some c },
  dispatch_first s c none q.head q.linked.0 q.linked.1
      ∙ ap
          (λ b.
            if b
            then resume c (record s { ready_head = none; ready_tail = none })
            else (s, assertion))
          (ap (λ k. same_coro k c) q.tail ∙ ==_refl c)
      ∙ resume_idle c _ e,
  refl,
  record { head = refl; tail = refl; linked = tt; distinct = tt },
)
coro_dispatch-IsQueue s c (n ∷ cs) q e = (
  _,
  dispatch_first s c (some n) q.head q.linked.0 q.linked.1 ∙ resume_idle c _ e,
  refl,
  IsQueue-next s c n cs q,
)

-- The last coroutine of a list that is not empty.
abbrev last : ℕ → List ℕ → ℕ
last d [] = d
last d (e ∷ cs) = last e cs

last_or-last : (p : Option ℕ) (d : ℕ) (cs : List ℕ) → last_or p (d ∷ cs) ≡ some (last d cs)
last_or-last p d [] = refl
last_or-last p d (e ∷ cs) = last_or-last (some d) e cs

last_or-append : (p : Option ℕ) (c : ℕ) (cs : List ℕ) → last_or p (cs ++ c ∷ []) ≡ some c
last_or-append p c [] = refl
last_or-append p c (d ∷ cs) = last_or-append (some d) c cs

last_apart : (c d : ℕ) (cs : List ℕ) → Lacks c (d ∷ cs) → last d cs ≢ c
last_apart c d [] l e = l.0 (sym e)
last_apart c d (e' ∷ cs) l e = last_apart c e' cs l.1 e

Lacks-append : (d c : ℕ) (cs : List ℕ) → Lacks d cs → d ≢ c → Lacks d (cs ++ c ∷ [])
Lacks-append d c [] l n = (n, tt)
Lacks-append d c (e ∷ cs) l n = (l.0, Lacks-append d c cs l.1 n)

Distinct-append : (c : ℕ) (cs : List ℕ) → Lacks c cs → Distinct cs → Distinct (cs ++ c ∷ [])
Distinct-append c [] l u = (tt, tt)
Distinct-append c (d ∷ cs) l u =
    (Lacks-append d c cs u.0 (λ e. l.0 (sym e)), Distinct-append c cs l.1 u.1)

-- A coroutine is hung behind the last one.
Linked-append :
    (c : ℕ) (memory : ℕ → Coro) (p : Option ℕ) (d : ℕ) (cs : List ℕ)
    → Lacks c (d ∷ cs)
    → Distinct (d ∷ cs)
    → (memory c).next ≡ none
    → Linked memory p (d ∷ cs)
    → Linked
        (set_next (last d cs) (some c) (set_prev c (some (last d cs)) memory))
        p
        ((d ∷ cs) ++ c ∷ [])
Linked-append c memory p d [] l u n h = (
  rw (==_refl d, ne→== c d l.0) h.0,
  rw (==_refl d),
  (
    rw (ne→== d c (λ e. l.0 (sym e)), ==_refl c),
    rw (ne→== d c (λ e. l.0 (sym e)), ==_refl c) n,
    tt,
  ),
)
Linked-append c memory p d (e ∷ cs) l u n h = (
  rw (ne→== (last e cs) d (last_apart d e cs u.0), ne→== c d l.0) h.0,
  rw (ne→== (last e cs) d (last_apart d e cs u.0), ne→== c d l.0) h.1,
  Linked-append c memory (some d) e cs l.1 u.1 n h.2,
)

-- coroQueue puts a coroutine that is not in the ready list at its end, behind the others in their
-- order, and no assertion fails.
pub coro_queue-IsQueue :
    (s : Scheduler) (c : ℕ) (cs : List ℕ)
    → IsQueue s cs
    → Lacks c cs
    → (t : Scheduler) × (coro_queue c s ≡ (t, returns)) × IsQueue t (cs ++ c ∷ [])
unfolding coro_queue queue_behind
coro_queue-IsQueue s c [] q l = (
  _,
  ap (λ o. queue_behind c o (record s { memory = set_next c none s.memory })) q.tail
      ∙ ap
          (λ o.
            if is_null o
            then (
              record s {
                memory = set_prev c none (set_next c none s.memory);
                ready_head = some c;
                ready_tail = some c;
              },
              returns,
            )
            else (record s { memory = set_next c none s.memory }, assertion))
          q.head,
  record {
    head = refl;
    tail = refl;
    linked = (rw (==_refl c), rw (==_refl c), tt);
    distinct = (tt, tt);
  },
)
coro_queue-IsQueue s c (d ∷ cs) q l = (
  _,
  ap (λ o. queue_behind c o (record s { memory = set_next c none s.memory }))
      (q.tail ∙ last_or-last none d cs),
  record {
    head = q.head;
    tail = sym (last_or-append none c (d ∷ cs));
    linked =
        Linked-append c (set_next c none s.memory) none d cs l q.distinct (rw (==_refl c))
          (Linked-update c _ _ none (d ∷ cs) l q.linked);
    distinct = Distinct-append c (d ∷ cs) l q.distinct;
  },
)
