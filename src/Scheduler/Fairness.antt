-- ===== src/Scheduler/Fairness.antt =====
-- runtime/scheduler.cpp: each coroutine in the ready list gets its turn.
use aike.Base.{
  ℕ, ◌≡◌, ◌≢◌, ◌*◌, refl, sym, ap, ◌∙◌, subst, List, [], ◌∷◌, ◌++◌, append_assoc, append-nil, Bool,
  true, false, Option, none, some, length, arith, if◌then◌else◌,
}
use aike.Scheduler.Queue.{
  Coro, Scheduler, End, returns, resumes, resumes_worker, assertion, update, set_next, is_null,
  same_coro, resume, dispatch_next, dispatch_head, coro_dispatch, queue_behind, coro_queue,
  coro_exit, spawn, then_switch, yield_to, yield, scheduler_run,
}
use aike.Scheduler.Fifo.{
  IsQueue, Lacks, Distinct, Linked-update, coro_dispatch-IsQueue, coro_queue-IsQueue,
}
use aike.Scheduler.Turns.{
  Spawn, Leave, yields, exits, Turn, returned, back_to_worker, and_then, run_spawns, run_leave,
  run_resumed, run_turn, run_turns, addresses, requeued, after_turn, after_turns,
}

-- coroQueue neither starts nor ends a coroutine.
abbrev SameRun : Scheduler → Scheduler → Type 0
SameRun s t = (t.current ≡ s.current) × (t.cleanup ≡ s.cleanup)

coro_queue-SameRun : (c : ℕ) (s : Scheduler) → SameRun s (coro_queue c s).0
unfolding coro_queue queue_behind
coro_queue-SameRun c s = go s.ready_tail s.ready_head
  where
    go :
        (o h : Option ℕ)
        → SameRun s
            (queue_behind c o (record s { memory = set_next c none s.memory; ready_head = h })).0
    go (some t) h = (refl, refl)
    go none none = (refl, refl)
    go none (some h) = (refl, refl)

resume-cleanup : (c : ℕ) (s : Scheduler) → (resume c s).0.cleanup ≡ s.cleanup
unfolding resume
resume-cleanup c s = go s.current
  where
    go :
        (o : Option ℕ)
        → let r : Scheduler × End =
            if is_null o then (record s { current = some c }, resumes c) else (s, assertion) in
          r.0.cleanup ≡ s.cleanup
    go none = refl
    go (some a) = refl

dispatch_next-cleanup :
    (c : ℕ) (o : Option ℕ) (s : Scheduler) → (dispatch_next c o s).0.cleanup ≡ s.cleanup
unfolding dispatch_next
dispatch_next-cleanup c (some n) s = resume-cleanup c _
dispatch_next-cleanup c none s = go (same_coro s.ready_tail c)
  where
    go :
        (b : Bool)
        → (if b
            then resume c (record s { ready_head = none; ready_tail = none })
            else (s, assertion)).0.cleanup
          ≡ s.cleanup
    go true = resume-cleanup c _
    go false = refl

coro_dispatch-cleanup : (s : Scheduler) → (coro_dispatch s).0.cleanup ≡ s.cleanup
unfolding coro_dispatch dispatch_head
coro_dispatch-cleanup s = go s.ready_head
  where
    on_prev :
        (c : ℕ) (p : Option ℕ)
        → (if is_null p then dispatch_next c (s.memory c).next s else (s, assertion)).0.cleanup
          ≡ s.cleanup
    on_prev c none = dispatch_next-cleanup c _ s
    on_prev c (some a) = refl

    go : (h : Option ℕ) → (dispatch_head h s).0.cleanup ≡ s.cleanup
    go none = refl
    go (some c) = on_prev c (s.memory c).prev

Lacks-front : (c : ℕ) (cs ds : List ℕ) → Lacks c (cs ++ ds) → Lacks c cs
Lacks-front c [] ds h = tt
Lacks-front c (d ∷ cs) ds (n, h) = (n, Lacks-front c cs ds h)

-- The one in the middle is not in front.
Lacks-middle : (cs : List ℕ) (c : ℕ) (ds : List ℕ) → Distinct (cs ++ c ∷ ds) → Lacks c cs
Lacks-middle [] c ds h = tt
Lacks-middle (d ∷ cs) c ds (l, h) = ((λ e. apart d cs l (sym e)), Lacks-middle cs c ds h)
  where
    apart : (d : ℕ) (cs : List ℕ) → Lacks d (cs ++ c ∷ ds) → d ≢ c
    apart d [] (n, l) = n
    apart d (e ∷ cs) (n, l) = apart d cs l

IsQueue-update :
    (s : Scheduler) (a : ℕ) (v : Coro) (cs : List ℕ)
    → IsQueue s cs
    → Lacks a cs
    → IsQueue (record s { memory = update a v s.memory }) cs
IsQueue-update s a v cs q l = record {
  head = q.head;
  tail = q.tail;
  linked = Linked-update a v s.memory none cs l q.linked;
  distinct = q.distinct;
}

-- What spawn writes before it calls coroQueue.
abbrev made : Spawn → Scheduler → Scheduler
made p s =
    let c = record (s.memory p.coro) { fn = p.entry; stack = p.memory; stack_size = 64 * 1024 } in
    record s { memory = update p.coro c s.memory }

-- A new coroutine is queued behind the others.
spawn-IsQueue :
    (p : Spawn) (s : Scheduler) (cs : List ℕ)
    → IsQueue s cs
    → Lacks p.coro cs
    → (t : Scheduler) × (spawn p.coro p.entry p.memory s ≡ (t, returns))
      × IsQueue t (cs ++ p.coro ∷ [])
      × SameRun s t
unfolding spawn
spawn-IsQueue p s cs q l =
    let (t, e, r) = coro_queue-IsQueue (made p s) p.coro cs (IsQueue-update s p.coro _ cs q l) l in
    (t, e, r, subst (λ x. SameRun s x.0) e (coro_queue-SameRun p.coro (made p s)))

run_spawns-IsQueue :
    (ps : List Spawn) (s : Scheduler) (cs : List ℕ)
    → IsQueue s cs
    → Distinct (cs ++ addresses ps)
    → (t : Scheduler) × (run_spawns ps s ≡ some t) × IsQueue t (cs ++ addresses ps) × SameRun s t
unfolding run_spawns
run_spawns-IsQueue [] s cs q d = (s, refl, subst (IsQueue s) (sym (append-nil cs)) q, (refl, refl))
run_spawns-IsQueue (p ∷ ps) s cs q d =
    let (t, e, r, same) = spawn-IsQueue p s cs q (Lacks-middle cs p.coro (addresses ps) d) in
    let front = append_assoc cs (p.coro ∷ []) (addresses ps) in
    let (u, e', r', same') =
      run_spawns-IsQueue ps t (cs ++ p.coro ∷ []) r (subst Distinct (sym front) d) in
    (
      u,
      ap (λ x. and_then (returned x) (run_spawns ps)) e ∙ e',
      subst (IsQueue u) front r',
      (same'.0 ∙ same.0, same'.1 ∙ same.1),
    )

run_leave-IsQueue :
    (l : Leave) (s : Scheduler) (c : ℕ) (cs : List ℕ)
    → IsQueue s cs
    → Lacks c cs
    → s.current ≡ some c
    → s.cleanup ≡ none
    → (t : Scheduler) × (run_leave l s ≡ some t)
      × (t.current ≡ none)
      × IsQueue t (cs ++ requeued l c)
unfolding run_leave yield yield_to coro_exit
run_leave-IsQueue yields s c cs q l n f =
    let (t, e, r) = coro_queue-IsQueue s c cs q l in
    (
      record t { current = none },
      ap (λ o. back_to_worker (yield_to o s)) n ∙ ap (λ x. back_to_worker (then_switch x)) e,
      refl,
      record { head = r.head; tail = r.tail; linked = r.linked; distinct = r.distinct },
    )
run_leave-IsQueue exits s c cs q l n f = (
  record s { current = none; cleanup = s.current },
  ap
      (λ o. back_to_worker (
        if is_null o
        then (record s { current = none; cleanup = s.current }, resumes_worker)
        else (record s { current = none }, assertion)))
      f,
  refl,
  subst (IsQueue _) (sym (append-nil cs))
      (record { head = q.head; tail = q.tail; linked = q.linked; distinct = q.distinct }),
)

run_turn-IsQueue :
    (t : Turn) (s : Scheduler) (c : ℕ) (cs : List ℕ)
    → IsQueue s (c ∷ cs)
    → s.current ≡ none
    → Distinct ((c ∷ cs) ++ addresses t.spawns)
    → (u : Scheduler) × (run_turn t s ≡ some (c, u))
      × (u.current ≡ none)
      × IsQueue u (after_turn t (c ∷ cs))
unfolding run_turn scheduler_run
run_turn-IsQueue t s c cs q n (l, d) =
    let clean : Scheduler = record s { cleanup = none } in
    let ready : IsQueue clean (c ∷ cs) = record {
      head = q.head;
      tail = q.tail;
      linked = q.linked;
      distinct = q.distinct;
    } in
    let (s₁, e₁, current, q₁) = coro_dispatch-IsQueue clean c cs ready n in
    let free : s₁.cleanup ≡ none =
      subst (λ x. x.0.cleanup ≡ none) e₁ (coro_dispatch-cleanup clean) in
    let (s₂, e₂, q₂, same) = run_spawns-IsQueue t.spawns s₁ cs q₁ d in
    let (s₃, e₃, idle, q₃) =
      run_leave-IsQueue t.leave s₂ c (cs ++ addresses t.spawns) q₂ l (same.0 ∙ current)
        (same.1 ∙ free) in
    (
      s₃,
      ap (run_resumed t) e₁
          ∙ ap (λ o. and_then (and_then o (run_leave t.leave)) (λ u. some (c, u))) e₂
          ∙ ap (λ o. and_then o (λ u. some (c, u))) e₃,
      idle,
      q₃,
    )

-- In each turn, malloc gives new coroutines addresses that differ from one another and from those of
-- the coroutine that runs and of the ones in the ready list.
unfoldable pub IsFresh : List Turn → List ℕ → Type 0
IsFresh [] cs = Unit {0}
IsFresh (t ∷ ts) cs = Distinct (cs ++ addresses t.spawns) × IsFresh ts (after_turn t cs)

after_turn-append :
    (t : Turn) (c : ℕ) (cs ds : List ℕ) → (es : List ℕ) × (after_turn t (c ∷ cs ++ ds) ≡ cs ++ es)
after_turn-append t c cs ds = (
  (ds ++ addresses t.spawns) ++ requeued t.leave c,
  ap (λ l. l ++ requeued t.leave c) (append_assoc cs ds (addresses t.spawns))
      ∙ append_assoc cs (ds ++ addresses t.spawns) (requeued t.leave c),
)

-- Whatever the coroutines do in their turns, be it to yield, to return or to spawn others at new
-- addresses, the ones in the ready list have their turns in its order: each is resumed once those that
-- stand before it have had one turn each. No assertion fails on the way, and the ready list behind these
-- turns holds the others, and of those that had a turn the ones that yielded, in the order of queueing.
pub run_turns_fair :
    (ts : List Turn) (s : Scheduler) (cs ds : List ℕ)
    → IsQueue s (cs ++ ds)
    → s.current ≡ none
    → IsFresh ts (cs ++ ds)
    → length ts ≡ length cs
    → (u : Scheduler) × (run_turns ts s ≡ some (cs, u))
      × (u.current ≡ none)
      × IsQueue u (after_turns ts (cs ++ ds))
unfolding run_turns IsFresh after_turns
run_turns_fair [] s [] ds q n f h = (s, refl, n, q)
run_turns_fair [] s (c ∷ cs) ds q n f h = absurd (omega (arith, h))
run_turns_fair (t ∷ ts) s [] ds q n f h = absurd (omega (arith, h))
run_turns_fair (t ∷ ts) s (c ∷ cs) ds q n (d, f) h =
    let (s₁, e₁, idle, q₁) = run_turn-IsQueue t s c (cs ++ ds) q n d in
    let (es, e) = after_turn-append t c cs ds in
    let (u, e₂, idle₂, q₂) =
      run_turns_fair ts s₁ cs es (subst (IsQueue s₁) e q₁) idle (subst (IsFresh ts) e f)
        (omega (arith, h)) in
    (
      u,
      ap (λ o. and_then o (λ r. and_then (run_turns ts r.1) (λ q. some (r.0 ∷ q.0, q.1)))) e₁
          ∙ ap (λ o. and_then o (λ q. some (c ∷ q.0, q.1))) e₂,
      idle₂,
      subst (λ l. IsQueue u (after_turns ts l)) (sym e) q₂,
    )
