-- ===== src/Scheduler/Queue.antt =====
-- runtime/scheduler.cpp: the state, and each function up to the point where it switches stacks. What
-- contextCapture and contextResume save and restore is not modelled: a switch is the value that a
-- function ends with. A pointer to a Coro is a number, and the null pointer is `none`.
use aike.Base.{ℕ, ◌*◌, Bool, true, false, Option, none, some, if◌then◌else◌, ◌==◌}

-- Coro, less its saved context. `fn` and `stack` are addresses.
pub record Coro : Type 0 where
  pub fn : ℕ
  pub stack : ℕ
  pub stack_size : ℕ
  pub prev : Option ℕ
  pub next : Option ℕ

-- The static variables, and the memory that holds the coroutines.
pub record Scheduler : Type 0 where
  pub memory : ℕ → Coro
  pub ready_head : Option ℕ
  pub ready_tail : Option ℕ
  pub current : Option ℕ
  pub cleanup : Option ℕ

-- Where a function ends: it returns, it resumes the context of a coroutine or that of the worker, or
-- an assertion fails.
pub data End : Type 0 where
  returns : End
  resumes : ℕ → End
  resumes_worker : End
  assertion : End

abbrev pub update : ℕ → Coro → (ℕ → Coro) → ℕ → Coro
update a c memory b = if a == b then c else memory b

abbrev pub set_next : ℕ → Option ℕ → (ℕ → Coro) → ℕ → Coro
set_next a p memory = update a (record (memory a) { next = p }) memory

abbrev pub set_prev : ℕ → Option ℕ → (ℕ → Coro) → ℕ → Coro
set_prev a p memory = update a (record (memory a) { prev = p }) memory

abbrev pub is_null : Option ℕ → Bool
is_null none = true
is_null (some _) = false

-- coroQueue behind its first assignment, by `readyTail`.
unfoldable pub queue_behind : ℕ → Option ℕ → Scheduler → Scheduler × End
queue_behind c (some tail) s = (
  record s {
    memory = set_next tail (some c) (set_prev c (some tail) s.memory);
    ready_tail = some c;
  },
  returns,
)
queue_behind c none s =
    if is_null s.ready_head
    then (
      record s { memory = set_prev c none s.memory; ready_head = some c; ready_tail = some c },
      returns,
    )
    else (s, assertion)

unfoldable pub coro_queue : ℕ → Scheduler → Scheduler × End
unfolding queue_behind
coro_queue c s = queue_behind c s.ready_tail (record s { memory = set_next c none s.memory })

-- `assert(!current); current = c; contextResume(&c->context);`
unfoldable pub resume : ℕ → Scheduler → Scheduler × End
resume c s =
    if is_null s.current then (record s { current = some c }, resumes c) else (s, assertion)

abbrev pub same_coro : Option ℕ → ℕ → Bool
same_coro none c = false
same_coro (some a) c = a == c

-- coroDispatch behind `assert(!c->prev)`, by `c->next`.
unfoldable pub dispatch_next : ℕ → Option ℕ → Scheduler → Scheduler × End
unfolding resume
dispatch_next c (some n) s =
    resume c (record s { memory = set_next c none (set_prev n none s.memory); ready_head = some n })
dispatch_next c none s =
    if same_coro s.ready_tail c
    then resume c (record s { ready_head = none; ready_tail = none })
    else (s, assertion)

unfoldable pub dispatch_head : Option ℕ → Scheduler → Scheduler × End
unfolding dispatch_next
dispatch_head none s = (s, returns)
dispatch_head (some c) s =
    if is_null (s.memory c).prev then dispatch_next c (s.memory c).next s else (s, assertion)

unfoldable pub coro_dispatch : Scheduler → Scheduler × End
unfolding dispatch_head
coro_dispatch s = dispatch_head s.ready_head s

-- coroEntry, after the coroutine's function has returned.
unfoldable pub coro_exit : Scheduler → Scheduler × End
coro_exit s =
    if is_null s.cleanup
    then (record s { current = none; cleanup = s.current }, resumes_worker)
    else (record s { current = none }, assertion)

-- spawn: `coro` is the address that malloc gives, `stack` that of stackCreate.
unfoldable pub spawn : ℕ → ℕ → ℕ → Scheduler → Scheduler × End
unfolding coro_queue
spawn coro fn stack s =
    let made = record (s.memory coro) { fn = fn; stack = stack; stack_size = 64 * 1024 } in
    coro_queue coro (record s { memory = update coro made s.memory })

abbrev pub then_switch : Scheduler × End → Scheduler × End
then_switch (s, returns) = (record s { current = none }, resumes_worker)
then_switch (s, e) = (s, e)

-- yield, on its way out: when the coroutine is resumed it returns from contextCapture at once.
unfoldable pub yield_to : Option ℕ → Scheduler → Scheduler × End
unfolding coro_queue
yield_to none s = (s, assertion)
yield_to (some c) s = then_switch (coro_queue c s)

unfoldable pub yield : Scheduler → Scheduler × End
unfolding yield_to
yield s = yield_to s.current s

-- schedulerRun, each time that the worker's context is resumed: the stack and the memory of a
-- coroutine that has ended are freed, and the next one is dispatched.
unfoldable pub scheduler_run : Scheduler → Scheduler × End
unfolding coro_dispatch
scheduler_run s = coro_dispatch (record s { cleanup = none })

unfoldable pub scheduler_get_stack : Scheduler → Option (ℕ × ℕ)
scheduler_get_stack s = elim s.current [
  | none ↦ none
  | some c ↦ some ((s.memory c).stack, (s.memory c).stack_size)
]
