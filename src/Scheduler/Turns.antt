-- ===== src/Scheduler/Turns.antt =====
-- runtime/scheduler.cpp as a whole: the turns of coroutines between one schedulerRun and the next. What
-- the function of a coroutine does to the scheduler in its turn is spawn others, and then yield or
-- return.
use aike.Base.{ℕ, List, [], ◌∷◌, Option, none, some, ◌++◌}
use aike.Scheduler.Queue.{
  Scheduler, End, returns, resumes, resumes_worker, spawn, yield, coro_exit, scheduler_run,
}

-- The arguments of a call of spawn, with the addresses that it gets.
pub record Spawn : Type 0 where
  pub coro : ℕ
  pub entry : ℕ
  pub memory : ℕ

pub data Leave : Type 0 where
  yields : Leave
  exits : Leave

pub record Turn : Type 0 where
  pub spawns : List Spawn
  pub leave : Leave

-- `none` is a failed assertion, or a switch to another context than the one that is due.
abbrev pub returned : Scheduler × End → Option Scheduler
returned (s, returns) = some s
returned (s, _) = none

abbrev pub back_to_worker : Scheduler × End → Option Scheduler
back_to_worker (s, resumes_worker) = some s
back_to_worker (s, _) = none

abbrev pub and_then {ℓ κ} : {A : Type ℓ} {B : Type κ} → Option A → (A → Option B) → Option B
and_then none f = none
and_then (some a) f = f a

unfoldable pub run_spawns : List Spawn → Scheduler → Option Scheduler
unfolding spawn
run_spawns [] s = some s
run_spawns (p ∷ ps) s = and_then (returned (spawn p.coro p.entry p.memory s)) (run_spawns ps)

unfoldable pub run_leave : Leave → Scheduler → Option Scheduler
unfolding yield coro_exit
run_leave yields s = back_to_worker (yield s)
run_leave exits s = back_to_worker (coro_exit s)

-- The turn of the coroutine that schedulerRun resumes, where it resumes one.
abbrev pub run_resumed : Turn → Scheduler × End → Option (ℕ × Scheduler)
run_resumed t (s, resumes c) =
    and_then (and_then (run_spawns t.spawns s) (run_leave t.leave)) (λ s'. some (c, s'))
run_resumed t (s, _) = none

unfoldable pub run_turn : Turn → Scheduler → Option (ℕ × Scheduler)
unfolding scheduler_run run_spawns run_leave
run_turn t s = run_resumed t (scheduler_run s)

-- The coroutines that had these turns, in order.
unfoldable pub run_turns : List Turn → Scheduler → Option (List ℕ × Scheduler)
unfolding run_turn
run_turns [] s = some ([], s)
run_turns (t ∷ ts) s =
    and_then (run_turn t s) λ r. and_then (run_turns ts r.1) λ q. some (r.0 ∷ q.0, q.1)

-- The ready list behind a turn of its first coroutine, and the addresses that spawn got in it.
abbrev pub addresses : List Spawn → List ℕ
addresses [] = []
addresses (p ∷ ps) = p.coro ∷ addresses ps

abbrev pub requeued : Leave → ℕ → List ℕ
requeued yields c = c ∷ []
requeued exits c = []

abbrev pub after_turn : Turn → List ℕ → List ℕ
after_turn t [] = []
after_turn t (c ∷ cs) = (cs ++ addresses t.spawns) ++ requeued t.leave c

unfoldable pub after_turns : List Turn → List ℕ → List ℕ
after_turns [] cs = cs
after_turns (t ∷ ts) cs = after_turns ts (after_turn t cs)
