-- ===== src/Tests/Coroutines.antt =====
-- runtime/scheduler.cpp with two coroutines in the ready list.
use aike.Base.{◌≡◌, refl, List, [], ◌∷◌, none, some, ◌==◌, if◌then◌else◌, arith}
use aike.Scheduler.Queue.{Coro, Scheduler, resumes, coro_dispatch, coro_queue, returns}
use aike.Scheduler.Turns.{Turn, yields, exits, run_turns, after_turns}
use aike.Scheduler.Fairness.{IsFresh, run_turns_fair}
use aike.Scheduler.Fifo.{IsQueue, coro_dispatch-IsQueue, coro_queue-IsQueue}

abbrev coro_one : Coro
coro_one = record { fn = 100; stack = 4096; stack_size = 65536; prev = none; next = some 2 }

abbrev coro_two : Coro
coro_two = record { fn = 200; stack = 8192; stack_size = 65536; prev = some 1; next = none }

abbrev two_ready : Scheduler
two_ready = record {
  memory = λ a. if a == 1 then coro_one else coro_two;
  ready_head = some 1;
  ready_tail = some 2;
  current = none;
  cleanup = none;
}

two_ready-IsQueue : IsQueue two_ready (1 ∷ 2 ∷ [])
two_ready-IsQueue = record {
  head = refl;
  tail = refl;
  linked = (refl, refl, (refl, refl, tt));
  distinct = ((omega arith, tt), (tt, tt));
}

coro_dispatch-IsQueue_example :
    (t : Scheduler) × (coro_dispatch two_ready ≡ (t, resumes 1))
    × (t.current ≡ some 1)
    × IsQueue t (2 ∷ [])
coro_dispatch-IsQueue_example = coro_dispatch-IsQueue two_ready 1 (2 ∷ []) two_ready-IsQueue refl

coro_queue-IsQueue_example :
    (t : Scheduler) × (coro_queue 3 two_ready ≡ (t, returns)) × IsQueue t (1 ∷ 2 ∷ 3 ∷ [])
coro_queue-IsQueue_example =
    coro_queue-IsQueue two_ready 3 (1 ∷ 2 ∷ []) two_ready-IsQueue (omega arith, (omega arith, tt))

-- The first coroutine spawns another one and yields, the second one returns.
abbrev two_turns : List Turn
two_turns =
    record { spawns = record { coro = 3; entry = 300; memory = 12288 } ∷ []; leave = yields }
    ∷ record { spawns = []; leave = exits }
    ∷ []

two_turns-IsFresh : IsFresh two_turns (1 ∷ 2 ∷ [])
unfolding IsFresh
two_turns-IsFresh = (
  ((omega arith, (omega arith, tt)), ((omega arith, tt), (tt, tt))),
  (((omega arith, (omega arith, tt)), ((omega arith, tt), (tt, tt))), tt),
)

run_turns_fair_example :
    (u : Scheduler) × (run_turns two_turns two_ready ≡ some (1 ∷ 2 ∷ [], u))
    × (u.current ≡ none)
    × IsQueue u (after_turns two_turns (1 ∷ 2 ∷ []))
run_turns_fair_example =
    run_turns_fair two_turns two_ready (1 ∷ 2 ∷ []) [] two_ready-IsQueue refl two_turns-IsFresh refl
