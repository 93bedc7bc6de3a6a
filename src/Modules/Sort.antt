-- ===== src/Modules/Sort.antt =====
-- compiler/modules.cpp: moduleSort. The rounds of its `while` are on fuel.
use aike.Base.{
  ℕ, zero, suc, Bool, true, false, List, [], ◌∷◌, ◌++◌, Option, none, some, Bytes, if◌then◌else◌,
  length, ltb, ◌==◌,
}
use aike.Types.Content.{nowhere}
use aike.Modules.Graph.{
  Import, ModuleData, Search, result, assertion, out_of_fuel, find_circular_dependency,
  module_is_ready,
}

-- Str::operator<: the bytes as memcmp compares them, then the sizes.
unfoldable pub name_lt : Bytes → Bytes → Bool
name_lt [] [] = false
name_lt [] (_ ∷ _) = true
name_lt (_ ∷ _) [] = false
name_lt (a ∷ s) (b ∷ t) = if ltb a b then true else if ltb b a then false else name_lt s t

-- `sort` by name; the names of a map are distinct, so every sort gives this list.
unfoldable pub insert_by_name : ModuleData → List ModuleData → List ModuleData
unfolding name_lt
insert_by_name m [] = m ∷ []
insert_by_name m (k ∷ ks) = if name_lt k.name m.name then k ∷ insert_by_name m ks else m ∷ k ∷ ks

unfoldable pub sort_by_name : List ModuleData → List ModuleData
unfolding insert_by_name
sort_by_name [] = []
sort_by_name (m ∷ ms) = insert_by_name m (sort_by_name ms)

-- The variables of moduleSort, and the circular imports that it has reported.
pub record Sorting : Type 0 where
  pub indices : List ℕ
  pub visited : List Bytes
  pub pending : List ModuleData
  pub errors : List Import

-- The body of the `for` loop: `pending` collects the modules that are written back.
unfoldable pub place : ModuleData → Sorting → Sorting
unfolding module_is_ready
place m s =
    if module_is_ready m s.visited
    then record s { indices = s.indices ++ m.index ∷ []; visited = m.name ∷ s.visited }
    else record s { pending = s.pending ++ m ∷ [] }

unfoldable pub place_all : List ModuleData → Sorting → Sorting
unfolding place
place_all [] s = s
place_all (m ∷ ms) s = place_all ms (place m s)

pub data Outcome : Type 0 where
  sorted : Sorting → Outcome
  failed : Outcome
  running : Outcome

-- The break of a cycle, after the search from `pending[0]`. An empty name fails the assertion.
unfoldable pub break_cycle : Search → Sorting → Option Sorting
break_cycle (result ([], _)) s = none
break_cycle (result (c ∷ n, l)) s =
    some (record s { errors = s.errors ++ (c ∷ n, l) ∷ []; visited = (c ∷ n) ∷ s.visited })
break_cycle assertion s = none
break_cycle out_of_fuel s = none

unfoldable pub break_first : List ModuleData → List ModuleData → Sorting → Option Sorting
unfolding break_cycle find_circular_dependency
break_first ms [] s = none
break_first ms (m ∷ _) s = break_cycle (find_circular_dependency ms (m.name, nowhere)) s

-- One round of the `while`; `none` is a failed assertion.
unfoldable pub round : List ModuleData → Sorting → Option Sorting
unfolding place_all break_first
round ms s =
    let next = place_all s.pending (record s { pending = [] }) in
    if length next.pending == length s.pending then break_first ms s.pending next else some next

abbrev pub go_on : Option Sorting → (Sorting → Outcome) → Outcome
go_on none rounds = failed
go_on (some s) rounds = rounds s

-- `while (!pending.empty())`
abbrev pub while_pending : List ModuleData → Sorting → (Sorting → Outcome) → Outcome
while_pending [] s rounds = sorted s
while_pending (_ ∷ _) s rounds = rounds s

unfoldable pub sort_loop : ℕ → List ModuleData → Sorting → Outcome
unfolding round
sort_loop zero ms s = running
sort_loop (suc fuel) ms s =
    while_pending s.pending s (λ t. go_on (round ms t) (λ next. sort_loop fuel ms next))

-- `modules` lists the values of the map; `fuel` bounds the rounds.
unfoldable pub module_sort : ℕ → List ModuleData → Outcome
unfolding sort_loop sort_by_name
module_sort fuel ms =
    sort_loop fuel ms
      (record { indices = []; visited = []; pending = sort_by_name ms; errors = [] })
