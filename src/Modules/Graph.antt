-- ===== src/Modules/Graph.antt =====
-- compiler/modules.cpp: ModuleData, findCircularDependency and moduleIsReady. A set of names is a list
-- that is only asked for membership; the map from names to modules is the list of its values.
use aike.Base.{
  ℕ, zero, suc, Bool, true, false, ◌&&◌, ◌||◌, List, [], ◌∷◌, Option, none, some, Bytes, bytes_eq,
  if◌then◌else◌, length,
}
use aike.Types.Syntax.{Location}
use aike.Types.Content.{nowhere}

-- pair<Str, Location>
abbrev pub Import : Type 0
Import = Bytes × Location

pub record ModuleData : Type 0 where
  pub name : Bytes
  pub index : ℕ
  pub imports : List Import

-- `visited.count(name)`
unfoldable pub contains : List Bytes → Bytes → Bool
unfolding bytes_eq
contains [] n = false
contains (m ∷ ms) n = bytes_eq m n || contains ms n

-- `modules.find(name)`
unfoldable pub find_module : Bytes → List ModuleData → Option ModuleData
unfolding bytes_eq
find_module n [] = none
find_module n (m ∷ ms) = if bytes_eq m.name n then some m else find_module n ms

-- What the search gives: an import, whose name is empty if there is no cycle, or a failed assertion,
-- or the end of the fuel.
pub data Search : Type 0 where
  result : Import → Search
  assertion : Search
  out_of_fuel : Search

-- `if (im.first.size) return im;`, and otherwise what follows.
unfoldable pub or_next : Search → Search → Search
or_next (result ([], _)) next = next
or_next (result (c ∷ n, l)) next = result (c ∷ n, l)
or_next assertion next = assertion
or_next out_of_fuel next = out_of_fuel

-- The loop over the imports, with the recursive call as `search`.
unfoldable pub first_cycle : (Import → Search) → List Import → Search
unfolding or_next
first_cycle search [] = result ([], nowhere)
first_cycle search (i ∷ is) = or_next (search i) (first_cycle search is)

unfoldable pub in_module : (Import → Search) → Option ModuleData → Search
unfolding first_cycle
in_module search none = assertion
in_module search (some m) = first_cycle search m.imports

-- `visited` holds the names on the path: the source inserts a name before the loop over its imports
-- and erases it after.
unfoldable pub circular_rec : ℕ → List ModuleData → Import → List Bytes → Search
unfolding contains find_module in_module
circular_rec zero ms i path = out_of_fuel
circular_rec (suc fuel) ms i path = elim (contains path i.0) [
  | true ↦ result i
  | false ↦ in_module (λ j. circular_rec fuel ms j (i.0 ∷ path)) (find_module i.0 ms)
]

unfoldable pub find_circular_dependency : List ModuleData → Import → Search
unfolding circular_rec
find_circular_dependency ms i = circular_rec (suc (length ms)) ms i []

unfoldable pub all_visited : List Import → List Bytes → Bool
unfolding contains
all_visited [] visited = true
all_visited (i ∷ is) visited = contains visited i.0 && all_visited is visited

unfoldable pub module_is_ready : ModuleData → List Bytes → Bool
unfolding all_visited
module_is_ready m visited = all_visited m.imports visited
