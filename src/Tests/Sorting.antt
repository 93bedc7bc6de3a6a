-- ===== src/Tests/Sorting.antt =====
-- compiler/modules.cpp at programs of three and four modules.
use aike.Base.{
  ℕ, ◌≡◌, ◌≢◌, ◌↔◌, refl, List, [], ◌∷◌, none, Bytes, arith, subst, ap, ◌-◌, inl, inr, Elem, ◌<◌,
}
use aike.Types.Content.{nowhere}
use aike.Modules.Graph.{
  Import, ModuleData, contains, module_is_ready, result, out_of_fuel, find_circular_dependency,
}
use aike.Modules.Sort.{Sorting, sorted, running, sort_loop, module_sort}
use aike.Modules.Acyclic.{IsAcyclic}
use aike.Modules.Ending.{module_sort-ends}
use aike.Modules.Order.{IsSorted, module_sort-IsSorted}
use aike.Modules.Endless.{IsStuck, OnlyReports, after_rounds, sort_loop-IsStuck}
use aike.Modules.Circular.{Imports, find_circular_dependency-Imports}
use aike.Modules.Depth.{find_circular_dependency-ends}
use aike.Tree.Ast.{Ast, Asts, Common, block}
use aike.Tree.Visit.{module_gather_imports}
use aike.Tree.Within.{IsWithin}
use aike.Tree.Walks.{IsImportOf, module_gather_imports_iff}

abbrev a : Bytes
a = b'a' ∷ []

abbrev b : Bytes
b = b'b' ∷ []

abbrev c : Bytes
c = b'c' ∷ []

abbrev d : Bytes
d = b'd' ∷ []

abbrev module_of : Bytes → ℕ → List Import → ModuleData
module_of n i is = record { name = n; index = i; imports = is }

-- `a` imports `b` and `c`, and `b` imports `c`.
abbrev tower : List ModuleData
tower =
    module_of a 0 ((b, nowhere) ∷ (c, nowhere) ∷ [])
    ∷ module_of b 1 ((c, nowhere) ∷ [])
    ∷ module_of c 2 []
    ∷ []

abbrev height : Bytes → ℕ
height [] = 0
height (x ∷ _) = b'c' - x

tower-IsAcyclic : IsAcyclic height tower
tower-IsAcyclic = record { falls = falls }
  where
    Falls : ModuleData → Type 0
    Falls m =
        (i : Import)
        → Elem i m.imports
        → (k : ModuleData) × Elem k tower × (k.name ≡ i.0) × (height k.name < height m.name)

    falls : (m : ModuleData) → Elem m tower → Falls m
    falls m (inl e) = subst Falls e λ i h. elim h [
      | inl g ↦ (module_of b 1 ((c, nowhere) ∷ []), inr (inl refl), ap (λ p. p.0) g, omega arith)
      | inr (inl g) ↦ (module_of c 2 [], inr (inr (inl refl)), ap (λ p. p.0) g, omega arith)
      | inr (inr g) ↦ absurd g
    ]
    falls m (inr (inl e)) = subst Falls e λ i h. elim h [
      | inl g ↦ (module_of c 2 [], inr (inr (inl refl)), ap (λ p. p.0) g, omega arith)
      | inr g ↦ absurd g
    ]
    falls m (inr (inr (inl e))) = subst Falls e (λ i h. absurd h)
    falls m (inr (inr (inr e))) = absurd e

module_sort-ends_example : (t : Sorting) × (module_sort 4 tower ≡ sorted t) × (t.errors ≡ [])
module_sort-ends_example = module_sort-ends height tower 4 tower-IsAcyclic (omega arith)

abbrev tower_sorted : Sorting
tower_sorted = record {
  indices = 2 ∷ 1 ∷ 0 ∷ [];
  visited = a ∷ b ∷ c ∷ [];
  pending = [];
  errors = [];
}

tower_run : module_sort 4 tower ≡ sorted tower_sorted
unfolding module_sort
tower_run = refl

module_sort-IsSorted_example : (es : List ModuleData) × IsSorted tower tower_sorted es
module_sort-IsSorted_example = module_sort-IsSorted 4 tower tower_sorted tower_run

-- `a` and `b` import each other, `c` imports `a` and `d`, and `d` imports `c`.
abbrev module_c : ModuleData
module_c = module_of c 2 ((a, nowhere) ∷ (d, nowhere) ∷ [])

abbrev module_d : ModuleData
module_d = module_of d 3 ((c, nowhere) ∷ [])

abbrev knot : List ModuleData
knot =
    module_of a 0 ((b, nowhere) ∷ []) ∷ module_of b 1 ((a, nowhere) ∷ []) ∷ module_c ∷ module_d ∷ []

-- The whole sort, with more rounds than there are modules.
knot_run : module_sort 30 knot ≡ running
unfolding module_sort
knot_run = refl

knot_cycle : find_circular_dependency knot (c, nowhere) ≡ result (a, nowhere)
unfolding find_circular_dependency
knot_cycle = refl

-- The state of the loop once `a` and `b` are placed.
abbrev knot_state : Sorting
knot_state = record {
  indices = 1 ∷ 0 ∷ [];
  visited = a ∷ b ∷ a ∷ [];
  pending = module_c ∷ module_d ∷ [];
  errors = (a, nowhere) ∷ [];
}

knot-IsStuck : IsStuck knot module_c (module_d ∷ []) b'a' [] nowhere (a ∷ b ∷ a ∷ [])
unfolding contains module_is_ready
knot-IsStuck = record { none_ready = (refl, (refl, tt)); cycle = knot_cycle; broken = refl }

sort_loop-IsStuck_example :
    (sort_loop 1000 knot knot_state ≡ running)
    × OnlyReports 1000 (a, nowhere) knot_state (after_rounds 1000 knot knot_state)
sort_loop-IsStuck_example =
    sort_loop-IsStuck knot module_c (module_d ∷ []) b'a' [] nowhere knot_state 1000 refl
      knot-IsStuck

find_circular_dependency-Imports_example : Imports knot a a
find_circular_dependency-Imports_example =
    find_circular_dependency-Imports knot (c, nowhere) b'a' [] nowhere knot_cycle

find_circular_dependency-ends_example : find_circular_dependency knot (c, nowhere) ≢ out_of_fuel
find_circular_dependency-ends_example = find_circular_dependency-ends knot (c, nowhere)

abbrev untyped : Common
untyped = record { type = none; location = nowhere }

abbrev two_imports : Ast
two_imports =
    block untyped (Asts.cons (Ast.import_ untyped a) (Asts.cons (Ast.import_ untyped b) Asts.nil))

module_gather_imports_iff_example :
    Elem (b, nowhere) (module_gather_imports two_imports)
    ↔ ((n : Ast) × IsWithin n two_imports × IsImportOf (b, nowhere) n)
module_gather_imports_iff_example = module_gather_imports_iff two_imports (b, nowhere)
