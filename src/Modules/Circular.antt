-- ===== src/Modules/Circular.antt =====
-- compiler/modules.cpp: findCircularDependency finds true cycles, and its recursion ends.
use aike.Base.{
  ℕ, zero, suc, ◌≡◌, refl, subst, true, List, [], ◌∷◌, Option, none, some, Bytes, length, arith,
  bytes_eq, bytes_eq→eq, Bool-cases, inl, inr, Elem,
}
use aike.Types.Syntax.{Location}
use aike.Modules.Graph.{
  Import, ModuleData, contains, find_module, Search, result, assertion, out_of_fuel, or_next,
  first_cycle, in_module, circular_rec, find_circular_dependency,
}

-- The module `a` of the program imports `b`, or imports a module that does, and so on.
pub data Imports (ms : List ModuleData) : Bytes → Bytes → Type 0 where
  direct :
      {a b : Bytes} (m : ModuleData) (i : Import)
      → find_module a ms ≡ some m
      → Elem i m.imports
      → i.0 ≡ b
      → Imports ms a b
  through : {a b : Bytes} (d : Bytes) → Imports ms a d → Imports ms d b → Imports ms a b

-- A name in the path imports the name that is looked at.
abbrev OnPath : List ModuleData → List Bytes → Bytes → Type 0
OnPath ms path b = (a : Bytes) → contains path a ≡ true → Imports ms a b

-- A cycle that is found is one.
abbrev FoundCycle : List ModuleData → Search → Type 0
FoundCycle ms (result ([], _)) = Unit {0}
FoundCycle ms (result (c ∷ n, _)) = Imports ms (c ∷ n) (c ∷ n)
FoundCycle ms assertion = Unit {0}
FoundCycle ms out_of_fuel = Unit {0}

FoundCycle-or_next :
    (ms : List ModuleData) (r s : Search)
    → FoundCycle ms r
    → FoundCycle ms s
    → FoundCycle ms (or_next r s)
unfolding or_next
FoundCycle-or_next ms (result ([], _)) s h k = k
FoundCycle-or_next ms (result (c ∷ n, _)) s h k = h
FoundCycle-or_next ms assertion s h k = tt
FoundCycle-or_next ms out_of_fuel s h k = tt

FoundCycle-first :
    (ms : List ModuleData) (search : Import → Search) (is : List Import)
    → ((i : Import) → Elem i is → FoundCycle ms (search i))
    → FoundCycle ms (first_cycle search is)
unfolding first_cycle
FoundCycle-first ms search [] h = tt
FoundCycle-first ms search (i ∷ is) h =
    FoundCycle-or_next ms (search i) (first_cycle search is) (h i (inl refl))
      (FoundCycle-first ms search is (λ j e. h j (inr e)))

FoundCycle-result :
    (ms : List ModuleData) (i : Import) → Imports ms i.0 i.0 → FoundCycle ms (result i)
FoundCycle-result ms ([], l) h = tt
FoundCycle-result ms (c ∷ n, l) h = h

OnPath-cons :
    (ms : List ModuleData) (path : List Bytes) (a : Bytes) (m : ModuleData) (j : Import)
    → OnPath ms path a
    → find_module a ms ≡ some m
    → Elem j m.imports
    → OnPath ms (a ∷ path) j.0
unfolding contains
OnPath-cons ms path a m j p f e x h = elim (Bool-cases (bytes_eq a x)) [
  | inl q ↦ rw (← bytes_eq→eq a x q) (direct m j f e refl)
  | inr q ↦ through a (p x (rw q at h)) (direct m j f e refl)
]

in_module-FoundCycle :
    (ms : List ModuleData) (search : Import → Search) (o : Option ModuleData)
    → ((m : ModuleData) → o ≡ some m → (j : Import) → Elem j m.imports → FoundCycle ms (search j))
    → FoundCycle ms (in_module search o)
unfolding in_module
in_module-FoundCycle ms search none h = tt
in_module-FoundCycle ms search (some m) h = FoundCycle-first ms search m.imports (h m refl)

circular_rec-FoundCycle :
    (ms : List ModuleData) (fuel : ℕ) (i : Import) (path : List Bytes)
    → OnPath ms path i.0
    → FoundCycle ms (circular_rec fuel ms i path)
unfolding circular_rec
circular_rec-FoundCycle ms zero i path p = tt
circular_rec-FoundCycle ms (suc fuel) i path p = elim (Bool-cases (contains path i.0)) [
  | inl e ↦ rw (e, circular_rec) (FoundCycle-result ms i (p i.0 e))
  | inr e ↦
      rw (e, circular_rec)
        (in_module-FoundCycle ms (λ j. circular_rec fuel ms j (i.0 ∷ path)) (find_module i.0 ms)
          (λ m f j x.
            circular_rec-FoundCycle ms fuel j (i.0 ∷ path) (OnPath-cons ms path i.0 m j p f x)))
]

-- A module that findCircularDependency names does import itself, directly or through others.
pub find_circular_dependency-Imports :
    (ms : List ModuleData) (i : Import) (c : ℕ) (n : Bytes) (l : Location)
    → find_circular_dependency ms i ≡ result (c ∷ n, l)
    → Imports ms (c ∷ n) (c ∷ n)
unfolding find_circular_dependency
find_circular_dependency-Imports ms i c n l h =
    subst (FoundCycle ms) h
      (circular_rec-FoundCycle ms (suc (length ms)) i [] (λ a e. absurd (ground arith)))
