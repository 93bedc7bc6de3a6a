-- ===== src/Modules/Depth.antt =====
-- compiler/modules.cpp: the recursion of findCircularDependency ends.
use aike.Base.{
  ℕ, zero, suc, ◌+◌, ◌≤◌, ◌<◌, ◌≡◌, ◌≢◌, refl, true, false, List, [], ◌∷◌, Option, none, some,
  Bytes, if◌then◌else◌, length, arith, bytes_eq, bytes_eq→eq, bytes_eq_refl, Bool-cases, inl, inr,
}
use aike.Modules.Graph.{
  Import, ModuleData, contains, find_module, Search, result, assertion, out_of_fuel, or_next,
  first_cycle, in_module, circular_rec, find_circular_dependency,
}

-- How many modules are not on the path: each call of the search that goes on has fewer.
pub off_path : List Bytes → List ModuleData → ℕ
off_path path [] = 0
off_path path (m ∷ ms) = (if contains path m.name then 0 else 1) + off_path path ms

off_path-le : (path : List Bytes) (ms : List ModuleData) → off_path path ms ≤ length ms
unfolding off_path
off_path-le path [] = omega arith
off_path-le path (m ∷ ms) = ground (arith, off_path-le path ms)

off_path_mono :
    (n : Bytes) (path : List Bytes) (ms : List ModuleData)
    → off_path (n ∷ path) ms ≤ off_path path ms
unfolding off_path contains
off_path_mono n path [] = omega arith
off_path_mono n path (m ∷ ms) = ground (arith, off_path_mono n path ms)

-- Going into a module of the program that is not on the path leaves fewer.
off_path_lt :
    (n : Bytes) (path : List Bytes) (ms : List ModuleData) (k : ModuleData)
    → contains path n ≡ false
    → find_module n ms ≡ some k
    → off_path (n ∷ path) ms < off_path path ms
unfolding off_path contains find_module
off_path_lt n path [] k h f = cc
off_path_lt n path (m ∷ ms) k h f = elim (Bool-cases (bytes_eq m.name n)) [
  | inl e ↦
      let here : contains path m.name ≡ false = rw (bytes_eq→eq m.name n e) h in
      let same : bytes_eq n m.name ≡ true = rw (bytes_eq→eq m.name n e) (bytes_eq_refl n) in
      rw (here, same) (omega (arith, off_path_mono n path ms))
  | inr e ↦ ground (arith, off_path_lt n path ms k h (rw e at f), off_path_mono n path ms)
]

or_next-ends : (r s : Search) → r ≢ out_of_fuel → s ≢ out_of_fuel → or_next r s ≢ out_of_fuel
unfolding or_next
or_next-ends (result ([], _)) s p q = q
or_next-ends (result (c ∷ n, _)) s p q = cc
or_next-ends assertion s p q = cc
or_next-ends out_of_fuel s p q = p

first_cycle-ends :
    (search : Import → Search) (is : List Import)
    → ((i : Import) → search i ≢ out_of_fuel)
    → first_cycle search is ≢ out_of_fuel
unfolding first_cycle
first_cycle-ends search [] h = cc
first_cycle-ends search (i ∷ is) h =
    or_next-ends (search i) (first_cycle search is) (h i) (first_cycle-ends search is h)

in_module-ends :
    (search : Import → Search) (o : Option ModuleData)
    → ((m : ModuleData) → o ≡ some m → (i : Import) → search i ≢ out_of_fuel)
    → in_module search o ≢ out_of_fuel
unfolding in_module
in_module-ends search none h = cc
in_module-ends search (some m) h = first_cycle-ends search m.imports (h m refl)

circular_rec-ends :
    (ms : List ModuleData) (fuel : ℕ) (i : Import) (path : List Bytes)
    → off_path path ms < fuel
    → circular_rec fuel ms i path ≢ out_of_fuel
unfolding circular_rec
circular_rec-ends ms zero i path lt = absurd (omega arith)
circular_rec-ends ms (suc fuel) i path lt = elim (Bool-cases (contains path i.0)) [
  | inl e ↦ rw (e, circular_rec) (cc)
  | inr e ↦
      rw (e, circular_rec)
        (in_module-ends (λ j. circular_rec fuel ms j (i.0 ∷ path)) (find_module i.0 ms)
          (λ m f j.
            circular_rec-ends ms fuel j (i.0 ∷ path)
              (omega (arith, off_path_lt i.0 path ms m e f))))
]

-- The fuel that findCircularDependency is given always suffices: the names on its path are those of
-- different modules, so it goes no deeper than there are modules.
pub find_circular_dependency-ends :
    (ms : List ModuleData) (i : Import) → find_circular_dependency ms i ≢ out_of_fuel
unfolding find_circular_dependency
find_circular_dependency-ends ms i =
    circular_rec-ends ms (suc (length ms)) i [] (omega (arith, off_path-le [] ms))
