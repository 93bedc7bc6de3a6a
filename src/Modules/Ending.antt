-- ===== src/Modules/Ending.antt =====
-- compiler/modules.cpp: moduleSort ends where no module imports itself through others.
use aike.Base.{
  ℕ, zero, suc, ◌<◌, ◌≡◌, refl, ap, ◌∙◌, List, [], ◌∷◌, Bytes, length, arith, Bool-cases, inl, inr,
  Elem,
}
use aike.Modules.Graph.{ModuleData}
use aike.Modules.Sort.{
  Sorting, name_lt, insert_by_name, sort_by_name, place_all, sorted, round, sort_loop, module_sort,
  go_on, while_pending,
}
use aike.Modules.Acyclic.{IsAcyclic, Fed, place_all-Fed, place_all-errors, round_progress}

-- The state that a round with something to do leaves.
abbrev next_state : Sorting → Sorting
next_state s = place_all s.pending (record s { pending = [] })

sort_loop-ends :
    (rank : Bytes → ℕ) (ms : List ModuleData) (fuel : ℕ) (ps : List ModuleData) (s : Sorting)
    → s.pending ≡ ps
    → length ps < fuel
    → Fed rank s.visited s.pending
    → s.errors ≡ []
    → (t : Sorting) × (sort_loop fuel ms s ≡ sorted t) × (t.errors ≡ [])
unfolding sort_loop
sort_loop-ends rank ms zero ps s p lt f e = absurd (omega arith)
sort_loop-ends rank ms (suc fuel) [] s p lt f e = (
  s,
  ap (λ qs. while_pending qs s (λ t. go_on (round ms t) (λ next. sort_loop fuel ms next))) p,
  e,
)
sort_loop-ends rank ms (suc fuel) (m ∷ ps) s p lt f e =
    let (again, fewer) = round_progress rank ms s m (rw p (inl refl)) f in
    let (t, h, clean) =
      sort_loop-ends rank ms fuel _ (next_state s) refl (omega (arith, ap length p))
        (place_all-Fed rank s.pending (record s { pending = [] }) f)
        (place_all-errors s.pending (record s { pending = [] }) ∙ e) in
    (
      t,
      ap (λ qs. while_pending qs s (λ t. go_on (round ms t) (λ next. sort_loop fuel ms next))) p
          ∙ ap (λ o. go_on o (λ next. sort_loop fuel ms next)) again
          ∙ h,
      clean,
    )

-- `ks` with `m` put in, behind `j`.
Elem-ahead :
    (k m j : ModuleData) (ks is : List ModuleData)
    → (Elem k (m ∷ ks) → Elem k is)
    → Elem k (m ∷ j ∷ ks)
    → Elem k (j ∷ is)
Elem-ahead k m j ks is h (inl q) = inr (h (inl q))
Elem-ahead k m j ks is h (inr (inl q)) = inl q
Elem-ahead k m j ks is h (inr (inr q)) = inr (h (inr q))

Elem-behind :
    (k m j : ModuleData) (ks is : List ModuleData)
    → (Elem k is → Elem k (m ∷ ks))
    → Elem k (j ∷ is)
    → Elem k (m ∷ j ∷ ks)
Elem-behind k m j ks is h (inl q) = inr (inl q)
Elem-behind k m j ks is h (inr q) = elim (h q) [ inl p ↦ inl p | inr p ↦ inr (inr p) ]

Elem-insert_by_name :
    (k m : ModuleData) (ks : List ModuleData) → Elem k (m ∷ ks) → Elem k (insert_by_name m ks)
unfolding insert_by_name
Elem-insert_by_name k m [] e = e
Elem-insert_by_name k m (j ∷ ks) e = elim (Bool-cases (name_lt j.name m.name)) [
  | inl lt ↦ rw lt (Elem-ahead k m j ks _ (Elem-insert_by_name k m ks) e)
  | inr ge ↦ rw ge e
]

Elem-of_insert_by_name :
    (k m : ModuleData) (ks : List ModuleData) → Elem k (insert_by_name m ks) → Elem k (m ∷ ks)
unfolding insert_by_name
Elem-of_insert_by_name k m [] e = e
Elem-of_insert_by_name k m (j ∷ ks) e = elim (Bool-cases (name_lt j.name m.name)) [
  | inl lt ↦ Elem-behind k m j ks _ (Elem-of_insert_by_name k m ks) (rw lt at e)
  | inr ge ↦ rw ge at e
]

Elem-sort_by_name : (k : ModuleData) (ms : List ModuleData) → Elem k ms → Elem k (sort_by_name ms)
unfolding sort_by_name
Elem-sort_by_name k [] e = e
Elem-sort_by_name k (m ∷ ms) (inl e) = Elem-insert_by_name k m (sort_by_name ms) (inl e)
Elem-sort_by_name k (m ∷ ms) (inr e) =
    Elem-insert_by_name k m (sort_by_name ms) (inr (Elem-sort_by_name k ms e))

Elem-of_sort_by_name :
    (k : ModuleData) (ms : List ModuleData) → Elem k (sort_by_name ms) → Elem k ms
unfolding sort_by_name
Elem-of_sort_by_name k [] e = e
Elem-of_sort_by_name k (m ∷ ms) e = elim (Elem-of_insert_by_name k m (sort_by_name ms) e) [
  | inl q ↦ inl q
  | inr q ↦ inr (Elem-of_sort_by_name k ms q)
]

length-insert_by_name :
    (m : ModuleData) (ks : List ModuleData) → length (insert_by_name m ks) ≡ suc (length ks)
unfolding insert_by_name
length-insert_by_name m [] = refl
length-insert_by_name m (j ∷ ks) = ground (arith, length-insert_by_name m ks)

length-sort_by_name : (ms : List ModuleData) → length (sort_by_name ms) ≡ length ms
unfolding sort_by_name
length-sort_by_name [] = refl
length-sort_by_name (m ∷ ms) =
    omega (arith, length-insert_by_name m (sort_by_name ms), length-sort_by_name ms)

-- Where every import names a module of the program and the modules can be ranked so that imports go
-- down, moduleSort ends after at most one round more than there are modules, and reports no circular
-- import.
pub module_sort-ends :
    (rank : Bytes → ℕ) (ms : List ModuleData) (fuel : ℕ)
    → IsAcyclic rank ms
    → length ms < fuel
    → (t : Sorting) × (module_sort fuel ms ≡ sorted t) × (t.errors ≡ [])
unfolding module_sort
module_sort-ends rank ms fuel a lt =
    sort_loop-ends rank ms fuel (sort_by_name ms) _ refl (omega (arith, length-sort_by_name ms))
      (λ m e i x.
        let (k, y, same, below) = a.falls m (Elem-of_sort_by_name m ms e) i x in
        inr (k, Elem-sort_by_name k ms y, same, below))
      refl
