-- ===== src/Modules/Endless.antt =====
-- compiler/modules.cpp: the `while` of moduleSort, where the cycle that it finds is broken already.
use aike.Base.{
  ℕ, zero, suc, ◌≡◌, refl, ap, sym, subst, Option, none, ◌∙◌, true, false, List, [], ◌∷◌, ◌++◌,
  some, Bytes, length, ==_refl, bytes_eq, bytes_eq→eq, Bool-cases, inl, inr, append-nil,
  append_assoc,
}
use aike.Types.Syntax.{Location}
use aike.Types.Content.{nowhere}
use aike.Modules.Graph.{
  Import, ModuleData, contains, result, find_circular_dependency, all_visited, module_is_ready,
}
use aike.Modules.Sort.{
  Sorting, place, place_all, running, break_cycle, break_first, round, sort_loop,
}

-- A name that is in the set already adds nothing to it.
contains-again :
    (n m : Bytes) (v : List Bytes) → contains v n ≡ true → contains (n ∷ v) m ≡ contains v m
unfolding contains
contains-again n m v h = elim (Bool-cases (bytes_eq n m)) [
  | inl e ↦ rw e (sym (rw (bytes_eq→eq n m e) at h))
  | inr e ↦ rw e
]

all_visited-again :
    (n : Bytes) (v : List Bytes)
    → contains v n ≡ true
    → (is : List Import) → all_visited is (n ∷ v) ≡ all_visited is v
unfolding all_visited
all_visited-again n v h [] = refl
all_visited-again n v h (i ∷ is) = rw (contains-again n i.0 v h, all_visited-again n v h is)

abbrev pub NoneReady : List ModuleData → List Bytes → Type 0
NoneReady [] v = Unit {0}
NoneReady (m ∷ ms) v = (module_is_ready m v ≡ false) × NoneReady ms v

NoneReady-again :
    (n : Bytes) (v : List Bytes)
    → contains v n ≡ true
    → (ms : List ModuleData) → NoneReady ms v
    → NoneReady ms (n ∷ v)
unfolding module_is_ready
NoneReady-again n v h [] r = tt
NoneReady-again n v h (m ∷ ms) r =
    (all_visited-again n v h m.imports ∙ r.0, NoneReady-again n v h ms r.1)

pub place-ready :
    (m : ModuleData) (s : Sorting)
    → module_is_ready m s.visited ≡ true
    → place m s ≡ record s { indices = s.indices ++ m.index ∷ []; visited = m.name ∷ s.visited }
unfolding place
place-ready m s h = rw h

pub place-waiting :
    (m : ModuleData) (s : Sorting)
    → module_is_ready m s.visited ≡ false
    → place m s ≡ record s { pending = s.pending ++ m ∷ [] }
unfolding place
place-waiting m s h = rw h

-- A round that finds no module ready keeps them all, in their order.
pub place_all-NoneReady :
    (ms : List ModuleData) (s : Sorting)
    → NoneReady ms s.visited
    → place_all ms s ≡ record s { pending = s.pending ++ ms }
unfolding place_all
place_all-NoneReady [] s r = λ i. record s { pending = sym (append-nil s.pending) i }
place_all-NoneReady (m ∷ ms) s r =
    ap (place_all ms) (place-waiting m s r.0)
    ∙ place_all-NoneReady ms (record s { pending = s.pending ++ m ∷ [] }) r.1
    ∙ (λ i. record s { pending = append_assoc s.pending (m ∷ []) ms i })

-- Some modules are pending, none of them is ready, and the search from the first one ends at a module
-- that has been let through before.
pub record IsStuck (ms : List ModuleData) (first : ModuleData) (rest : List ModuleData) (c : ℕ)
    (n : Bytes) (l : Location) (visited : List Bytes) : Type 0 where
  pub none_ready : NoneReady (first ∷ rest) visited
  pub cycle : find_circular_dependency ms (first.name, nowhere) ≡ result (c ∷ n, l)
  pub broken : contains visited (c ∷ n) ≡ true

module _ (ms : List ModuleData) (first : ModuleData) (rest : List ModuleData) (c : ℕ) (n : Bytes)
    (l : Location) where
  abbrev state : List ℕ → List Bytes → List Import → Sorting
  state is v es = record { indices = is; visited = v; pending = first ∷ rest; errors = es }

  stuck_round :
      (is : List ℕ) (v : List Bytes) (es : List Import)
      → IsStuck ms first rest c n l v
      → round ms (state is v es) ≡ some (state is ((c ∷ n) ∷ v) (es ++ (c ∷ n, l) ∷ []))
  unfolding round break_first break_cycle
  stuck_round is v es k = rw (
    place_all-NoneReady (first ∷ rest)
        (record { indices = is; visited = v; pending = []; errors = es }) k.none_ready,
    ==_refl (length (first ∷ rest)),
    k.cycle,
  )

  IsStuck-again :
      (v : List Bytes) → IsStuck ms first rest c n l v → IsStuck ms first rest c n l ((c ∷ n) ∷ v)
  IsStuck-again v k = record {
    none_ready = NoneReady-again (c ∷ n) v k.broken (first ∷ rest) k.none_ready;
    cycle = k.cycle;
    broken = contains-again (c ∷ n) (c ∷ n) v k.broken ∙ k.broken;
  }

  stuck_loop :
      (fuel : ℕ) (is : List ℕ) (v : List Bytes) (es : List Import)
      → IsStuck ms first rest c n l v
      → sort_loop fuel ms (state is v es) ≡ running
  unfolding sort_loop
  stuck_loop zero is v es k = refl
  stuck_loop (suc fuel) is v es k =
      rw (stuck_round is v es k, sort_loop) (stuck_loop fuel is _ _ (IsStuck-again v k))

abbrev then_rounds : Option Sorting → (Sorting → Option Sorting) → Option Sorting
then_rounds none f = none
then_rounds (some t) f = f t

-- The state after this many rounds of the loop.
unfoldable pub after_rounds : ℕ → List ModuleData → Sorting → Option Sorting
unfolding round
after_rounds zero ms s = some s
after_rounds (suc k) ms s = then_rounds (round ms s) (after_rounds k ms)

abbrev pub repeated : ℕ → Import → List Import
repeated zero i = []
repeated (suc k) i = i ∷ repeated k i

-- Nothing has happened but for the same report in each of the rounds.
abbrev pub OnlyReports : ℕ → Import → Sorting → Option Sorting → Type 0
OnlyReports k i s o =
    (t : Sorting) × (o ≡ some t)
    × (t.indices ≡ s.indices)
    × (t.pending ≡ s.pending)
    × (t.errors ≡ s.errors ++ repeated k i)

module _ (ms : List ModuleData) (first : ModuleData) (rest : List ModuleData) (c : ℕ) (n : Bytes)
    (l : Location) where
  stuck_rounds :
      (k : ℕ) (is : List ℕ) (v : List Bytes) (es : List Import)
      → IsStuck ms first rest c n l v
      → OnlyReports k
          (c ∷ n, l)
          (state ms first rest c n l is v es)
          (after_rounds k ms (state ms first rest c n l is v es))
  unfolding after_rounds
  stuck_rounds zero is v es k =
      (state ms first rest c n l is v es, refl, refl, refl, sym (append-nil es))
  stuck_rounds (suc j) is v es k =
      let (t, e, same, waiting, reports) =
        stuck_rounds j is ((c ∷ n) ∷ v) (es ++ (c ∷ n, l) ∷ [])
          (IsStuck-again ms first rest c n l v k) in
      (
        t,
        ap (λ o. then_rounds o (after_rounds j ms)) (stuck_round ms first rest c n l is v es k) ∙ e,
        same,
        waiting,
        reports ∙ append_assoc es ((c ∷ n, l) ∷ []) (repeated j (c ∷ n, l)),
      )

-- The loop of moduleSort does not end from a state in which no pending module is ready and the search
-- from the first one finds a cycle that was broken before, whatever the number of rounds: each round
-- reports that cycle again, puts out no module and leaves the same ones pending.
pub sort_loop-IsStuck :
    (ms : List ModuleData) (first : ModuleData) (rest : List ModuleData) (c : ℕ) (n : Bytes)
    (l : Location) (s : Sorting) (fuel : ℕ)
    → s.pending ≡ first ∷ rest
    → IsStuck ms first rest c n l s.visited
    → (sort_loop fuel ms s ≡ running) × OnlyReports fuel (c ∷ n, l) s (after_rounds fuel ms s)
sort_loop-IsStuck ms first rest c n l s fuel e k =
    subst
      (λ t.
        (sort_loop fuel ms t ≡ running) × OnlyReports fuel (c ∷ n, l) t (after_rounds fuel ms t))
      (λ i. record s { pending = sym e i })
      (
        stuck_loop ms first rest c n l fuel s.indices s.visited s.errors k,
        stuck_rounds ms first rest c n l fuel s.indices s.visited s.errors k,
      )
