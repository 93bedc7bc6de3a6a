-- ===== src/Modules/Acyclic.antt =====
-- compiler/modules.cpp: each round of moduleSort makes progress where no module imports itself
-- through others.
use aike.Base.{
  ℕ, zero, suc, ◌+◌, ◌≤◌, ◌<◌, ◌≡◌, refl, ap, sym, ◌∙◌, subst, true, false, List, [], ◌∷◌, ◌++◌,
  some, Bytes, length, length-append, ne→==, arith, Bool-cases, inl, inr, ◌⊎◌, append-nil,
  append_assoc, Elem, Elem-append, Elem-of_append, bytes_eq_refl,
}
use aike.Modules.Graph.{Import, ModuleData, contains, all_visited, module_is_ready}
use aike.Modules.Sort.{Sorting, place, place_all, round}
use aike.Modules.Endless.{NoneReady, place-ready, place-waiting}

-- Every import is the name of a module of the program, and of a lower rank.
pub record IsAcyclic (rank : Bytes → ℕ) (ms : List ModuleData) : Type 0 where
  pub falls :
      (m : ModuleData)
      → Elem m ms
      → (i : Import) → Elem i m.imports
      → (k : ModuleData) × Elem k ms × (k.name ≡ i.0) × (rank k.name < rank m.name)

-- Each import of a module of `ps` has been put out or is lower in `ps`.
abbrev pub Fed : (Bytes → ℕ) → List Bytes → List ModuleData → Type 0
Fed rank v ps =
    (m : ModuleData)
    → Elem m ps
    → (i : Import) → Elem i m.imports
    → (contains v i.0 ≡ true)
      ⊎ ((k : ModuleData) × Elem k ps × (k.name ≡ i.0) × (rank k.name < rank m.name))

-- A module that is not ready has an import that has not been put out.
waits_for :
    (is : List Import) (v : List Bytes)
    → all_visited is v ≡ false
    → (i : Import) × Elem i is × (contains v i.0 ≡ false)
unfolding all_visited
waits_for [] v h = cc
waits_for (i ∷ is) v h = elim (Bool-cases (contains v i.0)) [
  | inl e ↦ let (j, m, f) = waits_for is v (rw e at h) in (j, inr m, f)
  | inr e ↦ (i, inl refl, e)
]

NoneReady-Elem :
    (ps : List ModuleData) (v : List Bytes) (m : ModuleData)
    → NoneReady ps v
    → Elem m ps
    → module_is_ready m v ≡ false
NoneReady-Elem [] v m r e = absurd e
NoneReady-Elem (p ∷ ps) v m r (inl e) = rw (← e) r.0
NoneReady-Elem (p ∷ ps) v m r (inr e) = NoneReady-Elem ps v m r.1 e

-- From a module that waits there is always a lower one that waits.
descend :
    (rank : Bytes → ℕ) (v : List Bytes) (ps : List ModuleData)
    → Fed rank v ps
    → NoneReady ps v
    → (r : ℕ) (m : ModuleData) → Elem m ps
    → rank m.name < r
    → ⊥
unfolding module_is_ready
descend rank v ps f n zero m e lt = omega arith
descend rank v ps f n (suc r) m e lt =
    let (i, x, w) = waits_for m.imports v (NoneReady-Elem ps v m n e) in
    elim (f m e i x) [
      | inl c ↦ cc
      | inr (k, y, same, below) ↦ descend rank v ps f n r k y (omega arith)
    ]

place_all-pending-le :
    (todo : List ModuleData) (s : Sorting)
    → length (place_all todo s).pending ≤ length s.pending + length todo
unfolding place_all
place_all-pending-le [] s = omega arith
place_all-pending-le (m ∷ todo) s = elim (Bool-cases (module_is_ready m s.visited)) [
  | inl e ↦ rw (place-ready m s e, place_all) (omega (arith, place_all-pending-le todo _))
  | inr e ↦
      rw (place-waiting m s e, place_all)
        (omega (
          arith,
          place_all-pending-le todo (record s { pending = s.pending ++ m ∷ [] }),
          length-append s.pending (m ∷ []),
        ))
]

-- A round finds no module ready, or it shortens the list.
place_all_progress :
    (todo : List ModuleData) (s : Sorting)
    → NoneReady todo s.visited
      ⊎ (length (place_all todo s).pending < length s.pending + length todo)
unfolding place_all
place_all_progress [] s = inl tt
place_all_progress (m ∷ todo) s = elim (Bool-cases (module_is_ready m s.visited)) [
  | inl e ↦ inr (
      rw (place-ready m s e, place_all)
        (omega (
          arith,
          place_all-pending-le todo
              (record s { indices = s.indices ++ m.index ∷ []; visited = m.name ∷ s.visited }),
        )))
  | inr e ↦ elim (place_all_progress todo (record s { pending = s.pending ++ m ∷ [] })) [
    | inl n ↦ inl (e, n)
    | inr lt ↦
        inr (
          rw (place-waiting m s e, place_all) (omega (arith, lt, length-append s.pending (m ∷ []))))
  ]
]

contains-cons : (n x : Bytes) (v : List Bytes) → contains v x ≡ true → contains (n ∷ v) x ≡ true
unfolding contains
contains-cons n x v h = ground arith

contains-head : (n x : Bytes) (v : List Bytes) → n ≡ x → contains (n ∷ v) x ≡ true
unfolding contains
contains-head n x v h = rw (h, bytes_eq_refl x)

Elem-skip : {A : Type 0} (a m : A) (xs ys : List A) → Elem a (xs ++ ys) → Elem a (xs ++ m ∷ ys)
Elem-skip a m xs ys h = elim (Elem-of_append a xs ys h) [
  | inl p ↦ Elem-append a xs (m ∷ ys) (inl p)
  | inr p ↦ Elem-append a xs (m ∷ ys) (inr (inr p))
]

Elem-middle :
    {A : Type 0} (a m : A) (xs ys : List A) → Elem a (xs ++ m ∷ ys) → (m ≡ a) ⊎ Elem a (xs ++ ys)
Elem-middle a m xs ys h = elim (Elem-of_append a xs (m ∷ ys) h) [
  | inl p ↦ inr (Elem-append a xs ys (inl p))
  | inr q ↦ elim q [ inl e ↦ inl e | inr p ↦ inr (Elem-append a xs ys (inr p)) ]
]

put_out-Fed :
    (rank : Bytes → ℕ) (m : ModuleData) (v : List Bytes) (ps todo : List ModuleData)
    → Fed rank v (ps ++ m ∷ todo)
    → Fed rank (m.name ∷ v) (ps ++ todo)
put_out-Fed rank m v ps todo f = λ k e i x. elim (f k (Elem-skip k m ps todo e) i x) [
  | inl c ↦ inl (contains-cons m.name i.0 v c)
  | inr (j, y, same, below) ↦ elim (Elem-middle j m ps todo y) [
    | inl q ↦ inl (contains-head m.name i.0 v (ap (λ t. t.name) q ∙ same))
    | inr q ↦ inr (j, q, same, below)
  ]
]

place-Fed :
    (rank : Bytes → ℕ) (m : ModuleData) (todo : List ModuleData) (s : Sorting)
    → Fed rank s.visited (s.pending ++ m ∷ todo)
    → Fed rank (place m s).visited ((place m s).pending ++ todo)
place-Fed rank m todo s f = elim (Bool-cases (module_is_ready m s.visited)) [
  | inl e ↦
      subst (λ t. Fed rank t.visited (t.pending ++ todo)) (sym (place-ready m s e))
        (put_out-Fed rank m s.visited s.pending todo f)
  | inr e ↦
      subst (λ t. Fed rank t.visited (t.pending ++ todo)) (sym (place-waiting m s e))
        (subst (Fed rank s.visited) (sym (append_assoc s.pending (m ∷ []) todo)) f)
]

pub place_all-Fed :
    (rank : Bytes → ℕ) (todo : List ModuleData) (s : Sorting)
    → Fed rank s.visited (s.pending ++ todo)
    → Fed rank (place_all todo s).visited (place_all todo s).pending
unfolding place_all
place_all-Fed rank [] s f = subst (Fed rank s.visited) (append-nil s.pending) f
place_all-Fed rank (m ∷ todo) s f = place_all-Fed rank todo (place m s) (place-Fed rank m todo s f)

pub place_all-errors : (todo : List ModuleData) (s : Sorting) → (place_all todo s).errors ≡ s.errors
unfolding place_all place
place_all-errors [] s = refl
place_all-errors (m ∷ todo) s = elim (Bool-cases (module_is_ready m s.visited)) [
  | inl e ↦ place_all-errors todo (place m s) ∙ ap (λ t. t.errors) (place-ready m s e)
  | inr e ↦ place_all-errors todo (place m s) ∙ ap (λ t. t.errors) (place-waiting m s e)
]

-- A round with something to do leaves fewer modules, and reports nothing.
pub round_progress :
    (rank : Bytes → ℕ) (ms : List ModuleData) (s : Sorting) (m : ModuleData)
    → Elem m s.pending
    → Fed rank s.visited s.pending
    → let next = place_all s.pending (record s { pending = [] }) in
      (round ms s ≡ some next) × (length next.pending < length s.pending)
unfolding round
round_progress rank ms s m e f = elim (place_all_progress s.pending (record s { pending = [] })) [
  | inl n ↦ absurd (descend rank s.visited s.pending f n (suc (rank m.name)) m e (omega arith))
  | inr lt ↦ (
    rw (
        ne→== (length (place_all s.pending (record s { pending = [] })).pending) (length s.pending)
          (omega arith)),
    omega arith,
  )
]
