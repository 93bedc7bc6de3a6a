-- ===== src/Types/Reading.antt =====
-- compiler/type.cpp and compiler/visit.cpp: how typeOccurs, typeKnown and visitType agree.
use aike.Base.{
  ℕ, ◌≡◌, refl, ◌↔◌, Bool, true, false, ==→eq, ==_refl, ◌||◌, ||→one, &&→both, Bool-cases, inl, inr,
  Elem, Elem-append, Elem-of_append,
}
use aike.Types.Syntax.{
  Ty, Tys, unknown, void, bool, integer, float, string, tuple, array, pointer, function, inst,
  generic, nil, cons,
}
use aike.Types.Traverse.{type_occurs, occurs_any, type_known, all_known, visit_type, visit_types}

or_right : (a : Bool) {b : Bool} → b ≡ true → (a || b) ≡ true
or_right true h = refl
or_right false h = h

module _ (i : ℕ) where
  mutual
    unfolding type_occurs visit_type

    visited : (t : Ty) → type_occurs t (unknown i) ≡ true → Elem (unknown i) (visit_type t)
    visited (unknown j) h = inl (cc (==→eq j i h))
    visited (tuple ts) h = inr (visited_any ts h)
    visited (array t) h = inr (visited t h)
    visited (pointer t) h = inr (visited t h)
    visited (function ts t f) h = inr (
        Elem-append (unknown i) (visit_types ts) (visit_type t)
          (elim (||→one (occurs_any ts (unknown i)) (type_occurs t (unknown i)) h) [
            | inl p ↦ inl (visited_any ts p)
            | inr p ↦ inr (visited t p)
          ]))
    visited (inst n l ts d g) h = inr (visited_any ts h)
    visited t h = cc

    visited_any : (ts : Tys) → occurs_any ts (unknown i) ≡ true → Elem (unknown i) (visit_types ts)
    visited_any nil h = cc
    visited_any (cons t ts) h =
        Elem-append (unknown i) (visit_type t) (visit_types ts)
          (elim (||→one (type_occurs t (unknown i)) (occurs_any ts (unknown i)) h) [
            | inl p ↦ inl (visited t p)
            | inr p ↦ inr (visited_any ts p)
          ])

  mutual
    unfolding type_occurs visit_type

    occurs : (t : Ty) → Elem (unknown i) (visit_type t) → type_occurs t (unknown i) ≡ true
    occurs (unknown j) (inl e) = let e' : i ≡ j = cc in rw e' (==_refl j)
    occurs (unknown j) (inr m) = absurd m
    occurs (tuple ts) (inl e) = cc
    occurs (tuple ts) (inr m) = occurs_in ts m
    occurs (array t) (inl e) = cc
    occurs (array t) (inr m) = occurs t m
    occurs (pointer t) (inl e) = cc
    occurs (pointer t) (inr m) = occurs t m
    occurs (function ts t f) (inl e) = cc
    occurs (function ts t f) (inr m) =
        elim (Elem-of_append (unknown i) (visit_types ts) (visit_type t) m) [
          | inl p ↦ rw (occurs_in ts p)
          | inr p ↦ or_right (occurs_any ts (unknown i)) (occurs t p)
        ]
    occurs (inst n l ts d g) (inl e) = cc
    occurs (inst n l ts d g) (inr m) = occurs_in ts m
    occurs void (inl e) = cc
    occurs void (inr m) = absurd m
    occurs bool (inl e) = cc
    occurs bool (inr m) = absurd m
    occurs integer (inl e) = cc
    occurs integer (inr m) = absurd m
    occurs float (inl e) = cc
    occurs float (inr m) = absurd m
    occurs string (inl e) = cc
    occurs string (inr m) = absurd m
    occurs (generic j n l) (inl e) = cc
    occurs (generic j n l) (inr m) = absurd m

    occurs_in : (ts : Tys) → Elem (unknown i) (visit_types ts) → occurs_any ts (unknown i) ≡ true
    occurs_in nil m = absurd m
    occurs_in (cons t ts) m = elim (Elem-of_append (unknown i) (visit_type t) (visit_types ts) m) [
      | inl p ↦ rw (occurs t p)
      | inr p ↦ or_right (type_occurs t (unknown i)) (occurs_in ts p)
    ]

-- typeOccurs finds an Unknown node in a type exactly when visitType hands it to its callback.
pub type_occurs-visit_type :
    (t : Ty) (i : ℕ) → (type_occurs t (unknown i) ≡ true) ↔ Elem (unknown i) (visit_type t)
type_occurs-visit_type t i = (visited i t, occurs i t)

mutual
  unfolding type_occurs type_known

  known-occurs : (t : Ty) (i : ℕ) → type_known t ≡ true → type_occurs t (unknown i) ≡ false
  known-occurs (unknown j) i h = cc
  known-occurs (tuple ts) i h = all_known-occurs ts i h
  known-occurs (array t) i h = known-occurs t i h
  known-occurs (pointer t) i h = known-occurs t i h
  known-occurs (function ts t f) i h =
      let b = &&→both (all_known ts) (type_known t) h in
      rw (all_known-occurs ts i b.0) (known-occurs t i b.1)
  known-occurs (inst n l ts d g) i h = all_known-occurs ts i h
  known-occurs t i h = refl

  all_known-occurs : (ts : Tys) (i : ℕ) → all_known ts ≡ true → occurs_any ts (unknown i) ≡ false
  all_known-occurs nil i h = refl
  all_known-occurs (cons t ts) i h =
      let b = &&→both (type_known t) (all_known ts) h in
      rw (known-occurs t i b.0) (all_known-occurs ts i b.1)

-- A type that is not known holds an Unknown node, which the search finds.
mutual
  unfolding type_occurs type_known

  unknown-occurs : (t : Ty) → type_known t ≡ false → (i : ℕ) × (type_occurs t (unknown i) ≡ true)
  unknown-occurs (unknown j) h = (j, ==_refl j)
  unknown-occurs (tuple ts) h = unknown-occurs_any ts h
  unknown-occurs (array t) h = unknown-occurs t h
  unknown-occurs (pointer t) h = unknown-occurs t h
  unknown-occurs (function ts t f) h = elim (Bool-cases (all_known ts)) [
    | inl e ↦
        let (i, p) = unknown-occurs t (rw e at h) in (i, or_right (occurs_any ts (unknown i)) p)
    | inr e ↦ let (i, p) = unknown-occurs_any ts e in (i, rw p)
  ]
  unknown-occurs (inst n l ts d g) h = unknown-occurs_any ts h
  unknown-occurs t h = cc

  unknown-occurs_any :
      (ts : Tys) → all_known ts ≡ false → (i : ℕ) × (occurs_any ts (unknown i) ≡ true)
  unknown-occurs_any nil h = cc
  unknown-occurs_any (cons t ts) h = elim (Bool-cases (type_known t)) [
    | inl e ↦
        let (i, p) = unknown-occurs_any ts (rw e at h) in
        (i, or_right (type_occurs t (unknown i)) p)
    | inr e ↦ let (i, p) = unknown-occurs t e in (i, rw p)
  ]

-- typeKnown holds of a type exactly when typeOccurs finds no Unknown node in it.
pub type_known_iff :
    (t : Ty) → (type_known t ≡ true) ↔ ((i : ℕ) → type_occurs t (unknown i) ≡ false)
type_known_iff t = (λ h i. known-occurs t i h, back)
  where
    back : ((i : ℕ) → type_occurs t (unknown i) ≡ false) → type_known t ≡ true
    back h = elim (Bool-cases (type_known t)) [
      | inl e ↦ e
      | inr e ↦ let (i, p) = unknown-occurs t e in cc (h i)
    ]
