-- ===== src/Tests/Typing.antt =====
-- compiler/type.cpp at small types and constraints.
use aike.Base.{
  ℕ, ◌≡◌, ◌↔◌, ◌≤◌, refl, true, false, [], ◌∷◌, Option, none, some, arith, inl, inr, Elem, ◌==◌, ap,
  subst, some→eq, Bool-cases, if◌then◌else◌,
}
use aike.Types.Content.{nowhere, content}
use aike.Types.Syntax.{Ty, TyDef, unknown, integer, float, array, inst, nil, cons}
use aike.Types.Traverse.{type_occurs, type_known, type_member, found, visit_type}
use aike.Types.Unify.{yes, no, TypeConstraints, find, type_unify, type_equals}
use aike.Types.Rewrite.{rewrite}
use aike.Types.Equality.{plain, IsResolved, type_equals_iff}
use aike.Types.Growth.{type_unify-keeps}
use aike.Types.Solutions.{Solves, type_unify-Solves}
use aike.Types.Soundness.{IsFlat, type_unify_sound}
use aike.Types.Termination.{Below, IsRanked, rewrite_total}
use aike.Types.Meaning.{rewrite-content}
use aike.Types.Cycles.{unify_cycle-rewrite, type_unify-again}
use aike.Types.Reading.{type_known_iff, type_occurs-visit_type}

abbrev no_bindings : TypeConstraints
no_bindings = record { bindings = []; rewrites = 0 }

-- `[?1]` and `[int]`
abbrev open_array : Ty
open_array = array (unknown 1)

abbrev int_array : Ty
int_array = array integer

abbrev bound : TypeConstraints
bound = record { bindings = (1, integer) ∷ []; rewrites = 0 }

unify_run : type_unify open_array int_array no_bindings ≡ (yes, bound)
unfolding type_unify
unify_run = refl

-- Every node is an integer.
abbrev all_integer : ℕ → Ty
all_integer _ = integer

only_one : (i : ℕ) (t : Ty) → find i bound.bindings ≡ some t → integer ≡ t
only_one i t h = elim (Bool-cases (1 == i)) [ inl e ↦ some→eq (rw e at h) | inr e ↦ cc (rw e at h) ]

Solves-empty : Solves all_integer no_bindings
Solves-empty = record { agrees = λ i t h. cc }

Solves-bound : Solves all_integer bound
unfolding content
Solves-bound = record { agrees = λ i t h. ap (content all_integer) (only_one i t h) }

IsFlat-bound : IsFlat bound
unfolding type_known
IsFlat-bound = record {
  flat = λ i t h. inl (subst (λ u. type_known u ≡ true) (only_one i t h) refl);
}

type_unify_sound_example : content all_integer open_array ≡ content all_integer int_array
unfolding type_unify
type_unify_sound_example =
    type_unify_sound all_integer open_array int_array no_bindings refl IsFlat-bound Solves-bound

type_unify-Solves_example : Solves all_integer (type_unify open_array int_array no_bindings).1
unfolding content
type_unify-Solves_example =
    type_unify-Solves all_integer open_array int_array no_bindings refl Solves-empty

IsRanked-bound : IsRanked (λ i. i) bound.bindings
unfolding Below
IsRanked-bound = record { falls = λ i t h u. subst (λ s. Below (λ i. i) i s) (only_one i t h) tt }

rewrite_total_example :
    (n : ℕ) × ((fuel : ℕ)
      → n ≤ fuel
      → (p : Ty × TypeConstraints) × (rewrite fuel open_array bound ≡ some p))
unfolding Below
rewrite_total_example = rewrite_total (λ i. i) bound open_array 2 IsRanked-bound (omega arith)

abbrev counted : TypeConstraints
counted = record { bindings = (1, integer) ∷ []; rewrites = 1 }

rewrite_run : rewrite 3 open_array bound ≡ some (int_array, counted)
unfolding rewrite
rewrite_run = refl

rewrite-content_example :
    (content all_integer int_array ≡ content all_integer open_array)
    × (counted.bindings ≡ bound.bindings)
    × (bound.rewrites ≤ counted.rewrites)
rewrite-content_example =
    rewrite-content all_integer bound counted 3 open_array int_array Solves-bound rewrite_run

-- Node 2 is bound to `[?1]`.
abbrev before_cycle : TypeConstraints
before_cycle = record { bindings = (2, open_array) ∷ []; rewrites = 0 }

unify_cycle-rewrite_example :
    ((type_unify (unknown 1) (unknown 2) before_cycle).0 ≡ yes)
    × ((fuel : ℕ)
        → rewrite fuel (unknown 1) (type_unify (unknown 1) (unknown 2) before_cycle).1 ≡ none)
unfolding type_occurs
unify_cycle-rewrite_example =
    unify_cycle-rewrite 1 2 open_array before_cycle (omega arith) refl refl refl refl

type_unify-again_example :
    ((type_unify (unknown 1) (unknown 2) no_bindings).0 ≡ yes)
    × (type_unify (unknown 1) (unknown 2) (type_unify (unknown 1) (unknown 2) no_bindings).1
        ≡ (no, (type_unify (unknown 1) (unknown 2) no_bindings).1))
type_unify-again_example = type_unify-again 1 2 no_bindings (omega arith) refl refl

type_equals_iff_example :
    (type_equals open_array int_array ≡ yes) ↔ (content plain open_array ≡ content plain int_array)
unfolding IsResolved
type_equals_iff_example = type_equals_iff open_array int_array tt tt

type_unify-keeps_example :
    find 1 (type_unify (array float) open_array bound).1.bindings ≡ some integer
type_unify-keeps_example = type_unify-keeps (array float) open_array bound 1 integer refl

type_known_iff_example :
    (type_known open_array ≡ true) ↔ ((i : ℕ) → type_occurs open_array (unknown i) ≡ false)
type_known_iff_example = type_known_iff open_array

type_occurs-visit_type_example :
    (type_occurs open_array (unknown 1) ≡ true) ↔ Elem (unknown 1) (visit_type open_array)
type_occurs-visit_type_example = type_occurs-visit_type open_array 1

-- struct list(T) { next: list(T), item: T }, with `T` at address 7 and the definition at 5.
abbrev list_def : TyDef
list_def = record {
  tyargs = 7 ∷ [];
  fields =
      record {
        name = b'i' ∷ [];
        location = nowhere;
        type = inst (b'T' ∷ []) nowhere nil none (some 7);
        expr = none;
      }
      ∷ [];
}

abbrev list_defs : ℕ → Option TyDef
list_defs d = if d == 5 then some list_def else none

abbrev int_list : Ty
int_list = inst (b'l' ∷ []) nowhere (cons integer nil) (some 5) none

item_run : type_member list_defs int_list 0 ≡ found integer
unfolding type_member
item_run = refl
