-- ===== src/Types/Unify.antt =====
-- compiler/type.cpp: typeUnify, typeEquals and TypeConstraints::tryAdd.
use aike.Base.{
  ℕ, Bool, true, false, not, List, [], ◌∷◌, Option, none, some, ◌&&◌, ◌||◌, ◌==◌, if◌then◌else◌,
}
use aike.Types.Syntax.{
  Ty, Tys, unknown, void, bool, integer, float, string, tuple, array, pointer, function, inst,
  generic, cons, size, same_node, is_unknown,
}
use aike.Types.Traverse.{type_occurs}

-- The optional pointer test of Instance: both null, or the same address.
abbrev pub same_pointer : Option ℕ → Option ℕ → Bool
same_pointer none none = true
same_pointer (some a) (some b) = a == b
same_pointer _ _ = false

abbrev pub same_flag : Bool → Bool → Bool
same_flag true b = b
same_flag false b = not b

-- The answers of typeUnify: true, false, or a failed assertion.
pub data Answer : Type 0 where
  yes : Answer
  no : Answer
  aborts : Answer

-- `assert(i->def || i->generic)`
abbrev pub is_resolved : Option ℕ → Option ℕ → Bool
is_resolved none none = false
is_resolved _ _ = true

-- `if (!first) return false; rest`, over the constraints that the first call leaves.
abbrev pub and_then {ℓ} : {C : Type ℓ} → Answer × C → (C → Answer × C) → Answer × C
and_then (yes, c) rest = rest c
and_then (no, c) rest = (no, c)
and_then (aborts, c) rest = (aborts, c)

-- What typeUnify does at an Unknown node: nothing where the constraints are null.
abbrev pub Handler {ℓ} : Type ℓ → Type ℓ
Handler C = Option (Ty → Ty → C → Answer × C)

-- The two tests that stand above the comparison of kinds.
abbrev pub enter {ℓ} : {C : Type ℓ} → Handler C → Ty → Ty → C → Answer × C → Answer × C
enter none l r c rest = if same_node l r then (yes, c) else rest
enter (some add) l r c rest =
    if same_node l r then (yes, c) else if is_unknown l || is_unknown r then add l r c else rest

unfoldable mutual
  pub unify {ℓ} : {C : Type ℓ} → Handler C → Ty → Ty → C → Answer × C
  unify h (tuple ls) (tuple rs) c =
      enter h (tuple ls) (tuple rs) c (if size ls == size rs then unify_all h ls rs c else (no, c))
  unify h (array l) (array r) c = enter h (array l) (array r) c (unify h l r c)
  unify h (pointer l) (pointer r) c = enter h (pointer l) (pointer r) c (unify h l r c)
  unify h (function ls l v) (function rs r w) c = enter h (function ls l v) (function rs r w) c (
      if size ls == size rs && same_flag v w
      then and_then (unify_all h ls rs c) (λ c'. unify h l r c')
      else (no, c))
  unify h (inst n k ls d g) (inst m j rs e f) c = enter h (inst n k ls d g) (inst m j rs e f) c (
      if is_resolved d g && is_resolved e f
      then (if (same_pointer d e && same_pointer g f) && (size ls == size rs)
          then unify_all h ls rs c
          else (no, c))
      else (aborts, c))
  unify h (unknown i) (unknown j) c = enter h (unknown i) (unknown j) c (yes, c)
  unify h void void c = (yes, c)
  unify h bool bool c = (yes, c)
  unify h integer integer c = (yes, c)
  unify h float float c = (yes, c)
  unify h string string c = (yes, c)
  unify h (generic i n k) (generic j m l) c = (yes, c)
  unify h l r c = enter h l r c (no, c)

  pub unify_all {ℓ} : {C : Type ℓ} → Handler C → Tys → Tys → C → Answer × C
  unify_all h (cons l ls) (cons r rs) c = and_then (unify h l r c) (λ c'. unify_all h ls rs c')
  unify_all h _ _ c = (yes, c)

-- With `constraints` null there is no state.
unfoldable pub type_equals : Ty → Ty → Answer
unfolding unify
type_equals l r = (unify {C = Unit {0}} none l r tt).0

-- TypeConstraints: `data` maps the address of an Unknown node to a type.
pub record TypeConstraints : Type 0 where
  pub bindings : List (ℕ × Ty)
  pub rewrites : ℕ

abbrev pub find : ℕ → List (ℕ × Ty) → Option Ty
find i [] = none
find i ((j, t) ∷ m) = if j == i then some t else find i m

-- `data[lhs] = rhs`
abbrev pub assign : ℕ → Ty → List (ℕ × Ty) → List (ℕ × Ty)
assign i t [] = (i, t) ∷ []
assign i t ((j, s) ∷ m) = if j == i then (i, t) ∷ m else (j, s) ∷ assign i t m

unfoldable pub set_binding : ℕ → Ty → TypeConstraints → TypeConstraints
set_binding i t c = record c { bindings = assign i t c.bindings }

-- `ri->second != lhs` for the Unknown node `lhs` at address `i`.
abbrev pub is_node : ℕ → Ty → Bool
is_node i (unknown j) = i == j
is_node i _ = false

-- Both sides Unknown: `li` and `ri` are what is bound to them.
unfoldable pub add_unknowns :
    ℕ → ℕ → Option Ty → Option Ty → TypeConstraints → Answer × TypeConstraints
unfolding set_binding
add_unknowns i j none none c = (yes, set_binding i (unknown j) c)
add_unknowns i j none (some r) c = if is_node i r then (no, c) else (yes, set_binding i r c)
add_unknowns i j (some l) none c = if is_node j l then (no, c) else (yes, set_binding j l c)
add_unknowns i j (some l) (some r) c = (no, c)

-- One side Unknown, at address `i`, after the swap.
unfoldable pub add_type : ℕ → Ty → Option Ty → TypeConstraints → Answer × TypeConstraints
unfolding set_binding type_equals type_occurs
add_type i t (some l) c = (type_equals l t, c)
add_type i t none c = if type_occurs t (unknown i) then (no, c) else (yes, set_binding i t c)

-- The last clause is ruled out by the assertion that one side is Unknown.
unfoldable pub try_add : Ty → Ty → TypeConstraints → Answer × TypeConstraints
unfolding add_unknowns add_type
try_add (unknown i) (unknown j) c = add_unknowns i j (find i c.bindings) (find j c.bindings) c
try_add (unknown i) t c = add_type i t (find i c.bindings) c
try_add t (unknown i) c = add_type i t (find i c.bindings) c
try_add l r c = (no, c)

unfoldable pub type_unify : Ty → Ty → TypeConstraints → Answer × TypeConstraints
unfolding unify try_add
type_unify l r c = unify (some try_add) l r c
