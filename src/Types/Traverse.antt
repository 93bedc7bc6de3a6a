-- ===== src/Types/Traverse.antt =====
-- compiler/type.cpp: the functions that read or rebuild one type, typeOccurs, typeKnown,
-- typeInstantiate and typeMember; and visitType of compiler/visit.cpp.
use aike.Base.{
  ℕ, zero, suc, Bool, true, false, List, [], ◌∷◌, ◌++◌, Option, none, some, ◌&&◌, ◌||◌, ◌==◌,
  if◌then◌else◌, get_elem?,
}
use aike.Types.Syntax.{
  Ty, Tys, unknown, tuple, array, pointer, function, inst, generic, nil, cons, StructField, TyDef,
  size, same_node,
}

unfoldable mutual
  pub type_occurs : Ty → Ty → Bool
  type_occurs (tuple ts) r = same_node (tuple ts) r || occurs_any ts r
  type_occurs (array t) r = same_node (array t) r || type_occurs t r
  type_occurs (pointer t) r = same_node (pointer t) r || type_occurs t r
  type_occurs (function args ret v) r =
      same_node (function args ret v) r || (occurs_any args r || type_occurs ret r)
  type_occurs (inst n l args d g) r = same_node (inst n l args d g) r || occurs_any args r
  type_occurs t r = same_node t r

  pub occurs_any : Tys → Ty → Bool
  occurs_any nil r = false
  occurs_any (cons t ts) r = type_occurs t r || occurs_any ts r

unfoldable mutual
  pub type_known : Ty → Bool
  type_known (unknown _) = false
  type_known (tuple ts) = all_known ts
  type_known (array t) = type_known t
  type_known (pointer t) = type_known t
  type_known (function args ret _) = all_known args && type_known ret
  type_known (inst _ _ args _ _) = all_known args
  type_known _ = true

  pub all_known : Tys → Bool
  all_known nil = true
  all_known (cons t ts) = type_known t && all_known ts

abbrev pub is_generic : ℕ → Ty → Bool
is_generic g (generic h _ _) = g == h
is_generic g _ = false

-- `if (Ty* i = inst(t->generic)) { assert(i != t->generic); return i; } return type;`
abbrev pub answer_or : Option Ty → ℕ → Ty → Option Ty
answer_or (some t) g u = if is_generic g t then none else some t
answer_or none g u = some u

infixl 1 ◌>>=◌
abbrev pub ◌>>=◌ {ℓ κ} : {A : Type ℓ} {B : Type κ} → Option A → (A → Option B) → Option B
none >>= f = none
some a >>= f = f a

-- The callback `inst`, which answers for the address of a Generic node or gives null. `none` is the
-- failed assertion.
unfoldable mutual
  pub type_instantiate : (ℕ → Option Ty) → Ty → Option Ty
  type_instantiate f (tuple ts) = do us ← instantiate_all f ts; some (tuple us)
  type_instantiate f (array t) = do u ← type_instantiate f t; some (array u)
  type_instantiate f (pointer t) = do u ← type_instantiate f t; some (pointer u)
  type_instantiate f (function args ret v) = do
    us ← instantiate_all f args
    u ← type_instantiate f ret
    some (function us u v)
  type_instantiate f (inst n l args d (some g)) = answer_or (f g) g (inst n l args d (some g))
  type_instantiate f (inst n l args d none) = do
    us ← instantiate_all f args
    some (inst n l us d none)
  type_instantiate f t = some t

  pub instantiate_all : (ℕ → Option Ty) → Tys → Option Tys
  instantiate_all f nil = some nil
  instantiate_all f (cons t ts) = do
    u ← type_instantiate f t
    us ← instantiate_all f ts
    some (cons u us)

abbrev pub nth : Tys → ℕ → Option Ty
nth nil i = none
nth (cons t ts) zero = some t
nth (cons t ts) (suc i) = nth ts i

-- The loop `for (i = 0; i < def->tyargs.size; ++i) if (ty == def->tyargs[i]) return inst->tyargs[i]`.
-- Past the end of the arguments the source's assertion has already failed.
unfoldable pub argument_for : List ℕ → Tys → ℕ → Option Ty
argument_for (g ∷ gs) (cons t ts) ty = if ty == g then some t else argument_for gs ts ty
argument_for _ _ _ = none

-- The outcomes of typeMember: a type, or a failed assertion, or an internal compiler error.
pub data Member : Type 0 where
  found : Ty → Member
  assertion : Member
  ice : Member

abbrev pub found_or : Option Ty → Member
found_or (some t) = found t
found_or none = assertion

abbrev pub arity : List ℕ → ℕ
arity [] = 0
arity (_ ∷ gs) = suc (arity gs)

-- The field at the index, with the arguments in place of the parameters.
unfoldable pub member_of_field : TyDef → Tys → Option StructField → Member
unfolding argument_for type_instantiate
member_of_field def args none = assertion
member_of_field def args (some f) =
    if arity def.tyargs == size args
    then found_or (type_instantiate (argument_for def.tyargs args) f.type)
    else assertion

unfoldable pub member_of_def : Option TyDef → Tys → ℕ → Member
unfolding member_of_field
member_of_def (some def) args index = member_of_field def args (get_elem? def.fields index)
member_of_def none args index = assertion

-- `defs` is the memory that holds the definitions. A null or dangling `def` is read as a failure.
unfoldable pub type_member : (ℕ → Option TyDef) → Ty → ℕ → Member
unfolding member_of_def
type_member defs (tuple ts) index = found_or (nth ts index)
type_member defs (inst _ _ args (some d) _) index = member_of_def (defs d) args index
type_member defs (inst _ _ args none _) index = assertion
type_member defs _ index = ice

-- visitType: the nodes handed to the callback, in order.
unfoldable mutual
  pub visit_type : Ty → List Ty
  visit_type (tuple ts) = tuple ts ∷ visit_types ts
  visit_type (array t) = array t ∷ visit_type t
  visit_type (pointer t) = pointer t ∷ visit_type t
  visit_type (function args ret v) = function args ret v ∷ (visit_types args ++ visit_type ret)
  visit_type (inst n l args d g) = inst n l args d g ∷ visit_types args
  visit_type t = t ∷ []

  pub visit_types : Tys → List Ty
  visit_types nil = []
  visit_types (cons t ts) = visit_type t ++ visit_types ts
