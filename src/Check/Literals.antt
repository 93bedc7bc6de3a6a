-- ===== src/Check/Literals.antt =====
-- compiler/typecheck.cpp: the types of literals and what validateLiteralStruct asks of a struct.
use aike.Base.{
  ℕ, suc, Bool, false, not, ◌&&◌, ◌||◌, List, [], ◌∷◌, Option, none, some, if◌then◌else◌, ◌==◌,
}
use aike.Types.Syntax.{Ty, Tys, TyDef, StructField, Location, tuple, array, inst, nil, cons}
use aike.Tree.Ast.{Asts, Common, FieldInits, FieldRef, no_inits, init}
use aike.Check.State.{
  Check, ◌>>=◌, ◌>>◌, pure, stop, failed_assertion, null_pointer, error, fresh, report_if, is_null,
  already_initialized, not_initialized, not_a_struct,
}

abbrev pub with_type : Ty → Common → Common
with_type t c = record c { type = some t }

-- `if (!n->type) n->type = t;`
abbrev pub type_or : Option Ty → Ty → Ty
type_or none t = t
type_or (some u) t = u

abbrev pub default_type : Ty → Common → Common
default_type t c = with_type (type_or c.type t) c

-- `if (!n->type) n->type = UNION_NEW(Ty, Unknown, {});`
abbrev pub own_or_fresh : Option Ty → Check Ty
own_or_fresh none = fresh
own_or_fresh (some t) = pure t

abbrev pub count : Asts → ℕ
count Asts.nil = 0
count (Asts.cons _ as_) = suc (count as_)

-- One Unknown node for each field.
unfoldable pub fresh_for : Asts → Check Tys
unfolding fresh
fresh_for Asts.nil = pure nil
fresh_for (Asts.cons _ as_) = do t ← fresh; ts ← fresh_for as_; pure (cons t ts)

unfoldable pub tuple_type : Option Ty → Asts → Check Ty
unfolding fresh_for
tuple_type none as_ = do ts ← fresh_for as_; pure (tuple ts)
tuple_type (some t) as_ = pure t

-- `UNION_CASE(Tuple, tt, n->type); assert(tt);`
abbrev pub fields_of_tuple : Ty → Check Tys
fields_of_tuple (tuple ts) = pure ts
fields_of_tuple _ = stop failed_assertion

unfoldable pub array_type : Option Ty → Check Ty
unfolding fresh
array_type none = do t ← fresh; pure (array t)
array_type (some t) = pure t

abbrev pub element_of_array : Ty → Check Ty
element_of_array (array t) = pure t
element_of_array _ = stop failed_assertion

-- validateLiteralStruct. The fields that are marked are a list of their indices.
abbrev pub is_marked : List ℕ → ℕ → Bool
is_marked [] i = false
is_marked (j ∷ js) i = i == j || is_marked js i

unfoldable pub mark_field : List ℕ → FieldRef → Option ℕ → Check (List ℕ)
unfolding error
mark_field marked f none = stop failed_assertion
mark_field marked f (some i) =
    if is_marked marked i
    then (do error (already_initialized f.name) f.location; pure marked)
    else pure (i ∷ marked)

unfoldable pub mark_inits : FieldInits → List ℕ → Check (List ℕ)
unfolding mark_field
mark_inits no_inits marked = pure marked
mark_inits (init f _ fs) marked = do m ← mark_field marked f f.index; mark_inits fs m

-- The fields from index `i` on that are not marked and have no initializer of their own.
unfoldable pub report_missing : List StructField → ℕ → List ℕ → Location → Check (Unit {0})
unfolding error
report_missing [] i marked l = pure tt
report_missing (f ∷ fs) i marked l = do
  report_if (not (is_marked marked i) && is_null f.expr) (not_initialized f.name) l
  report_missing fs (suc i) marked l

-- A null `def`, that of a generic Instance, is read by UNION_CASE.
unfoldable pub validate_struct : Option TyDef → FieldInits → Location → Check (Unit {0})
unfolding mark_inits report_missing
validate_struct none fs l = stop null_pointer
validate_struct (some def) fs l = do marked ← mark_inits fs []; report_missing def.fields 0 marked l

abbrev pub def_at : (ℕ → Option TyDef) → Option ℕ → Option TyDef
def_at defs none = none
def_at defs (some d) = defs d

unfoldable pub validate_literal_struct :
    (ℕ → Option TyDef) → Ty → FieldInits → Location → Check (Unit {0})
unfolding validate_struct error
validate_literal_struct defs (inst n k args d g) fs l = validate_struct (def_at defs d) fs l
validate_literal_struct defs t fs l = error (not_a_struct t) l
