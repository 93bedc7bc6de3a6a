-- ===== src/Resolve/Members.antt =====
-- compiler/resolve.cpp: resolveBindings, findMember and resolveFieldRef; compiler/typecheck.cpp:
-- isArgumentCountValid, isCandidateValid and reduceCandidates.
use aike.Base.{
  ℕ, suc, ◌+◌, ◌-◌, ◌*◌, ◌^◌, Bool, true, false, ◌&&◌, List, [], ◌∷◌, Option, none, some, Bytes,
  bytes_eq, if◌then◌else◌, length, ltb, leb, ◌==◌,
}
use aike.Types.Syntax.{
  Ty, Tys, tuple, inst, function, Location, StructField, TyDef, size, nil, cons,
}
use aike.Types.Unify.{Answer, yes, no, aborts, TypeConstraints, type_unify, and_then}

pub data VariableKind : Type 0 where
  variable fn argument value : VariableKind

-- Variable of compiler/ast.hpp; `fn` is the address of its FnDecl node.
pub record Variable : Type 0 where
  pub kind : VariableKind
  pub name : Bytes
  pub type : Ty
  pub location : Location
  pub fn : Option ℕ

abbrev pub is_fn : VariableKind → Bool
is_fn fn = true
is_fn _ = false

unfoldable pub functions_of : List Variable → List Variable
functions_of [] = []
functions_of (v ∷ vs) = if is_fn v.kind then v ∷ functions_of vs else functions_of vs

unfoldable pub resolve_bindings : List Variable → List Variable
unfolding functions_of
resolve_bindings [] = []
resolve_bindings (v ∷ vs) = if is_fn v.kind then functions_of (v ∷ vs) else v ∷ []

-- strtoll in base 10 on characters of an identifier: the digits up to the first other character, and
-- what follows them.
unfoldable pub strtoll_digits : ℕ → Bytes → ℕ × Bytes
strtoll_digits n [] = (n, [])
strtoll_digits n (c ∷ s) =
    if leb b'0' c && leb c b'9' then strtoll_digits (n * 10 + (c - b'0')) s else (n, c ∷ s)

-- `*end == 0 && errno == 0 && valueInteger < size`
abbrev pub checked_index : ℕ → ℕ × Bytes → Option ℕ
checked_index n (i, []) = if ltb i (2 ^ 63) && ltb i n then some i else none
checked_index n (i, _ ∷ _) = none

-- `c` is `name[0]`.
unfoldable pub tuple_index : ℕ → ℕ → Bytes → Option ℕ
unfolding strtoll_digits
tuple_index n c s = if c == b'_' then checked_index n (strtoll_digits 0 s) else none

unfoldable pub field_index : ℕ → List StructField → Bytes → Option ℕ
field_index i [] name = none
field_index i (f ∷ fs) name = if bytes_eq f.name name then some i else field_index (suc i) fs name

abbrev pub index_in : Option TyDef → Bytes → Option (Option ℕ)
index_in none name = none
index_in (some def) name = some (field_index 0 def.fields name)

-- `some none` is -1. `none` is the test of the kind of a definition that is not there, as the pointer
-- of a generic Instance is null, or the failed assertion of `name[0]` on an empty name.
unfoldable pub find_member : (ℕ → Option TyDef) → Ty → Bytes → Option (Option ℕ)
unfolding tuple_index field_index
find_member defs (inst _ _ _ (some d) _) name = index_in (defs d) name
find_member defs (inst _ _ _ none _) name = none
find_member defs (tuple ts) [] = none
find_member defs (tuple ts) (c ∷ s) = some (tuple_index (size ts) c s)
find_member defs _ name = some none

-- isArgumentCountValid on the argument types and the varargs flag of a Function.
unfoldable pub is_argument_count_valid : Tys → Bool → ℕ → Bool
is_argument_count_valid params true args = leb (size params) args
is_argument_count_valid params false args = size params == args

unfoldable pub unify_arguments : Tys → List Ty → TypeConstraints → Answer × TypeConstraints
unify_arguments nil args c = (yes, c)
unify_arguments (cons p ps) [] c = (no, c)
unify_arguments (cons p ps) (a ∷ args) c =
    and_then (type_unify p a c) (λ c'. unify_arguments ps args c')

abbrev pub no_constraints : TypeConstraints
no_constraints = record { bindings = []; rewrites = 0 }

abbrev pub unless_aborted : Answer → Option Bool
unless_aborted yes = some true
unless_aborted no = some false
unless_aborted aborts = none

abbrev pub accepts : Ty → List Ty → Option Bool
accepts (function params _ varargs) args =
    if is_argument_count_valid params varargs (length args)
    then unless_aborted (unify_arguments params args no_constraints).0
    else some false
accepts _ args = none

-- `none` is a failed assertion.
unfoldable pub is_candidate_valid : Variable → List Ty → Option Bool
unfolding is_argument_count_valid unify_arguments
is_candidate_valid target args = if is_fn target.kind then accepts target.type args else none

abbrev pub keep_if : Option Bool → Variable → Option (List Variable) → Option (List Variable)
keep_if none v kept = none
keep_if (some b) v none = none
keep_if (some b) v (some vs) = some (if b then v ∷ vs else vs)

-- The targets that are kept, in their order.
unfoldable pub keep_valid : List Variable → List Ty → Option (List Variable)
unfolding is_candidate_valid
keep_valid [] args = some []
keep_valid (v ∷ vs) args = keep_if (is_candidate_valid v args) v (keep_valid vs args)

abbrev pub with_dropped : ℕ → Option (List Variable) → Option (List Variable × ℕ)
with_dropped n none = none
with_dropped n (some kept) = some (kept, n - length kept)

unfoldable pub reduce_candidates : List Variable → List Ty → Option (List Variable × ℕ)
unfolding keep_valid
reduce_candidates targets args = with_dropped (length targets) (keep_valid targets args)
