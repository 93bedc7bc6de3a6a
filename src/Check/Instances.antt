-- ===== src/Check/Instances.antt =====
-- compiler/typecheck.cpp: what propagate and instantiateNode do at a node. The Variable that a node
-- changes may be shared with other nodes; here the node gets the changed one.
use aike.Base.{
  ℕ, Bool, true, false, not, ◌||◌, List, [], ◌∷◌, Option, none, some, Bytes, if◌then◌else◌, ◌==◌,
}
use aike.Types.Syntax.{
  Ty, Tys, TyDef, Location, tuple, array, pointer, function, inst, nil, cons, size,
}
use aike.Types.Traverse.{type_known, type_instantiate, argument_for, arity}
use aike.Types.Unify.{TypeConstraints}
use aike.Types.Rewrite.{rewrite}
use aike.Resolve.Members.{Variable, is_fn}
use aike.Tree.Ast.{
  Ast, Common, literal_tuple, literal_array, literal_struct, ident, for_, llvm, fn_decl, var_decl,
}
use aike.Check.State.{
  Check, ok, fault, ◌>>=◌, ◌>>◌, pure, stop, error, fresh, report_if, failed_assertion,
  null_pointer, endless, type_argument_count,
}
use aike.Check.Literals.{with_type}
use aike.Check.Rules.{to_list, add_rewrites, or_failed}

-- `constraints.rewrite(type)`, with the fuel of the method.
abbrev pub rewrite_with : ℕ → Ty → Option TypeConstraints → Check Ty
rewrite_with fuel t none s = fault null_pointer
rewrite_with fuel t (some c) s = elim (rewrite fuel t c) [
  | none ↦ fault endless
  | some r ↦ ok (r.0, record s { constraints = some r.1 })
]

unfoldable pub rewrite_type_in : ℕ → Ty → Check Ty
unfolding rewrite
rewrite_type_in fuel t s = rewrite_with fuel t s.constraints s

unfoldable pub rewrite_types_in : ℕ → List Ty → Check (List Ty)
unfolding rewrite_type_in
rewrite_types_in fuel [] = pure []
rewrite_types_in fuel (t ∷ ts) = do
  u ← rewrite_type_in fuel t
  us ← rewrite_types_in fuel ts
  pure (u ∷ us)

unfoldable pub rewrite_variable : ℕ → Variable → Check Variable
unfolding rewrite_type_in
rewrite_variable fuel v = do t ← rewrite_type_in fuel v.type; pure (record v { type = t })

unfoldable pub rewrite_variables : ℕ → List Variable → Check (List Variable)
unfolding rewrite_variable
rewrite_variables fuel [] = pure []
rewrite_variables fuel (v ∷ vs) = do
  w ← rewrite_variable fuel v
  ws ← rewrite_variables fuel vs
  pure (w ∷ ws)

abbrev pub rewrite_if_there : ℕ → Option Variable → Check (Option Variable)
rewrite_if_there fuel none = pure none
rewrite_if_there fuel (some v) = do w ← rewrite_variable fuel v; pure (some w)

-- `n->type = constraints.rewrite(n->type)`, which looks at the kind of the type.
abbrev pub rewrite_own : ℕ → Option Ty → Check (Option Ty)
rewrite_own fuel none = stop null_pointer
rewrite_own fuel (some t) = do u ← rewrite_type_in fuel t; pure (some u)

abbrev pub rewrite_if_typed : ℕ → Option Ty → Check (Option Ty)
rewrite_if_typed fuel none = pure none
rewrite_if_typed fuel (some t) = do u ← rewrite_type_in fuel t; pure (some u)

abbrev pub retyped : Common → Option Ty → Common
retyped c t = record c { type = t }

unfoldable pub propagate : ℕ → Ast → Check Ast
unfolding rewrite_type_in rewrite_types_in rewrite_variable rewrite_variables
propagate fuel (literal_tuple c as_) = do
  t ← rewrite_own fuel c.type
  pure (literal_tuple (retyped c t) as_)
propagate fuel (literal_array c as_) = do
  t ← rewrite_own fuel c.type
  pure (literal_array (retyped c t) as_)
propagate fuel (literal_struct c n fs) = do
  t ← rewrite_own fuel c.type
  pure (literal_struct (retyped c t) n fs)
propagate fuel (ident c n ts vs resolved) = do
  t ← rewrite_if_typed fuel c.type
  us ← rewrite_types_in fuel ts
  pure (ident (retyped c t) n us vs resolved)
propagate fuel (for_ c v i e body) = do
  w ← rewrite_variable fuel v
  j ← rewrite_if_there fuel i
  pure (for_ c w j e body)
propagate fuel (llvm c code) = do t ← rewrite_own fuel c.type; pure (llvm (retyped c t) code)
propagate fuel (fn_decl c v ts args attributes body parent m) = do
  w ← rewrite_variable fuel v
  args' ← rewrite_variables fuel args
  pure (fn_decl c w ts args' attributes body parent m)
propagate fuel (var_decl c v e) = do w ← rewrite_variable fuel v; pure (var_decl c w e)
propagate fuel n = pure n

-- A new Unknown node for each of the type parameters.
unfoldable pub fresh_for_each : List ℕ → Check Tys
unfolding fresh
fresh_for_each [] = pure nil
fresh_for_each (g ∷ gs) = do t ← fresh; ts ← fresh_for_each gs; pure (cons t ts)

-- The arguments, made up where there are none; a wrong number of them is reported.
unfoldable pub arguments_or_fresh : List ℕ → Tys → Location → Check Tys
unfolding fresh_for_each error
arguments_or_fresh gs nil l = fresh_for_each gs
arguments_or_fresh gs (cons t ts) l = do
  report_if (not (size (cons t ts) == arity gs)) (type_argument_count (arity gs) (size (cons t ts)))
      l
  pure (cons t ts)

abbrev pub instantiate_struct : Option TyDef → Tys → Location → Check Tys
instantiate_struct none args l = stop null_pointer
instantiate_struct (some def) args l = arguments_or_fresh def.tyargs args l

-- At one node of a type; `defs` is the memory that holds the definitions.
unfoldable pub instantiate_type : (ℕ → Option TyDef) → Ty → Check Ty
unfolding arguments_or_fresh error
instantiate_type defs (inst n l args (some d) g) = do
  args' ← instantiate_struct (defs d) args l
  pure (inst n l args' (some d) g)
instantiate_type defs (inst n l args none (some g)) = do
  report_if (not (size args == 0)) (type_argument_count 0 (size args)) l
  pure (inst n l args none (some g))
instantiate_type defs (inst n l args none none) = stop failed_assertion
instantiate_type defs t = pure t

-- The loop over the parameters comes to the one asked for behind the last argument.
abbrev pub is_behind : List ℕ → Tys → ℕ → Bool
is_behind [] ts x = false
is_behind (g ∷ gs) nil x = (x == g) || is_behind gs nil x
is_behind (g ∷ gs) (cons t ts) x = if x == g then false else is_behind gs ts x

-- typeInstantiate asks for a parameter without an argument.
unfoldable mutual
  pub asks_behind : List ℕ → Tys → Ty → Bool
  asks_behind gs as_ (tuple ts) = any_behind gs as_ ts
  asks_behind gs as_ (array t) = asks_behind gs as_ t
  asks_behind gs as_ (pointer t) = asks_behind gs as_ t
  asks_behind gs as_ (function args ret v) = any_behind gs as_ args || asks_behind gs as_ ret
  asks_behind gs as_ (inst n l args d (some g)) = is_behind gs as_ g
  asks_behind gs as_ (inst n l args d none) = any_behind gs as_ args
  asks_behind gs as_ t = false

  pub any_behind : List ℕ → Tys → Tys → Bool
  any_behind gs as_ nil = false
  any_behind gs as_ (cons t ts) = asks_behind gs as_ t || any_behind gs as_ ts

abbrev pub to_tys : List Ty → Tys
to_tys [] = nil
to_tys (t ∷ ts) = cons t (to_tys ts)

-- `n->resolved = true; constraints->rewrites++;`
abbrev pub set_resolved : Common → Bytes → List Ty → List Variable → Ty → Check Ast
set_resolved c n ts vs t s = elim s.constraints [
  | none ↦ fault null_pointer
  | some k ↦ ok (ident (with_type t c) n ts vs true, add_rewrites 1 s (some k))
]

-- A type that is not known yet is not instantiated.
unfoldable pub set_instance : List ℕ → Common → Bytes → Variable → Tys → Check Ast
unfolding type_known type_instantiate argument_for asks_behind
set_instance gs c n v nil = set_resolved c n [] (v ∷ []) v.type
set_instance gs c n v (cons t ts) =
    if not (type_known v.type)
    then pure (ident c n (t ∷ to_list ts) (v ∷ []) false)
    else if asks_behind gs (cons t ts) v.type
    then stop failed_assertion
    else (do
      u ← or_failed (type_instantiate (argument_for gs (cons t ts)) v.type)
      set_resolved c n (t ∷ to_list ts) (v ∷ []) u)

-- At a target that is a function with the type parameters `gs`.
unfoldable pub instantiate_fn : List ℕ → Common → Bytes → Tys → Variable → Check Ast
unfolding arguments_or_fresh set_instance
instantiate_fn gs c n ts v = do ts' ← arguments_or_fresh gs ts c.location; set_instance gs c n v ts'

-- `UNION_CASE(FnDecl, decl, var->fn); assert(decl);`: `decls` gives the type parameters of the FnDecl
-- node at an address.
abbrev pub parameters_at : (ℕ → Option (List ℕ)) → Option ℕ → Check (List ℕ)
parameters_at decls none = stop null_pointer
parameters_at decls (some a) = elim (decls a) [ none ↦ stop failed_assertion | some gs ↦ pure gs ]

-- instantiateNode behind its walk over the types of the node.
unfoldable pub instantiate_node : (ℕ → Option (List ℕ)) → Ast → Check Ast
unfolding instantiate_fn
instantiate_node decls (ident c n ts (v ∷ []) false) =
    if is_fn v.kind
    then (do gs ← parameters_at decls v.fn; instantiate_fn gs c n (to_tys ts) v)
    else set_resolved c n ts (v ∷ []) v.type
instantiate_node decls n = pure n
