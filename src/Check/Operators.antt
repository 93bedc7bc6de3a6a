-- ===== src/Check/Operators.antt =====
-- compiler/typecheck.cpp: typeUnary, typeBinary, typeIndex, typeAssign and the functions for statements
-- and declarations, behind the calls for the children of the node.
use aike.Base.{ℕ, Bool, true, false, not, List, [], ◌∷◌, Option, none, some}
use aike.Types.Syntax.{Ty, void, bool, integer, array, pointer, function}
use aike.Resolve.Members.{Variable, VariableKind, variable}
use aike.Tree.Ast.{
  Ast, Common, UnaryOp, BinaryOp, deref, new, and, or, ident, member, unary, binary, index, assign,
  if_, for_, while, fn, fn_decl, var_decl, absent,
}
use aike.Check.State.{
  Check, ◌>>=◌, ◌>>◌, pure, stop, failed_assertion, internal_error, error, fresh, if_verifying,
  report_if, ast_type, type_must_know, type_must_equal, node_must_equal, not_assignable,
}
use aike.Check.Literals.{with_type, default_type}

unfoldable pub type_of_deref : Ast → Ty → Check Ty
unfolding fresh node_must_equal
type_of_deref e (pointer t) = pure t
type_of_deref e t = do u ← fresh; node_must_equal e (pointer u); pure u

unfoldable pub type_of_unary : UnaryOp → Ast → Check Ty
unfolding ast_type node_must_equal type_of_deref
type_of_unary UnaryOp.not e = do node_must_equal e bool; pure bool
type_of_unary deref e = do t ← ast_type e; type_of_deref e t
type_of_unary new e = do t ← ast_type e; pure (pointer t)
type_of_unary _ e = stop internal_error

unfoldable pub finish_unary : Common → UnaryOp → Ast → Check Ast
unfolding type_of_unary
finish_unary c op e = do t ← type_of_unary op e; pure (unary (with_type t c) op e)

unfoldable pub both_bool : Common → BinaryOp → Ast → Ast → Check Ast
unfolding node_must_equal
both_bool c op l r = do
  node_must_equal l bool
  node_must_equal r bool
  pure (binary (with_type bool c) op l r)

unfoldable pub finish_binary : Common → BinaryOp → Ast → Ast → Check Ast
unfolding both_bool
finish_binary c and l r = both_bool c and l r
finish_binary c or l r = both_bool c or l r
finish_binary c op l r = stop internal_error

unfoldable pub type_of_index : Ast → Ty → Check Ty
unfolding fresh node_must_equal
type_of_index e (array t) = pure t
type_of_index e t = do u ← fresh; node_must_equal e (array u); pure u

unfoldable pub finish_index : Common → Ast → Ast → Check Ast
unfolding node_must_equal ast_type type_of_index
finish_index c e i = do
  node_must_equal i integer
  exprty ← ast_type e
  t ← type_of_index e exprty
  pure (index (with_type t c) e i)

abbrev pub is_variable : VariableKind → Bool
is_variable variable = true
is_variable _ = false

abbrev pub is_one_variable : List Variable → Bool
is_one_variable (v ∷ []) = is_variable v.kind
is_one_variable _ = false

abbrev pub is_deref : UnaryOp → Bool
is_deref deref = true
is_deref _ = false

unfoldable pub is_assignable : Ast → Bool
is_assignable (ident _ _ _ targets _) = is_one_variable targets
is_assignable (member _ e _) = is_assignable e
is_assignable (index _ _ _) = true
is_assignable (unary _ op _) = is_deref op
is_assignable _ = false

unfoldable pub finish_assign : Common → Ast → Ast → Check Ast
unfolding ast_type node_must_equal is_assignable error
finish_assign c l r = do
  t ← ast_type l
  node_must_equal r t
  if_verifying (report_if (not (is_assignable l)) not_assignable c.location)
  pure (assign (default_type void c) l r)

-- The part of typeIf behind the call for the body, with the call for the other one.
unfoldable pub finish_else : Check Ast → Ast → Ast → Check Ast
unfolding ast_type node_must_equal
finish_else typed t absent = do node_must_equal t void; pure absent
finish_else typed t e = do e' ← typed; thenty ← ast_type t; node_must_equal e' thenty; pure e'

unfoldable pub finish_if : Common → Ast → Ast → Ast → Check Ast
unfolding ast_type
finish_if c cond t e = do thenty ← ast_type t; pure (if_ (with_type thenty c) cond t e)

abbrev pub index_must_equal : Option Variable → Check (Unit {0})
index_must_equal none = pure tt
index_must_equal (some v) = type_must_equal v.type integer v.location

unfoldable pub finish_for : Common → Variable → Option Variable → Ast → Ast → Check Ast
unfolding node_must_equal type_must_equal
finish_for c v i e body = do
  node_must_equal e (array v.type)
  node_must_equal body void
  index_must_equal i
  pure (for_ (default_type void c) v i e body)

unfoldable pub finish_while : Common → Ast → Ast → Check Ast
unfolding node_must_equal
finish_while c e body = do
  node_must_equal e bool
  node_must_equal body void
  pure (while (default_type void c) e body)

-- `UNION_CASE(FnDecl, decl, n->decl); assert(decl);`
unfoldable pub finish_fn : Common → ℕ → Ast → Check Ast
finish_fn c id (fn_decl d v tyargs args attributes body parent m) =
    pure (fn (with_type v.type c) id (fn_decl d v tyargs args attributes body parent m))
finish_fn c id decl = stop failed_assertion

-- The type of the body is asked for where the function returns something.
unfoldable pub body_must_equal : Ast → Ty → Check (Unit {0})
unfolding node_must_equal
body_must_equal body (function _ void _) = pure tt
body_must_equal body (function _ ret _) = node_must_equal body ret
body_must_equal body t = stop internal_error

-- typeFnDecl in front of the last statement, with the call for the body.
unfoldable pub type_fn_body : Check Ast → Variable → Ast → Check Ast
unfolding body_must_equal type_must_know
type_fn_body typed v absent = do if_verifying (type_must_know v.type v.location); pure absent
type_fn_body typed v body = do body' ← typed; body_must_equal body' v.type; pure body'

unfoldable pub finish_var_decl : Common → Variable → Ast → Check Ast
unfolding node_must_equal
finish_var_decl c v e = do node_must_equal e v.type; pure (var_decl (default_type void c) v e)

-- `if (c.expr)`, with the call for the initializer of a field.
unfoldable pub type_field : Check Ast → Ty → Ast → Check Ast
unfolding node_must_equal
type_field typed t absent = pure absent
type_field typed t e = do e' ← typed; node_must_equal e' t; pure e'
