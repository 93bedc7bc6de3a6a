-- ===== src/Check/Rules.antt =====
-- compiler/typecheck.cpp: what the type* functions do at a node behind the calls for its children,
-- which they are given.
use aike.Base.{
  ℕ, Bool, false, not, ◌&&◌, List, [], ◌∷◌, Option, none, some, Bytes, if◌then◌else◌, length, ltb,
  ◌==◌, ◌+◌,
}
use aike.Types.Syntax.{Ty, Tys, TyDef, Location, void, function, nil, cons, size}
use aike.Types.Unify.{TypeConstraints}
use aike.Types.Traverse.{type_known, type_member}
use aike.Resolve.Members.{Variable, is_argument_count_valid, reduce_candidates}
use aike.Tree.Ast.{Ast, Asts, Common, FieldRef, ident, member, block, module_, call}
use aike.Check.State.{
  Check, ok, Pass, ◌>>=◌, ◌>>◌, pure, stop, failed_assertion, error, fresh, is_null, if_verifying,
  report_if, ast_type, ast_location, node_must_equal, of_member, not_deduced, ambiguous,
  open_arguments, no_field, argument_count,
}
use aike.Check.Literals.{with_type, own_or_fresh, count}

-- typeIdent. An error for each type argument that is not known, with all of them in its text.
unfoldable pub report_open : Bytes → List Ty → List Ty → Location → Check (Unit {0})
unfolding type_known error
report_open name all [] l = pure tt
report_open name all (t ∷ ts) l = do
  report_if (not (type_known t)) (open_arguments name all) l
  report_open name all ts l

unfoldable pub type_ident : Common → Bytes → List Ty → List Variable → Bool → Check Ast
unfolding fresh error report_open
type_ident c name tyargs targets resolved = do
  t ← own_or_fresh c.type
  if_verifying (report_if (length targets == 0) (not_deduced name) c.location)
  if_verifying (report_if (ltb 1 (length targets)) (ambiguous name targets) c.location)
  if_verifying (report_open name tyargs tyargs c.location)
  pure (ident (with_type t c) name tyargs targets resolved)

abbrev pub member_type : (ℕ → Option TyDef) → Ty → Ty → Option ℕ → Check Ty
member_type defs own t none = pure own
member_type defs own t (some i) = of_member (type_member defs t i)

unfoldable pub finish_member : (ℕ → Option TyDef) → Common → Ast → FieldRef → Check Ast
unfolding fresh ast_type ast_location type_member error
finish_member defs c e f = do
  own ← own_or_fresh c.type
  exprty ← ast_type e
  l ← ast_location e
  t ← member_type defs own exprty f.index
  if_verifying (report_if (is_null f.index) (no_field exprty f.name) l)
  pure (member (with_type t c) e f)

-- The type of the last node.
unfoldable pub last_type : Asts → Check Ty
unfolding ast_type
last_type Asts.nil = pure void
last_type (Asts.cons a Asts.nil) = ast_type a
last_type (Asts.cons a (Asts.cons b as_)) = last_type (Asts.cons b as_)

unfoldable pub finish_block : Common → Asts → Check Ast
unfolding last_type
finish_block c as_ = do t ← last_type as_; pure (block (with_type t c) as_)

unfoldable pub finish_module : Common → Bytes → Ast → List Bytes → Check Ast
unfolding ast_type
finish_module c name body is = do t ← ast_type body; pure (module_ (with_type t c) name body is)

unfoldable pub types_of : Asts → Check Tys
unfolding ast_type
types_of Asts.nil = pure nil
types_of (Asts.cons a as_) = do t ← ast_type a; ts ← types_of as_; pure (cons t ts)

abbrev pub to_list : Tys → List Ty
to_list nil = []
to_list (cons t ts) = t ∷ to_list ts

-- `constraints->rewrites += count`
abbrev pub add_rewrites : ℕ → Pass → Option TypeConstraints → Pass
add_rewrites n s none = s
add_rewrites n s (some c) = record s { constraints = some (record c { rewrites = c.rewrites + n }) }

abbrev pub narrow_to : Common → Bytes → List Ty → Bool → List Variable × ℕ → Check Ast
narrow_to c name tyargs resolved (kept, n) s =
    ok (ident c name tyargs kept resolved, add_rewrites n s s.constraints)

abbrev pub or_failed : {A : Type 0} → Option A → Check A
or_failed (some a) = pure a
or_failed none = stop failed_assertion

-- `if (constraints && ne->targets.size > 1)`, at the function that is called.
unfoldable pub narrow : Ast → Asts → Check Ast
unfolding types_of reduce_candidates
narrow (ident c name tyargs targets resolved) args s =
    if not (is_null s.constraints) && ltb 1 (length targets)
    then (do
      ts ← types_of args
      r ← or_failed (reduce_candidates targets (to_list ts))
      narrow_to c name tyargs resolved r)
        s
    else ok (ident c name tyargs targets resolved, s)
narrow e args s = ok (e, s)

-- The loop over the parameters; the number of arguments has been compared before.
unfoldable pub arguments_must_equal : Asts → Tys → Check (Unit {0})
unfolding node_must_equal
arguments_must_equal as_ nil = pure tt
arguments_must_equal Asts.nil (cons t ts) = stop failed_assertion
arguments_must_equal (Asts.cons a as_) (cons t ts) = do
  node_must_equal a t
  arguments_must_equal as_ ts

unfoldable pub type_of_call : Location → Ty → Ast → Asts → Check Ty
unfolding is_argument_count_valid arguments_must_equal error types_of fresh node_must_equal
type_of_call l (function params ret varargs) e args = do
  if is_argument_count_valid params varargs (count args)
      then arguments_must_equal args params
      else if_verifying (error (argument_count (size params) (count args)) l)
  pure ret
type_of_call l t e args = do
  ts ← types_of args
  ret ← fresh
  node_must_equal e (function ts ret false)
  pure ret

unfoldable pub finish_call : Common → Ast → Asts → Check Ast
unfolding narrow type_of_call ast_type
finish_call c e args = do
  e' ← narrow e args
  fnty ← ast_type e'
  t ← type_of_call c.location fnty e' args
  pure (call (with_type t c) e' args)
