-- ===== src/Check/State.antt =====
-- compiler/typecheck.cpp: what a pass of the checker reads and changes, its reports, and the steps
-- that every node shares: typeMustKnow and typeMustEqual.
use aike.Base.{
  ℕ, suc, Bool, true, false, not, ◌&&◌, List, [], ◌∷◌, ◌++◌, Option, none, some, Bytes,
  if◌then◌else◌,
}
use aike.Types.Syntax.{Ty, unknown, Location}
use aike.Types.Unify.{Answer, yes, no, aborts, TypeConstraints, type_unify, type_equals}
use aike.Types.Traverse.{type_known, Member, found, assertion, ice}
use aike.Resolve.Members.{Variable}
use aike.Tree.Ast.{Ast, Common}
use aike.Tree.Visit.{ast_common}

-- The reports of the checker, with what their texts are made of.
pub data Problem : Type 0 where
  unknown_type : Ty → Problem
  mismatch : Ty → Ty → Problem
  already_initialized : Bytes → Problem
  not_initialized : Bytes → Problem
  not_a_struct : Ty → Problem
  not_deduced : Bytes → Problem
  ambiguous : Bytes → List Variable → Problem
  open_arguments : Bytes → List Ty → Problem
  no_field : Ty → Bytes → Problem
  argument_count : ℕ → ℕ → Problem
  not_assignable : Problem
  no_member : Bytes → Ty → Problem
  type_argument_count : ℕ → ℕ → Problem

pub record Report : Type 0 where
  pub problem : Problem
  pub location : Location

-- How a pass can end before its end: a null node or type is dereferenced, an assertion fails, or ICE, or the
-- recursion of TypeConstraints::rewrite does not end.
pub data Fault : Type 0 where
  null_pointer : Fault
  failed_assertion : Fault
  internal_error : Fault
  endless : Fault

pub data Checked {ℓ} (A : Type ℓ) : Type ℓ where
  ok : A → Checked A
  fault : Fault → Checked A

-- The constraints, which are null when the types are verified; the reports of Output so far; and the
-- address that the next Unknown node gets.
pub record Pass : Type 0 where
  pub constraints : Option TypeConstraints
  pub errors : List Report
  pub next : ℕ

abbrev pub Check {ℓ} : Type ℓ → Type ℓ
Check A = Pass → Checked (A × Pass)

abbrev pub bind {ℓ κ} :
    {A : Type ℓ} {B : Type κ} → Checked (A × Pass) → (A → Check B) → Checked (B × Pass)
bind (ok (a, s)) f = f a s
bind (fault e) f = fault e

infixl 1 ◌>>=◌ ◌>>◌
abbrev pub ◌>>=◌ {ℓ κ} : {A : Type ℓ} {B : Type κ} → Check A → (A → Check B) → Check B
◌>>=◌ p f s = bind (p s) f

abbrev pub ◌>>◌ {ℓ κ} : {A : Type ℓ} {B : Type κ} → Check A → Check B → Check B
p >> q = p >>= λ _. q

abbrev pub pure {ℓ} : {A : Type ℓ} → A → Check A
pure a s = ok (a, s)

abbrev pub stop {ℓ} : {A : Type ℓ} → Fault → Check A
stop e s = fault e

-- `output.error(location, ...)`
unfoldable pub error : Problem → Location → Check (Unit {0})
error p l s = ok (tt, record s { errors = s.errors ++ record { problem = p; location = l } ∷ [] })

-- `UNION_NEW(Ty, Unknown, {})`
unfoldable pub fresh : Check Ty
fresh s = ok (unknown s.next, record s { next = suc s.next })

abbrev pub is_null : {A : Type 0} → Option A → Bool
is_null none = true
is_null (some _) = false

-- `if (!constraints) ...`
abbrev pub if_verifying : Check (Unit {0}) → Check (Unit {0})
if_verifying p s = if is_null s.constraints then p s else ok (tt, s)

abbrev pub report_if : Bool → Problem → Location → Check (Unit {0})
report_if b p l = if b then error p l else pure tt

abbrev pub or_null {ℓ} : {A : Type ℓ} → Option A → Check A
or_null (some a) = pure a
or_null none = stop null_pointer

abbrev pub type_in : Option Common → Option Ty
type_in none = none
type_in (some c) = c.type

-- astType and astLocation.
unfoldable pub ast_type : Ast → Check Ty
unfolding ast_common
ast_type n = or_null (type_in (ast_common n))

unfoldable pub ast_location : Ast → Check Location
unfolding ast_common
ast_location n = do c ← or_null (ast_common n); pure c.location

unfoldable pub is_first : Pass → Bool
is_first s = elim s.errors [ [] ↦ true | _ ∷ _ ↦ false ]

unfoldable pub type_must_know : Ty → Location → Check (Unit {0})
unfolding type_known is_first error
type_must_know t l s = report_if (not (type_known t) && is_first s) (unknown_type t) l s

-- typeUnify, with the constraints of the pass or with null.
abbrev pub of_answer : Answer → Check Bool
of_answer yes = pure true
of_answer no = pure false
of_answer aborts = stop failed_assertion

abbrev pub with_constraints : Pass → Answer × TypeConstraints → Checked (Bool × Pass)
with_constraints s (a, c) = of_answer a (record s { constraints = some c })

abbrev pub unify_in : Option TypeConstraints → Ty → Ty → Check Bool
unify_in none l r s = of_answer (type_equals l r) s
unify_in (some c) l r s = with_constraints s (type_unify l r c)

unfoldable pub unify_types : Ty → Ty → Check Bool
unfolding type_equals type_unify
unify_types l r s = unify_in s.constraints l r s

unfoldable pub type_must_equal : Ty → Ty → Location → Check (Unit {0})
unfolding unify_types error type_must_know
type_must_equal t expected l = do
  same ← unify_types t expected
  if_verifying (report_if (not same) (mismatch expected t) l)
  if_verifying (type_must_know t l)

-- The overload for a node.
unfoldable pub node_must_equal : Ast → Ty → Check (Unit {0})
unfolding ast_type ast_location type_must_equal
node_must_equal n expected = do t ← ast_type n; l ← ast_location n; type_must_equal t expected l

-- typeMember of compiler/type.cpp.
abbrev pub of_member : Member → Check Ty
of_member (found t) = pure t
of_member assertion = stop failed_assertion
of_member ice = stop internal_error
