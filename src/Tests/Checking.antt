-- ===== src/Tests/Checking.antt =====
-- compiler/typecheck.cpp and resolveMembers of compiler/resolve.cpp at short trees.
use aike.Base.{List, ℕ, ◌≡◌, refl, [], ◌∷◌, Option, none, some, inl, true, false}
use aike.Types.Syntax.{
  Ty, TyDef, Location, void, bool, integer, array, string, tuple, Tys, function, inst,
}
use aike.Resolve.Members.{Variable, variable, fn}
use aike.Tree.Ast.{
  Ast, Common, literal_bool, literal_integer, literal_array, ident, block, index, assign, if_,
  var_decl, member, literal_tuple, nil, cons,
}
use aike.Tree.Visit.{visit_ast}
use aike.Resolve.Members.{find_member}
use aike.Resolve.Visits.{resolve_members}
use aike.Resolve.Again.{resolve_members-again}
use aike.Check.State.{
  fault, failed_assertion, Pass, Problem, Report, ok, mismatch, not_assignable, unknown_type,
}
use aike.Check.Instances.{instantiate_node}
use aike.Check.Verify.{typeck_verify}
use aike.Check.Typing.{Typed, NodesKnown}
use aike.Check.Labels.{IsLabelled}
use aike.Check.Accepts.{typeck_verify-Typed}
use aike.Check.Passes.{typeck_verify_accepts}

abbrev here : Location
here = record { source = b'a' ∷ []; line = 3; column = 0; offset = 40; length = 5 }

abbrev untyped : Common
untyped = record { type = none; location = here }

abbrev of_type : Ty → Common
of_type t = record { type = some t; location = here }

abbrev no_defs : ℕ → Option TyDef
no_defs _ = none

abbrev x : Variable
x = record { kind = variable; name = b'x' ∷ []; type = integer; location = here; fn = none }

-- `var x = if true then 1 else 2`, and `x = [3, 4][0]`, after the types were inferred.
abbrev read : Ast
read = block untyped (
    cons
      (var_decl untyped x (
        if_ untyped (literal_bool untyped true) (literal_integer untyped 1)
          (literal_integer untyped 2)))
      (cons
        (assign untyped (ident (of_type integer) (b'x' ∷ []) [] (x ∷ []) true) (
          index untyped
            (literal_array (of_type (array integer))
              (cons (literal_integer untyped 3) (cons (literal_integer untyped 4) nil)))
            (literal_integer untyped 0)))
        nil))

abbrev typed : Ast
typed = block (of_type void) (
    cons
      (var_decl (of_type void) x (
        if_ (of_type integer) (literal_bool (of_type bool) true)
          (literal_integer (of_type integer) 1) (literal_integer (of_type integer) 2)))
      (cons
        (assign (of_type void) (ident (of_type integer) (b'x' ∷ []) [] (x ∷ []) true) (
          index (of_type integer)
            (literal_array (of_type (array integer)) (
              cons (literal_integer (of_type integer) 3)
                (cons (literal_integer (of_type integer) 4) nil)))
            (literal_integer (of_type integer) 0)))
        nil))

abbrev start : Pass
start = record { constraints = none; errors = []; next = 0 }

read-IsLabelled : IsLabelled read
unfolding IsLabelled
read-IsLabelled = (
  (inl refl, (inl refl, inl refl, inl refl)),
  ((inl refl, tt, ((inl refl, (inl refl, tt)), inl refl)), tt),
)

typeck_verify-read : typeck_verify no_defs read start ≡ ok (typed, start)
unfolding typeck_verify
typeck_verify-read = refl

typeck_verify-Typed_example : Typed no_defs typed × NodesKnown (visit_ast typed (λ _. false))
typeck_verify-Typed_example =
    typeck_verify-Typed no_defs read typed start start read-IsLabelled refl typeck_verify-read refl

typed-Typed : Typed no_defs typed
typed-Typed =
    (typeck_verify-Typed no_defs read typed start start read-IsLabelled refl typeck_verify-read
      refl).0

typed-NodesKnown : NodesKnown (visit_ast typed (λ _. false))
typed-NodesKnown =
    (typeck_verify-Typed no_defs read typed start start read-IsLabelled refl typeck_verify-read
      refl).1

abbrev reported : Problem → Report
reported p = record { problem = p; location = here }

-- A pass after an earlier one that reported.
abbrev later : Pass
later = record { constraints = none; errors = reported (unknown_type string) ∷ []; next = 7 }

typeck_verify_accepts_example : typeck_verify no_defs typed later ≡ ok (typed, later)
typeck_verify_accepts_example =
    typeck_verify_accepts no_defs typed later typed-Typed typed-NodesKnown refl

-- `true = 1`: the types differ, and the left side cannot be assigned to.
typeck_verify_reports :
    typeck_verify no_defs
      (assign untyped (literal_bool untyped true) (literal_integer untyped 1))
      start
    ≡ ok (
      assign
          (of_type void)
          (literal_bool (of_type bool) true)
          (literal_integer (of_type integer) 1),
      record start { errors = reported (mismatch bool integer) ∷ reported not_assignable ∷ [] },
    )
unfolding typeck_verify
typeck_verify_reports = refl

-- `(1, true)._1`
abbrev pair : Ast
pair =
    literal_tuple (of_type (tuple (Tys.cons integer (Tys.cons bool Tys.nil))))
      (cons (literal_integer (of_type integer) 1) (cons (literal_bool (of_type bool) true) nil))

abbrev second_of : Option ℕ → Ast
second_of i =
    member (of_type bool) pair (record { name = b'_' ∷ b'1' ∷ []; location = here; index = i })

resolve_members_run :
    resolve_members no_defs (second_of none) start ≡ ok ((second_of (some 1), 1), start)
unfolding resolve_members find_member
resolve_members_run = refl

resolve_members-again_example :
    resolve_members no_defs (second_of (some 1)) later ≡ ok ((second_of (some 1), 0), later)
resolve_members-again_example =
    resolve_members-again no_defs (second_of none) (second_of (some 1)) 1 start start later refl
      resolve_members_run refl refl

-- `f<int>` for a function with two type parameters whose type names the second one: the wrong number
-- is reported, and then the type of an argument is asked for that is not there.
abbrev generic_fn : Variable
generic_fn = record {
  kind = fn;
  name = b'f' ∷ [];
  type = function Tys.nil (inst (b'B' ∷ []) here Tys.nil none (some 8)) false;
  location = here;
  fn = some 5;
}

abbrev two_parameters : ℕ → Option (List ℕ)
two_parameters _ = some (7 ∷ 8 ∷ [])

abbrev inferring : Pass
inferring = record {
  constraints = some (record { bindings = []; rewrites = 0 });
  errors = [];
  next = 0;
}

instantiate_node-few :
    instantiate_node two_parameters
      (ident untyped (b'f' ∷ []) (integer ∷ []) (generic_fn ∷ []) false)
      inferring
    ≡ fault failed_assertion
unfolding instantiate_node
instantiate_node-few = refl
