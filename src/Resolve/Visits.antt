-- ===== src/Resolve/Visits.antt =====
-- compiler/resolve.cpp: resolveMembers and resolveMembersNode. The tree is given back with its field
-- references, and the counter beside it. The pass shares the reports and the faults of the type
-- checker.
use aike.Base.{ℕ, ◌+◌, Bool, true, false, List, [], ◌∷◌, Option, none, some}
use aike.Types.Syntax.{Ty, TyDef}
use aike.Tree.Ast.{
  Ast, Asts, Common, FieldRef, FieldInits, FieldDecls, literal_tuple, literal_array, literal_struct,
  member, block, module_, call, unary, binary, index, assign, if_, for_, while, fn, fn_decl,
  var_decl, ty_decl, no_inits, init, no_fields, field,
}
use aike.Tree.Visit.{ast_common}
use aike.Resolve.Fields.{NoMember, Resolved, resolve_field_ref}
use aike.Check.State.{Check, ◌>>=◌, ◌>>◌, pure, stop, error, null_pointer, no_member}

unfoldable pub report_all : List NoMember → Check (Unit {0})
unfolding error
report_all [] = pure tt
report_all (e ∷ es) = do error (no_member e.name e.type) e.location; report_all es

-- `rs.counter += ...`
abbrev pub counted : Bool → ℕ
counted true = 1
counted false = 0

abbrev pub of_resolved : Option Resolved → Check (FieldRef × ℕ)
of_resolved none = stop null_pointer
of_resolved (some r) = do report_all r.errors; pure (r.field, counted r.answer)

-- resolveFieldRef with a type that may be null, which it looks at where the index is not known.
abbrev pub ref_without_type : FieldRef → Option ℕ → Check (FieldRef × ℕ)
ref_without_type f none = stop null_pointer
ref_without_type f (some i) = pure (f, 0)

unfoldable pub resolve_ref : (ℕ → Option TyDef) → FieldRef → Option Ty → Check (FieldRef × ℕ)
unfolding resolve_field_ref report_all
resolve_ref defs f none = ref_without_type f f.index
resolve_ref defs f (some t) = of_resolved (resolve_field_ref defs f t)

-- `if (Ty* type = astType(n->expr))`
abbrev pub ref_if_typed : (ℕ → Option TyDef) → FieldRef → Option Ty → Check (FieldRef × ℕ)
ref_if_typed defs f none = pure (f, 0)
ref_if_typed defs f (some t) = of_resolved (resolve_field_ref defs f t)

unfoldable pub resolve_member : (ℕ → Option TyDef) → Option Common → FieldRef → Check (FieldRef × ℕ)
unfolding resolve_field_ref report_all
resolve_member defs none f = stop null_pointer
resolve_member defs (some c) f = ref_if_typed defs f c.type

-- Results put together, with the sum of their counts.
abbrev pub with_one : {A B : Type 0} → (A → B) → Check (A × ℕ) → Check (B × ℕ)
with_one f p = p >>= λ a. pure (f a.0, a.1)

abbrev pub with_two : {A B C : Type 0} → (A → B → C) → Check (A × ℕ) → Check (B × ℕ) → Check (C × ℕ)
with_two f p q = p >>= λ a. q >>= λ b. pure (f a.0 b.0, a.1 + b.1)

-- The references of a struct literal are looked at before its parts.
unfoldable pub resolve_refs :
    (ℕ → Option TyDef) → Option Ty → FieldInits → Check (List FieldRef × ℕ)
unfolding resolve_ref
resolve_refs defs t no_inits = pure ([], 0)
resolve_refs defs t (init f e fs) = with_two (◌∷◌) (resolve_ref defs f t) (resolve_refs defs t fs)

-- visitAst with resolveMembersNode. A part that may be left out is not visited where it is null.
unfoldable mutual
  unfolding resolve_member resolve_refs ast_common

  pub resolve_node : (ℕ → Option TyDef) → Ast → Check (Ast × ℕ)
  resolve_node defs (literal_tuple c as_) = with_one (literal_tuple c) (resolve_all defs as_)
  resolve_node defs (literal_array c as_) = with_one (literal_array c) (resolve_all defs as_)
  resolve_node defs (literal_struct c n fs) = do
    r ← resolve_refs defs c.type fs
    q ← resolve_inits defs fs r.0
    pure (literal_struct c n q.0, r.1 + q.1)
  resolve_node defs (member c e f) =
      with_two (λ g e'. member c e' g) (resolve_member defs (ast_common e) f) (resolve_node defs e)
  resolve_node defs (block c as_) = with_one (block c) (resolve_all defs as_)
  resolve_node defs (module_ c n body is) =
      with_one (λ b. module_ c n b is) (resolve_node defs body)
  resolve_node defs (call c e as_) = with_two (call c) (resolve_node defs e) (resolve_all defs as_)
  resolve_node defs (unary c op e) = with_one (unary c op) (resolve_node defs e)
  resolve_node defs (binary c op l r) =
      with_two (binary c op) (resolve_node defs l) (resolve_node defs r)
  resolve_node defs (index c e i) = with_two (index c) (resolve_node defs e) (resolve_node defs i)
  resolve_node defs (assign c l r) = with_two (assign c) (resolve_node defs l) (resolve_node defs r)
  resolve_node defs (if_ c cond t e) =
      with_two (λ x (r : Ast × Ast). if_ c x r.0 r.1) (resolve_node defs cond)
        (with_two (λ (x y : Ast). (x, y)) (resolve_node defs t) (resolve_node defs e))
  resolve_node defs (for_ c v i e body) =
      with_two (for_ c v i) (resolve_node defs e) (resolve_node defs body)
  resolve_node defs (while c e body) =
      with_two (while c) (resolve_node defs e) (resolve_node defs body)
  resolve_node defs (fn c id decl) = with_one (fn c id) (resolve_node defs decl)
  resolve_node defs (fn_decl c v ts vs attributes body p m) =
      with_one (λ b. fn_decl c v ts vs attributes b p m) (resolve_node defs body)
  resolve_node defs (var_decl c v e) = with_one (var_decl c v) (resolve_node defs e)
  resolve_node defs (ty_decl c n ts fs) = with_one (ty_decl c n ts) (resolve_fields defs fs)
  resolve_node defs n = pure (n, 0)

  pub resolve_all : (ℕ → Option TyDef) → Asts → Check (Asts × ℕ)
  resolve_all defs Asts.nil = pure (Asts.nil, 0)
  resolve_all defs (Asts.cons a as_) =
      with_two Asts.cons (resolve_node defs a) (resolve_all defs as_)

  pub resolve_inits : (ℕ → Option TyDef) → FieldInits → List FieldRef → Check (FieldInits × ℕ)
  resolve_inits defs (init f e fs) (g ∷ gs) =
      with_two (init g) (resolve_node defs e) (resolve_inits defs fs gs)
  resolve_inits defs fs gs = pure (fs, 0)

  pub resolve_fields : (ℕ → Option TyDef) → FieldDecls → Check (FieldDecls × ℕ)
  resolve_fields defs no_fields = pure (no_fields, 0)
  resolve_fields defs (field f e fs) =
      with_two (field f) (resolve_node defs e) (resolve_fields defs fs)

unfoldable pub resolve_members : (ℕ → Option TyDef) → Ast → Check (Ast × ℕ)
unfolding resolve_node
resolve_members defs root = resolve_node defs root
