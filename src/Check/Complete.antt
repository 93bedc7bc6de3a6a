-- ===== src/Check/Complete.antt =====
-- compiler/typecheck.cpp: type and typeckVerify accept each tree that obeys the rules of typing, and
-- leave it as it is.
use aike.Base.{ℕ, ◌≡◌, refl, ap, Option, none, some}
use aike.Types.Syntax.{Ty, Tys, TyDef, void, bool, integer, float, string, tuple, array, nil, cons}
use aike.Types.Traverse.{type_member}
use aike.Tree.Ast.{
  Ast, Asts, Common, FieldInits, FieldDecls, literal_void, literal_bool, literal_integer,
  literal_float, literal_string, literal_tuple, literal_array, literal_struct, ident, member, block,
  module_, call, unary, binary, index, assign, if_, for_, while, fn, llvm, fn_decl, var_decl,
  ty_decl, import_, absent, no_inits, init, no_fields, field,
}
use aike.Check.State.{Check, ◌>>=◌, pure}
use aike.Check.Literals.{with_type, tuple_type, fields_of_tuple, array_type, element_of_array}
use aike.Check.Nodes.{
  init_must_equal, type_node, type_all, type_tuple, type_elements, type_inits, type_fields,
}
use aike.Check.Typing.{
  Initializes, Typed, AllTyped, TupleTyped, ElementsTyped, InitsTyped, FieldsTyped,
}
use aike.Check.Runs.{
  Runs, Runs->>=, pure-Runs, if_verifying-Runs, of_member-Runs, node_must_equal-Runs,
  with_type_same,
}
use aike.Check.LiteralsRun.{own_or_fresh-Runs, validate_literal_struct-Runs}
use aike.Check.RulesRun.{
  type_ident-Runs, finish_member-Runs, finish_block-Runs, finish_module-Runs, finish_call-Runs,
}
use aike.Check.OperatorsRun.{
  default_type_same, finish_unary-Runs, finish_binary-Runs, finish_index-Runs, finish_assign-Runs,
  finish_else-Runs, finish_if-Runs, finish_for-Runs, finish_while-Runs, finish_fn-Runs,
  type_fn_body-Runs, finish_var_decl-Runs, type_field-Runs,
}

init_must_equal-Runs :
    (defs : ℕ → Option TyDef) (t : Ty) (o : Option ℕ) (e : Ast)
    → Initializes defs t o e
    → Runs (init_must_equal defs t o e) tt
unfolding init_must_equal
init_must_equal-Runs defs t none e h = pure-Runs refl
init_must_equal-Runs defs t (some i) e (u, at, fits) =
    Runs->>= _ (of_member-Runs (type_member defs t i) u at) (node_must_equal-Runs e u fits)

tuple_type-Runs : (o : Option Ty) (as_ : Asts) (t : Ty) → o ≡ some t → Runs (tuple_type o as_) t
unfolding tuple_type
tuple_type-Runs o as_ t h = rw h (pure-Runs refl)

fields_of_tuple-Runs : (ts : Tys) → Runs (fields_of_tuple (tuple ts)) ts
fields_of_tuple-Runs ts = pure-Runs refl

array_type-Runs : (o : Option Ty) (t : Ty) → o ≡ some t → Runs (array_type o) t
unfolding array_type
array_type-Runs o t h = rw h (pure-Runs refl)

element_of_array-Runs : (t : Ty) → Runs (element_of_array (array t)) t
element_of_array-Runs t = pure-Runs refl

-- The rest of the work on a tuple and on an array.
abbrev with_tuple : (ℕ → Option TyDef) → Common → Asts → Ty → Tys → Check Ast
with_tuple defs c as_ t ts =
    type_tuple defs as_ ts >>= λ es. pure (literal_tuple (with_type t c) es)

abbrev with_fields : (ℕ → Option TyDef) → Common → Asts → Ty → Check Ast
with_fields defs c as_ t = fields_of_tuple t >>= with_tuple defs c as_ t

abbrev with_array : (ℕ → Option TyDef) → Common → Asts → Ty → Ty → Check Ast
with_array defs c as_ t u =
    type_elements defs as_ u >>= λ es. pure (literal_array (with_type t c) es)

abbrev with_element : (ℕ → Option TyDef) → Common → Asts → Ty → Check Ast
with_element defs c as_ t = element_of_array t >>= with_array defs c as_ t

mutual
  unfolding type_node Typed

  pub type_node-Runs :
      (defs : ℕ → Option TyDef) (n : Ast) → Typed defs n → Runs (type_node defs n) n
  type_node-Runs defs (literal_void c) h = pure-Runs (ap literal_void (default_type_same void c h))
  type_node-Runs defs (literal_bool c b) h =
      pure-Runs (ap (λ k. literal_bool k b) (default_type_same bool c h))
  type_node-Runs defs (literal_integer c i) h =
      pure-Runs (ap (λ k. literal_integer k i) (default_type_same integer c h))
  type_node-Runs defs (literal_float c i) h =
      pure-Runs (ap (λ k. literal_float k i) (default_type_same float c h))
  type_node-Runs defs (literal_string c s) h =
      pure-Runs (ap (λ k. literal_string k s) (default_type_same string c h))
  type_node-Runs defs (literal_tuple c as_) (ts, h, all) =
      Runs->>= (with_fields defs c as_) (tuple_type-Runs c.type as_ (tuple ts) h) (
        Runs->>= (with_tuple defs c as_ (tuple ts)) (fields_of_tuple-Runs ts) (
          Runs->>= (λ es. pure (literal_tuple (with_type (tuple ts) c) es))
            (type_tuple-Runs defs as_ ts all)
            (pure-Runs (ap (λ k. literal_tuple k as_) (with_type_same (tuple ts) c h)))))
  type_node-Runs defs (literal_array c as_) (t, h, all) =
      Runs->>= (with_element defs c as_) (array_type-Runs c.type (array t) h) (
        Runs->>= (with_array defs c as_ (array t)) (element_of_array-Runs t) (
          Runs->>= (λ es. pure (literal_array (with_type (array t) c) es))
            (type_elements-Runs defs as_ t all)
            (pure-Runs (ap (λ k. literal_array k as_) (with_type_same (array t) c h)))))
  type_node-Runs defs (literal_struct c n fs) (t, h, all, complete) =
      Runs->>= _ (own_or_fresh-Runs c.type t h) (
        Runs->>= _ (type_inits-Runs defs fs t all) (
          Runs->>= _
            (if_verifying-Runs (validate_literal_struct-Runs defs t fs c.location complete))
            (pure-Runs (ap (λ k. literal_struct k n fs) (with_type_same t c h)))))
  type_node-Runs defs (ident c n ts vs r) (t, h, one, known) =
      type_ident-Runs c n ts vs r t h one known
  type_node-Runs defs (member c e f) (i, u, t, is, at, has, there, h) =
      Runs->>= _ (type_node-Runs defs e is) (finish_member-Runs defs c e f i u t at has there h)
  type_node-Runs defs (block c as_) (t, h, all, last) =
      Runs->>= _ (type_all-Runs defs as_ all) (finish_block-Runs c as_ t last h)
  type_node-Runs defs (module_ c n body is) (t, h, typed, has) =
      Runs->>= _ (type_node-Runs defs body typed) (finish_module-Runs c n body is t has h)
  type_node-Runs defs (call c e as_) (t, h, is, all, types) =
      Runs->>= _ (type_node-Runs defs e is)
        (Runs->>= _ (type_all-Runs defs as_ all) (finish_call-Runs c e as_ t types h))
  type_node-Runs defs (unary c op e) (t, h, is, types) =
      Runs->>= _ (type_node-Runs defs e is) (finish_unary-Runs c op e t types h)
  type_node-Runs defs (binary c op l r) (logical, h, tl, tr, fl, fr) =
      Runs->>= _ (type_node-Runs defs l tl)
        (Runs->>= _ (type_node-Runs defs r tr) (finish_binary-Runs c op l r logical fl fr h))
  type_node-Runs defs (index c e i) (t, h, te, ti, has, fits) =
      Runs->>= _ (type_node-Runs defs e te)
        (Runs->>= _ (type_node-Runs defs i ti) (finish_index-Runs c e i t has fits h))
  type_node-Runs defs (assign c l r) (t, h, tl, tr, has, fits, can) =
      Runs->>= _ (type_node-Runs defs l tl)
        (Runs->>= _ (type_node-Runs defs r tr) (finish_assign-Runs c l r t has fits can h))
  type_node-Runs defs (if_ c cond t e) (u, h, tc, fits, typed, has, other) =
      Runs->>= _ (type_node-Runs defs cond tc) (
        Runs->>= _ (node_must_equal-Runs cond bool fits) (
          Runs->>= _ (type_node-Runs defs t typed) (
            Runs->>= _
              (finish_else-Runs defs (type_node defs e) t e u (λ is. type_node-Runs defs e is) has
                other)
              (finish_if-Runs c cond t e u has h))))
  type_node-Runs defs (for_ c v i e body) (h, te, tb, fe, fb, fi) =
      Runs->>= _ (type_node-Runs defs e te)
        (Runs->>= _ (type_node-Runs defs body tb) (finish_for-Runs c v i e body fe fb fi h))
  type_node-Runs defs (while c e body) (h, te, tb, fe, fb) =
      Runs->>= _ (type_node-Runs defs e te)
        (Runs->>= _ (type_node-Runs defs body tb) (finish_while-Runs c e body fe fb h))
  type_node-Runs defs (fn c id decl) (t, h, is, declares) =
      Runs->>= _ (type_node-Runs defs decl is) (finish_fn-Runs c id decl t declares h)
  type_node-Runs defs (llvm c code) (t, h) =
      Runs->>= _ (own_or_fresh-Runs c.type t h)
        (pure-Runs (ap (λ k. llvm k code) (with_type_same t c h)))
  type_node-Runs defs (fn_decl c v ts vs attributes body p m) (h, there) =
      Runs->>= _
        (type_fn_body-Runs defs (type_node defs body) v body (λ is. type_node-Runs defs body is)
          there)
        (pure-Runs (ap (λ k. fn_decl k v ts vs attributes body p m) (default_type_same void c h)))
  type_node-Runs defs (var_decl c v e) (h, is, fits) =
      Runs->>= _ (type_node-Runs defs e is) (finish_var_decl-Runs c v e fits h)
  type_node-Runs defs (ty_decl c n ts fs) (h, all) =
      Runs->>= _ (type_fields-Runs defs fs all)
        (pure-Runs (ap (λ k. ty_decl k n ts fs) (default_type_same void c h)))
  type_node-Runs defs (import_ c n) h =
      pure-Runs (ap (λ k. import_ k n) (default_type_same void c h))
  type_node-Runs defs absent h = absurd h

  type_all-Runs :
      (defs : ℕ → Option TyDef) (as_ : Asts) → AllTyped defs as_ → Runs (type_all defs as_) as_
  type_all-Runs defs Asts.nil h = pure-Runs refl
  type_all-Runs defs (Asts.cons a as_) (is, all) =
      Runs->>= _ (type_node-Runs defs a is)
        (Runs->>= _ (type_all-Runs defs as_ all) (pure-Runs refl))

  type_tuple-Runs :
      (defs : ℕ → Option TyDef) (as_ : Asts) (ts : Tys)
      → TupleTyped defs as_ ts
      → Runs (type_tuple defs as_ ts) as_
  type_tuple-Runs defs Asts.nil ts h = pure-Runs refl
  type_tuple-Runs defs (Asts.cons a as_) nil h = absurd h
  type_tuple-Runs defs (Asts.cons a as_) (cons t ts) (is, fits, all) =
      Runs->>= _ (type_node-Runs defs a is) (
        Runs->>= _ (node_must_equal-Runs a t fits)
          (Runs->>= _ (type_tuple-Runs defs as_ ts all) (pure-Runs refl)))

  type_elements-Runs :
      (defs : ℕ → Option TyDef) (as_ : Asts) (t : Ty)
      → ElementsTyped defs as_ t
      → Runs (type_elements defs as_ t) as_
  type_elements-Runs defs Asts.nil t h = pure-Runs refl
  type_elements-Runs defs (Asts.cons a as_) t (is, fits, all) =
      Runs->>= _ (type_node-Runs defs a is) (
        Runs->>= _ (node_must_equal-Runs a t fits)
          (Runs->>= _ (type_elements-Runs defs as_ t all) (pure-Runs refl)))

  type_inits-Runs :
      (defs : ℕ → Option TyDef) (fs : FieldInits) (t : Ty)
      → InitsTyped defs fs t
      → Runs (type_inits defs fs t) fs
  type_inits-Runs defs no_inits t h = pure-Runs refl
  type_inits-Runs defs (init f e fs) t (is, fits, all) = Runs->>= _ (type_node-Runs defs e is) (
      Runs->>= _ (init_must_equal-Runs defs t f.index e fits)
        (Runs->>= _ (type_inits-Runs defs fs t all) (pure-Runs refl)))

  type_fields-Runs :
      (defs : ℕ → Option TyDef) (fs : FieldDecls)
      → FieldsTyped defs fs
      → Runs (type_fields defs fs) fs
  type_fields-Runs defs no_fields h = pure-Runs refl
  type_fields-Runs defs (field f e fs) (there, all) =
      Runs->>= _
        (type_field-Runs defs (type_node defs e) f.type e (λ is. type_node-Runs defs e is) there)
        (Runs->>= _ (type_fields-Runs defs fs all) (pure-Runs refl))
