-- ===== src/Check/OperatorsRun.antt =====
-- compiler/typecheck.cpp: the functions for operators, statements and declarations leave a node that
-- obeys the typing rules as it is.
use aike.Base.{ℕ, ◌≡◌, refl, sym, ap, ◌∙◌, true, not, Option, none, some}
use aike.Types.Syntax.{Ty, TyDef, void, bool, integer, array, pointer, function}
use aike.Types.Traverse.{type_known}
use aike.Resolve.Members.{Variable}
use aike.Tree.Ast.{
  Ast, Common, UnaryOp, BinaryOp, and, or, plus, minus, deref, new, unary, binary, index, assign,
  if_, for_, while, fn, fn_decl, var_decl, absent,
}
use aike.Check.State.{Check, pure, not_assignable}
use aike.Check.Literals.{with_type, default_type, type_or}
use aike.Check.Operators.{
  type_of_deref, type_of_unary, finish_unary, both_bool, finish_binary, type_of_index, finish_index,
  is_assignable, finish_assign, finish_else, finish_if, index_must_equal, finish_for, finish_while,
  finish_fn, body_must_equal, type_fn_body, finish_var_decl, type_field,
}
use aike.Check.Typing.{
  HasType, Fits, UnaryTypes, IsLogical, IndexFits, BodyFits, IfPresent, Declares, Typed,
}
use aike.Check.Runs.{
  Runs, Runs->>=, pure-Runs, report_if-Runs, if_verifying-Runs, ast_type-Runs, type_must_know-Runs,
  type_must_equal-Runs, node_must_equal-Runs, with_type_same,
}

-- A node with the type of its kind keeps it.
pub default_type_same : (t : Ty) (c : Common) → c.type ≡ some t → default_type t c ≡ c
default_type_same t c h = ap (λ u. with_type (type_or u t) c) h ∙ with_type_same t c h

type_of_unary-Runs :
    (op : UnaryOp) (e : Ast) (t : Ty) → UnaryTypes op e t → Runs (type_of_unary op e) t
unfolding type_of_unary type_of_deref
type_of_unary-Runs UnaryOp.not e t (fits, h) =
    Runs->>= _ (node_must_equal-Runs e bool fits) (pure-Runs (sym h))
type_of_unary-Runs deref e t has = Runs->>= _ (ast_type-Runs e (pointer t) has) (pure-Runs refl)
type_of_unary-Runs new e t (u, has, h) = Runs->>= _ (ast_type-Runs e u has) (pure-Runs (sym h))
type_of_unary-Runs plus e t h = absurd h
type_of_unary-Runs minus e t h = absurd h

pub finish_unary-Runs :
    (c : Common) (op : UnaryOp) (e : Ast) (t : Ty)
    → UnaryTypes op e t
    → c.type ≡ some t
    → Runs (finish_unary c op e) (unary c op e)
unfolding finish_unary
finish_unary-Runs c op e t types h =
    Runs->>= _ (type_of_unary-Runs op e t types)
      (pure-Runs (ap (λ k. unary k op e) (with_type_same t c h)))

both_bool-Runs :
    (c : Common) (op : BinaryOp) (l r : Ast)
    → Fits l bool
    → Fits r bool
    → c.type ≡ some bool
    → Runs (both_bool c op l r) (binary c op l r)
unfolding both_bool
both_bool-Runs c op l r fl fr h = Runs->>= _ (node_must_equal-Runs l bool fl) (
    Runs->>= _ (node_must_equal-Runs r bool fr)
      (pure-Runs (ap (λ k. binary k op l r) (with_type_same bool c h))))

pub finish_binary-Runs :
    (c : Common) (op : BinaryOp) (l r : Ast)
    → IsLogical op
    → Fits l bool
    → Fits r bool
    → c.type ≡ some bool
    → Runs (finish_binary c op l r) (binary c op l r)
unfolding finish_binary
finish_binary-Runs c and l r is fl fr h = both_bool-Runs c and l r fl fr h
finish_binary-Runs c or l r is fl fr h = both_bool-Runs c or l r fl fr h
finish_binary-Runs c op l r is fl fr h = absurd is

type_of_index-Runs : (e : Ast) (t : Ty) → Runs (type_of_index e (array t)) t
unfolding type_of_index
type_of_index-Runs e t = pure-Runs refl

pub finish_index-Runs :
    (c : Common) (e i : Ast) (t : Ty)
    → HasType e (array t)
    → Fits i integer
    → c.type ≡ some t
    → Runs (finish_index c e i) (index c e i)
unfolding finish_index
finish_index-Runs c e i t has fits h = Runs->>= _ (node_must_equal-Runs i integer fits) (
    Runs->>= _ (ast_type-Runs e (array t) has) (
      Runs->>= (λ x. pure (index (with_type x c) e i)) (type_of_index-Runs e t)
        (pure-Runs (ap (λ k. index k e i) (with_type_same t c h)))))

pub finish_assign-Runs :
    (c : Common) (l r : Ast) (t : Ty)
    → HasType l t
    → Fits r t
    → is_assignable l ≡ true
    → c.type ≡ some void
    → Runs (finish_assign c l r) (assign c l r)
unfolding finish_assign
finish_assign-Runs c l r t has fits can h = Runs->>= _ (ast_type-Runs l t has) (
    Runs->>= _ (node_must_equal-Runs r t fits) (
      Runs->>= _
        (if_verifying-Runs
          (report_if-Runs not_assignable c.location (not (is_assignable l)) (rw can)))
        (pure-Runs (ap (λ k. assign k l r) (default_type_same void c h)))))

pub finish_else-Runs :
    (defs : ℕ → Option TyDef) (typed : Check Ast) (t e : Ast) (u : Ty)
    → (Typed defs e → Runs typed e)
    → HasType t u
    → IfPresent e (Fits t void) (Typed defs e × Fits e u)
    → Runs (finish_else typed t e) e
unfolding finish_else
finish_else-Runs defs typed t absent u k has fits =
    Runs->>= _ (node_must_equal-Runs t void fits) (pure-Runs refl)
finish_else-Runs defs typed t e u k has (is, fits) = Runs->>= _ (k is) (
    Runs->>= _ (ast_type-Runs t u has)
      (Runs->>= _ (node_must_equal-Runs e u fits) (pure-Runs refl)))

pub finish_if-Runs :
    (c : Common) (cond t e : Ast) (u : Ty)
    → HasType t u
    → c.type ≡ some u
    → Runs (finish_if c cond t e) (if_ c cond t e)
unfolding finish_if
finish_if-Runs c cond t e u has h =
    Runs->>= _ (ast_type-Runs t u has) (pure-Runs (ap (λ k. if_ k cond t e) (with_type_same u c h)))

index_must_equal-Runs : (i : Option Variable) → IndexFits i → Runs (index_must_equal i) tt
index_must_equal-Runs none h = pure-Runs refl
index_must_equal-Runs (some v) h = type_must_equal-Runs v.type integer v.location h

pub finish_for-Runs :
    (c : Common) (v : Variable) (i : Option Variable) (e body : Ast)
    → Fits e (array v.type)
    → Fits body void
    → IndexFits i
    → c.type ≡ some void
    → Runs (finish_for c v i e body) (for_ c v i e body)
unfolding finish_for
finish_for-Runs c v i e body fe fb fi h = Runs->>= _ (node_must_equal-Runs e (array v.type) fe) (
    Runs->>= _ (node_must_equal-Runs body void fb) (
      Runs->>= _ (index_must_equal-Runs i fi)
        (pure-Runs (ap (λ k. for_ k v i e body) (default_type_same void c h)))))

pub finish_while-Runs :
    (c : Common) (e body : Ast)
    → Fits e bool
    → Fits body void
    → c.type ≡ some void
    → Runs (finish_while c e body) (while c e body)
unfolding finish_while
finish_while-Runs c e body fe fb h = Runs->>= _ (node_must_equal-Runs e bool fe) (
    Runs->>= _ (node_must_equal-Runs body void fb)
      (pure-Runs (ap (λ k. while k e body) (default_type_same void c h))))

pub finish_fn-Runs :
    (c : Common) (id : ℕ) (decl : Ast) (t : Ty)
    → Declares decl t
    → c.type ≡ some t
    → Runs (finish_fn c id decl) (fn c id decl)
unfolding finish_fn
finish_fn-Runs c id (fn_decl d v ts vs attributes body p m) t same h = pure-Runs (
    ap (λ k. fn k id (fn_decl d v ts vs attributes body p m)) (with_type_same v.type c (rw same h)))
finish_fn-Runs c id decl t same h = absurd same

body_must_equal-Runs : (body : Ast) (t : Ty) → BodyFits body t → Runs (body_must_equal body t) tt
unfolding body_must_equal
body_must_equal-Runs body (function args void v) h = pure-Runs refl
body_must_equal-Runs body (function args ret v) h = node_must_equal-Runs body ret h
body_must_equal-Runs body t h = absurd h

pub type_fn_body-Runs :
    (defs : ℕ → Option TyDef) (typed : Check Ast) (v : Variable) (body : Ast)
    → (Typed defs body → Runs typed body)
    → IfPresent body (type_known v.type ≡ true) (Typed defs body × BodyFits body v.type)
    → Runs (type_fn_body typed v body) body
unfolding type_fn_body
type_fn_body-Runs defs typed v absent k known =
    Runs->>= _ (if_verifying-Runs (type_must_know-Runs v.type v.location known)) (pure-Runs refl)
type_fn_body-Runs defs typed v body k (is, fits) =
    Runs->>= _ (k is) (Runs->>= _ (body_must_equal-Runs body v.type fits) (pure-Runs refl))

pub finish_var_decl-Runs :
    (c : Common) (v : Variable) (e : Ast)
    → Fits e v.type
    → c.type ≡ some void
    → Runs (finish_var_decl c v e) (var_decl c v e)
unfolding finish_var_decl
finish_var_decl-Runs c v e fits h =
    Runs->>= _ (node_must_equal-Runs e v.type fits)
      (pure-Runs (ap (λ k. var_decl k v e) (default_type_same void c h)))

pub type_field-Runs :
    (defs : ℕ → Option TyDef) (typed : Check Ast) (t : Ty) (e : Ast)
    → (Typed defs e → Runs typed e)
    → IfPresent e (Unit {0}) (Typed defs e × Fits e t)
    → Runs (type_field typed t e) e
unfolding type_field
type_field-Runs defs typed t absent k h = pure-Runs refl
type_field-Runs defs typed t e k (is, fits) =
    Runs->>= _ (k is) (Runs->>= _ (node_must_equal-Runs e t fits) (pure-Runs refl))
