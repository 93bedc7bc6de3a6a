-- ===== src/Check/StatementsHold.antt =====
-- compiler/typecheck.cpp: the rules of typing hold at statements and declarations that are finished
-- with no report.
use aike.Base.{ℕ, ◌≡◌, refl, sym, ◌∙◌, subst, some→eq, true, Option, none, some}
use aike.Types.Syntax.{Ty, TyDef, void, bool, integer, array, function}
use aike.Types.Traverse.{type_known}
use aike.Resolve.Members.{Variable}
use aike.Tree.Ast.{Ast, Common, fn_decl, absent}
use aike.Check.State.{Check}
use aike.Check.Labels.{MayHave}
use aike.Check.Operators.{
  finish_else, finish_if, index_must_equal, finish_for, finish_while, finish_fn, body_must_equal,
  type_fn_body, finish_var_decl, type_field,
}
use aike.Check.Typing.{HasType, Fits, IndexFits, BodyFits, IfPresent, Typed}
use aike.Check.Ensures.{
  Ensures, Ensures->>=, pure-Ensures, stop-Ensures, if_verifying-Ensures, ast_type-Ensures,
  type_must_know-Ensures, type_must_equal-Ensures, node_must_equal-Ensures,
}
use aike.Check.OperatorsHold.{default_void}

-- A node that is typed is there.
IfPresent-Typed :
    (defs : ℕ → Option TyDef) (e : Ast) (P Q : Type 0) → Typed defs e → Q → IfPresent e P Q
unfolding Typed
IfPresent-Typed defs absent P Q h q = absurd h
IfPresent-Typed defs e P Q h q = q

pub type_field-Ensures :
    (defs : ℕ → Option TyDef) (typed : Check Ast) (t : Ty) (e : Ast)
    → Ensures typed (λ e'. Typed defs e')
    → Ensures (type_field typed t e) (λ e'. IfPresent e' (Unit {0}) (Typed defs e' × Fits e' t))
unfolding type_field
type_field-Ensures defs typed t absent h = pure-Ensures absent tt
type_field-Ensures defs typed t e h = Ensures->>= h λ e'.
    Ensures->>= (node_must_equal-Ensures e' t)
      λ _. pure-Ensures e' (λ fits is. IfPresent-Typed defs e' _ _ is (is, fits))

pub finish_else-Ensures :
    (defs : ℕ → Option TyDef) (typed : Check Ast) (t e : Ast)
    → Ensures typed (λ e'. Typed defs e')
    → Ensures
        (finish_else typed t e)
        (λ e'. (u : Ty) → HasType t u → IfPresent e' (Fits t void) (Typed defs e' × Fits e' u))
unfolding finish_else
finish_else-Ensures defs typed t absent h =
    Ensures->>= (node_must_equal-Ensures t void) λ _. pure-Ensures absent (λ fits u has. fits)
finish_else-Ensures defs typed t e h = Ensures->>= h λ e'.
    Ensures->>= (ast_type-Ensures t) λ thenty. Ensures->>= (node_must_equal-Ensures e' thenty) λ _.
      pure-Ensures e' (λ fits has is u has'.
        IfPresent-Typed defs e' _ _ is (is, subst (Fits e') (some→eq (sym has ∙ has')) fits))

pub finish_if-Ensures :
    (defs : ℕ → Option TyDef) (c : Common) (cond t e : Ast)
    → Ensures (finish_if c cond t e) (λ n.
      ((u : Ty) → HasType t u → IfPresent e (Fits t void) (Typed defs e × Fits e u))
      → Typed defs t
      → Fits cond bool
      → Typed defs cond
      → Typed defs n)
unfolding finish_if Typed
finish_if-Ensures defs c cond t e =
    Ensures->>= (ast_type-Ensures t)
      λ u. pure-Ensures _ (λ has other typed fits is. (u, refl, is, fits, typed, has, other u has))

index_must_equal-Ensures : (i : Option Variable) → Ensures (index_must_equal i) (λ u. IndexFits i)
index_must_equal-Ensures none = pure-Ensures _ tt
index_must_equal-Ensures (some v) = type_must_equal-Ensures v.type integer v.location

pub finish_for-Ensures :
    (defs : ℕ → Option TyDef) (c : Common) (v : Variable) (i : Option Variable) (e body : Ast)
    → MayHave void c
    → Ensures (finish_for c v i e body) (λ n. Typed defs body → Typed defs e → Typed defs n)
unfolding finish_for Typed
finish_for-Ensures defs c v i e body h = Ensures->>= (node_must_equal-Ensures e (array v.type)) λ _.
    Ensures->>= (node_must_equal-Ensures body void) λ _.
      Ensures->>= (index_must_equal-Ensures i)
        λ _. pure-Ensures _ (λ fi fb fe tb te. (default_void c h, te, tb, fe, fb, fi))

pub finish_while-Ensures :
    (defs : ℕ → Option TyDef) (c : Common) (e body : Ast)
    → MayHave void c
    → Ensures (finish_while c e body) (λ n. Typed defs body → Typed defs e → Typed defs n)
unfolding finish_while Typed
finish_while-Ensures defs c e body h = Ensures->>= (node_must_equal-Ensures e bool) λ _.
    Ensures->>= (node_must_equal-Ensures body void)
      λ _. pure-Ensures _ (λ fb fe tb te. (default_void c h, te, tb, fe, fb))

pub finish_fn-Ensures :
    (defs : ℕ → Option TyDef) (c : Common) (id : ℕ) (decl : Ast)
    → Ensures (finish_fn c id decl) (λ n. Typed defs decl → Typed defs n)
unfolding finish_fn Typed
finish_fn-Ensures defs c id (fn_decl d v ts vs attributes body p m) =
    pure-Ensures _ (λ typed. (v.type, refl, typed, refl))
finish_fn-Ensures defs c id decl = stop-Ensures

body_must_equal-Ensures :
    (body : Ast) (t : Ty) → Ensures (body_must_equal body t) (λ u. BodyFits body t)
unfolding body_must_equal
body_must_equal-Ensures body (function args void v) = pure-Ensures _ tt
body_must_equal-Ensures body (function args ret v) = node_must_equal-Ensures body ret
body_must_equal-Ensures body t = stop-Ensures

pub type_fn_body-Ensures :
    (defs : ℕ → Option TyDef) (typed : Check Ast) (v : Variable) (body : Ast)
    → Ensures typed (λ e. Typed defs e)
    → Ensures
        (type_fn_body typed v body)
        (λ e. IfPresent e (type_known v.type ≡ true) (Typed defs e × BodyFits e v.type))
unfolding type_fn_body
type_fn_body-Ensures defs typed v absent h =
    Ensures->>= (if_verifying-Ensures (type_must_know-Ensures v.type v.location))
      λ _. pure-Ensures absent (λ known. known)
type_fn_body-Ensures defs typed v body h = Ensures->>= h λ e.
    Ensures->>= (body_must_equal-Ensures e v.type)
      λ _. pure-Ensures e (λ fits is. IfPresent-Typed defs e _ _ is (is, fits))

pub finish_var_decl-Ensures :
    (defs : ℕ → Option TyDef) (c : Common) (v : Variable) (e : Ast)
    → MayHave void c
    → Ensures (finish_var_decl c v e) (λ n. Typed defs e → Typed defs n)
unfolding finish_var_decl Typed
finish_var_decl-Ensures defs c v e h =
    Ensures->>= (node_must_equal-Ensures e v.type)
      λ _. pure-Ensures _ (λ fits typed. (default_void c h, typed, fits))
