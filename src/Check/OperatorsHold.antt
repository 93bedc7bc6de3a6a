-- ===== src/Check/OperatorsHold.antt =====
-- compiler/typecheck.cpp: the rules of typing hold at operators, statements and declarations that are
-- finished with no report.
use aike.Base.{ℕ, ◌≡◌, refl, sym, ◌∙◌, subst, not, Option, some, some→eq}
use aike.Types.Syntax.{Ty, TyDef, void, bool, integer, array, pointer}
use aike.Types.Unify.{yes, type_equals}
use aike.Tree.Ast.{Ast, Common, UnaryOp, BinaryOp, deref, new, and, or}
use aike.Check.State.{not_assignable}
use aike.Check.Literals.{default_type}
use aike.Check.Labels.{MayHave, type_or-MayHave}
use aike.Check.Operators.{
  type_of_deref, type_of_unary, finish_unary, both_bool, finish_binary, type_of_index, finish_index,
  is_assignable, finish_assign,
}
use aike.Check.Typing.{HasType, Fits, UnaryTypes, IsLogical, Typed}
use aike.Check.Ensures.{
  Ensures, Ensures->>=, Ensures-mono, pure-Ensures, stop-Ensures, fresh-Ensures, report_if-Ensures,
  if_verifying-Ensures, ast_type-Ensures, node_must_equal-Ensures, not_false,
}

-- A statement has no type or void before it is finished, and void behind.
pub default_void : (c : Common) → MayHave void c → (default_type void c).type ≡ some void
default_void c h = rw (type_or-MayHave void c h)

equals_pointer : (t u : Ty) → type_equals t (pointer u) ≡ yes → (v : Ty) × (t ≡ pointer v)
unfolding type_equals
equals_pointer (pointer v) u h = (v, refl)
equals_pointer t u h = cc

equals_array : (t u : Ty) → type_equals t (array u) ≡ yes → (v : Ty) × (t ≡ array v)
unfolding type_equals
equals_array (array v) u h = (v, refl)
equals_array t u h = cc

-- The type of a node that fits.
same_type : (e : Ast) (t u : Ty) → Fits e u → HasType e t → type_equals t u ≡ yes
same_type e t u (t', has, agrees) h =
    subst (λ v. type_equals v u ≡ yes) (some→eq (sym has ∙ h)) agrees.0

type_of_deref-Ensures :
    (e : Ast) (t : Ty) → Ensures (type_of_deref e t) (λ u. HasType e t → HasType e (pointer u))
unfolding type_of_deref
type_of_deref-Ensures e (pointer t) = pure-Ensures t (λ has. has)
type_of_deref-Ensures e t = Ensures->>= fresh-Ensures λ u.
    Ensures->>= (node_must_equal-Ensures e (pointer u)) λ _.
      pure-Ensures u
        (λ fits _ has. let (v, eq) = equals_pointer t u (same_type e t (pointer u) fits has) in cc)

type_of_unary-Ensures :
    (op : UnaryOp) (e : Ast) → Ensures (type_of_unary op e) (λ t. UnaryTypes op e t)
unfolding type_of_unary
type_of_unary-Ensures UnaryOp.not e =
    Ensures->>= (node_must_equal-Ensures e bool) λ _. pure-Ensures bool (λ fits. (fits, refl))
type_of_unary-Ensures deref e =
    Ensures->>= (ast_type-Ensures e)
      λ t. Ensures-mono (type_of_deref-Ensures e t) (λ u h has. h has)
type_of_unary-Ensures new e =
    Ensures->>= (ast_type-Ensures e) λ t. pure-Ensures (pointer t) (λ has. (t, has, refl))
type_of_unary-Ensures op e = stop-Ensures

pub finish_unary-Ensures :
    (defs : ℕ → Option TyDef) (c : Common) (op : UnaryOp) (e : Ast)
    → Ensures (finish_unary c op e) (λ n. Typed defs e → Typed defs n)
unfolding finish_unary Typed
finish_unary-Ensures defs c op e =
    Ensures->>= (type_of_unary-Ensures op e)
      λ t. pure-Ensures _ (λ types typed. (t, refl, typed, types))

both_bool-Ensures :
    (defs : ℕ → Option TyDef) (c : Common) (op : BinaryOp) (l r : Ast)
    → IsLogical op
    → Ensures (both_bool c op l r) (λ n. Typed defs l → Typed defs r → Typed defs n)
unfolding both_bool Typed
both_bool-Ensures defs c op l r logical = Ensures->>= (node_must_equal-Ensures l bool) λ _.
    Ensures->>= (node_must_equal-Ensures r bool)
      λ _. pure-Ensures _ (λ fr fl tl tr. (logical, refl, tl, tr, fl, fr))

pub finish_binary-Ensures :
    (defs : ℕ → Option TyDef) (c : Common) (op : BinaryOp) (l r : Ast)
    → Ensures (finish_binary c op l r) (λ n. Typed defs l → Typed defs r → Typed defs n)
unfolding finish_binary
finish_binary-Ensures defs c and l r = both_bool-Ensures defs c and l r tt
finish_binary-Ensures defs c or l r = both_bool-Ensures defs c or l r tt
finish_binary-Ensures defs c op l r = stop-Ensures

type_of_index-Ensures :
    (e : Ast) (t : Ty) → Ensures (type_of_index e t) (λ u. HasType e t → HasType e (array u))
unfolding type_of_index
type_of_index-Ensures e (array t) = pure-Ensures t (λ has. has)
type_of_index-Ensures e t = Ensures->>= fresh-Ensures λ u.
    Ensures->>= (node_must_equal-Ensures e (array u)) λ _.
      pure-Ensures u
        (λ fits _ has. let (v, eq) = equals_array t u (same_type e t (array u) fits has) in cc)

pub finish_index-Ensures :
    (defs : ℕ → Option TyDef) (c : Common) (e i : Ast)
    → Ensures (finish_index c e i) (λ n. Typed defs e → Typed defs i → Typed defs n)
unfolding finish_index Typed
finish_index-Ensures defs c e i = Ensures->>= (node_must_equal-Ensures i integer) λ _.
    Ensures->>= (ast_type-Ensures e) λ t.
      Ensures->>= (type_of_index-Ensures e t)
        λ u. pure-Ensures _ (λ is has fits te ti. (u, refl, te, ti, is has, fits))

pub finish_assign-Ensures :
    (defs : ℕ → Option TyDef) (c : Common) (l r : Ast)
    → MayHave void c
    → Ensures (finish_assign c l r) (λ n. Typed defs l → Typed defs r → Typed defs n)
unfolding finish_assign Typed
finish_assign-Ensures defs c l r h = Ensures->>= (ast_type-Ensures l) λ t.
    Ensures->>= (node_must_equal-Ensures r t) λ _.
      Ensures->>=
        (if_verifying-Ensures (report_if-Ensures (not (is_assignable l)) not_assignable c.location))
        λ _. pure-Ensures _ (λ can fits has tl tr.
          (t, default_void c h, tl, tr, has, fits, not_false (is_assignable l) can))
