-- ===== src/Check/Typing.antt =====
-- The typing rules of the language, on a tree whose nodes carry their types: what the pass of
-- compiler/typecheck.cpp is to establish.
use aike.Base.{ℕ, suc, Bool, ◌≡◌, true, false, List, [], ◌∷◌, Option, none, some, ◌⊎◌, length}
use aike.Types.Syntax.{
  Ty, Tys, TyDef, StructField, void, bool, integer, float, string, tuple, array, pointer, function,
  inst, nil, cons,
}
use aike.Types.Traverse.{type_known, type_member, found}
use aike.Types.Unify.{yes, type_equals}
use aike.Resolve.Members.{Variable, is_argument_count_valid}
use aike.Tree.Ast.{
  Ast, Asts, Common, FieldInits, FieldDecls, UnaryOp, BinaryOp, and, or, deref, new, literal_void,
  literal_bool, literal_integer, literal_float, literal_string, literal_tuple, literal_array,
  literal_struct, ident, member, block, module_, call, unary, binary, index, assign, if_, for_,
  while, fn, llvm, fn_decl, var_decl, ty_decl, import_, absent, no_inits, init, no_fields, field,
}
use aike.Tree.Visit.{ast_common, visit_ast_types}
use aike.Check.State.{type_in}
use aike.Check.Literals.{count, is_marked, def_at}
use aike.Check.Operators.{is_assignable}

-- The node has this type.
abbrev pub HasType : Ast → Ty → Type 0
HasType n t = type_in (ast_common n) ≡ some t

-- The types are equal, and the first one is known.
abbrev pub Agrees : Ty → Ty → Type 0
Agrees t u = (type_equals t u ≡ yes) × (type_known t ≡ true)

-- The node has a type that is known and equal to this one.
abbrev pub Fits : Ast → Ty → Type 0
Fits n u = (t : Ty) × HasType n t × Agrees t u

-- An argument for each parameter, that fits it; behind them there may be more.
unfoldable pub ArgumentsFit : Asts → Tys → Type 0
ArgumentsFit as_ nil = Unit {0}
ArgumentsFit Asts.nil (cons t ts) = ⊥
ArgumentsFit (Asts.cons a as_) (cons t ts) = Fits a t × ArgumentsFit as_ ts

-- The type of the last node, or void.
unfoldable pub LastHasType : Asts → Ty → Type 0
LastHasType Asts.nil t = t ≡ void
LastHasType (Asts.cons a Asts.nil) t = HasType a t
LastHasType (Asts.cons a (Asts.cons b as_)) t = LastHasType (Asts.cons b as_) t

abbrev pub Initializes : (ℕ → Option TyDef) → Ty → Option ℕ → Ast → Type 0
Initializes defs t none e = Unit {0}
Initializes defs t (some i) e = (u : Ty) × (type_member defs t i ≡ found u) × Fits e u

-- The operand and the result of a unary operator.
abbrev pub UnaryTypes : UnaryOp → Ast → Ty → Type 0
UnaryTypes UnaryOp.not e t = Fits e bool × (t ≡ bool)
UnaryTypes deref e t = HasType e (pointer t)
UnaryTypes new e t = (u : Ty) × HasType e u × (t ≡ pointer u)
UnaryTypes _ e t = ⊥

-- The operators that are left in the tree: the parser makes calls of the others.
abbrev pub IsLogical : BinaryOp → Type 0
IsLogical and = Unit {0}
IsLogical or = Unit {0}
IsLogical _ = ⊥

abbrev pub IndexFits : Option Variable → Type 0
IndexFits none = Unit {0}
IndexFits (some v) = Agrees v.type integer

abbrev pub BodyFits : Ast → Ty → Type 0
BodyFits body (function _ void _) = Unit {0}
BodyFits body (function _ ret _) = Fits body ret
BodyFits body t = ⊥

abbrev pub OnePlace : List Variable → Type 0
OnePlace targets = length targets ≡ 1

abbrev pub AllKnown : List Ty → Type 0
AllKnown [] = Unit {0}
AllKnown (t ∷ ts) = (type_known t ≡ true) × AllKnown ts

-- The type of the callee is a function, whose parameters the arguments fit.
abbrev pub CallTypes : Ast → Asts → Ty → Type 0
CallTypes e as_ t =
    (params : Tys) × (varargs : Bool) × HasType e (function params t varargs)
    × (is_argument_count_valid params varargs (count as_) ≡ true)
    × ArgumentsFit as_ params

-- The declaration is one of a function of this type.
abbrev pub Declares : Ast → Ty → Type 0
Declares (fn_decl _ v _ _ _ _ _ _) t = v.type ≡ t
Declares _ t = ⊥

-- The initializers name fields by their indices, no two the same one; `m` are those before them.
unfoldable pub Marks : FieldInits → List ℕ → List ℕ → Type 0
Marks no_inits m m' = m ≡ m'
Marks (init f _ fs) m m' =
    (i : ℕ) × (f.index ≡ some i) × (is_marked m i ≡ false) × Marks fs (i ∷ m) m'

-- Each field from index `i` on is among the marked ones or has an initializer of its own.
unfoldable pub AllInitialized : List StructField → ℕ → List ℕ → Type 0
AllInitialized [] i m = Unit {0}
AllInitialized (f ∷ fs) i m =
    ((is_marked m i ≡ true) ⊎ ((e : ℕ) × (f.expr ≡ some e))) × AllInitialized fs (suc i) m

-- The type is that of a struct, each of whose fields is initialized, once at most.
unfoldable pub StructIsComplete : (ℕ → Option TyDef) → Ty → FieldInits → Type 0
unfolding Marks AllInitialized
StructIsComplete defs (inst n l args d g) fs =
    (def : TyDef) × (m : List ℕ) × (def_at defs d ≡ some def)
    × Marks fs [] m
    × AllInitialized def.fields 0 m
StructIsComplete defs t fs = ⊥

-- For a part of a node that may be left out.
abbrev pub IfPresent : Ast → Type 0 → Type 0 → Type 0
IfPresent absent left_out present = left_out
IfPresent e left_out present = present

-- The nodes that are typed, with the types of their parts.
unfoldable mutual
  unfolding ArgumentsFit LastHasType StructIsComplete is_assignable

  pub Typed : (ℕ → Option TyDef) → Ast → Type 0
  Typed defs (literal_void c) = c.type ≡ some void
  Typed defs (literal_bool c _) = c.type ≡ some bool
  Typed defs (literal_integer c _) = c.type ≡ some integer
  Typed defs (literal_float c _) = c.type ≡ some float
  Typed defs (literal_string c _) = c.type ≡ some string
  Typed defs (literal_tuple c as_) =
      (ts : Tys) × (c.type ≡ some (tuple ts)) × TupleTyped defs as_ ts
  Typed defs (literal_array c as_) = (t : Ty) × (c.type ≡ some (array t)) × ElementsTyped defs as_ t
  Typed defs (literal_struct c _ fs) =
      (t : Ty) × (c.type ≡ some t) × InitsTyped defs fs t × StructIsComplete defs t fs
  Typed defs (ident c _ ts vs _) = (t : Ty) × (c.type ≡ some t) × (length vs ≡ 1) × AllKnown ts
  Typed defs (member c e f) =
      (i : ℕ) × (u : Ty) × (t : Ty) × Typed defs e
      × (f.index ≡ some i)
      × HasType e u
      × (type_member defs u i ≡ found t)
      × (c.type ≡ some t)
  Typed defs (block c as_) = (t : Ty) × (c.type ≡ some t) × AllTyped defs as_ × LastHasType as_ t
  Typed defs (module_ c _ body _) = (t : Ty) × (c.type ≡ some t) × Typed defs body × HasType body t
  Typed defs (call c e as_) =
      (t : Ty) × (c.type ≡ some t) × Typed defs e × AllTyped defs as_ × CallTypes e as_ t
  Typed defs (unary c op e) = (t : Ty) × (c.type ≡ some t) × Typed defs e × UnaryTypes op e t
  Typed defs (binary c op l r) =
      IsLogical op × (c.type ≡ some bool) × Typed defs l × Typed defs r × Fits l bool × Fits r bool
  Typed defs (index c e i) =
      (t : Ty) × (c.type ≡ some t)
      × Typed defs e
      × Typed defs i
      × HasType e (array t)
      × Fits i integer
  Typed defs (assign c l r) =
      (t : Ty) × (c.type ≡ some void)
      × Typed defs l
      × Typed defs r
      × HasType l t
      × Fits r t
      × (is_assignable l ≡ true)
  Typed defs (if_ c cond t e) =
      (u : Ty) × (c.type ≡ some u)
      × Typed defs cond
      × Fits cond bool
      × Typed defs t
      × HasType t u
      × IfPresent e (Fits t void) (Typed defs e × Fits e u)
  Typed defs (for_ c v i e body) =
      (c.type ≡ some void)
      × Typed defs e
      × Typed defs body
      × Fits e (array v.type)
      × Fits body void
      × IndexFits i
  Typed defs (while c e body) =
      (c.type ≡ some void) × Typed defs e × Typed defs body × Fits e bool × Fits body void
  Typed defs (fn c _ decl) = (t : Ty) × (c.type ≡ some t) × Typed defs decl × Declares decl t
  Typed defs (llvm c _) = (t : Ty) × (c.type ≡ some t)
  Typed defs (fn_decl c v _ _ _ body _ _) =
      (c.type ≡ some void)
      × IfPresent body (type_known v.type ≡ true) (Typed defs body × BodyFits body v.type)
  Typed defs (var_decl c v e) = (c.type ≡ some void) × Typed defs e × Fits e v.type
  Typed defs (ty_decl c _ _ fs) = (c.type ≡ some void) × FieldsTyped defs fs
  Typed defs (import_ c _) = c.type ≡ some void
  Typed defs absent = ⊥

  pub AllTyped : (ℕ → Option TyDef) → Asts → Type 0
  AllTyped defs Asts.nil = Unit {0}
  AllTyped defs (Asts.cons a as_) = Typed defs a × AllTyped defs as_

  pub TupleTyped : (ℕ → Option TyDef) → Asts → Tys → Type 0
  TupleTyped defs Asts.nil ts = Unit {0}
  TupleTyped defs (Asts.cons a as_) nil = ⊥
  TupleTyped defs (Asts.cons a as_) (cons t ts) = Typed defs a × Fits a t × TupleTyped defs as_ ts

  pub ElementsTyped : (ℕ → Option TyDef) → Asts → Ty → Type 0
  ElementsTyped defs Asts.nil t = Unit {0}
  ElementsTyped defs (Asts.cons a as_) t = Typed defs a × Fits a t × ElementsTyped defs as_ t

  pub InitsTyped : (ℕ → Option TyDef) → FieldInits → Ty → Type 0
  InitsTyped defs no_inits t = Unit {0}
  InitsTyped defs (init f e fs) t =
      Typed defs e × Initializes defs t f.index e × InitsTyped defs fs t

  pub FieldsTyped : (ℕ → Option TyDef) → FieldDecls → Type 0
  FieldsTyped defs no_fields = Unit {0}
  FieldsTyped defs (field f e fs) =
      IfPresent e (Unit {0}) (Typed defs e × Fits e f.type) × FieldsTyped defs fs

abbrev pub IsPresent : Ast → Type 0
IsPresent n = (c : Common) × (ast_common n ≡ some c)

-- Each of the nodes is there, and every type that it holds is known.
unfoldable pub NodesKnown : List Ast → Type 0
unfolding visit_ast_types
NodesKnown [] = Unit {0}
NodesKnown (n ∷ ns) = IsPresent n × AllKnown (visit_ast_types n) × NodesKnown ns
