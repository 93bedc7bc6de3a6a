-- ===== src/Check/Labels.antt =====
-- The types that the nodes of a tree may have when compiler/typecheck.cpp comes to it: the parser
-- gives none, and a pass of the checker gives these.
use aike.Base.{◌≡◌, none, some, ◌⊎◌, inl, inr}
use aike.Types.Syntax.{Ty, void, bool, integer, float, string}
use aike.Tree.Ast.{
  Ast, Asts, Common, FieldInits, FieldDecls, literal_void, literal_bool, literal_integer,
  literal_float, literal_string, literal_tuple, literal_array, literal_struct, ident, member, block,
  module_, call, unary, binary, index, assign, if_, for_, while, fn, llvm, fn_decl, var_decl,
  ty_decl, import_, absent, no_inits, init, no_fields, field,
}
use aike.Check.Literals.{type_or}

-- The node has no type or this one.
abbrev pub MayHave : Ty → Common → Type 0
MayHave t c = (c.type ≡ none) ⊎ (c.type ≡ some t)

pub type_or-MayHave : (t : Ty) (c : Common) → MayHave t c → type_or c.type t ≡ t
type_or-MayHave t c (inl h) = rw h
type_or-MayHave t c (inr h) = rw h

-- Literals have no type or that of their kind, statements and declarations none or void.
unfoldable mutual
  pub IsLabelled : Ast → Type 0
  IsLabelled (literal_void c) = MayHave void c
  IsLabelled (literal_bool c _) = MayHave bool c
  IsLabelled (literal_integer c _) = MayHave integer c
  IsLabelled (literal_float c _) = MayHave float c
  IsLabelled (literal_string c _) = MayHave string c
  IsLabelled (literal_tuple _ as_) = AllLabelled as_
  IsLabelled (literal_array _ as_) = AllLabelled as_
  IsLabelled (literal_struct _ _ fs) = InitsLabelled fs
  IsLabelled (ident _ _ _ _ _) = Unit {0}
  IsLabelled (member _ e _) = IsLabelled e
  IsLabelled (block _ as_) = AllLabelled as_
  IsLabelled (module_ _ _ body _) = IsLabelled body
  IsLabelled (call _ e as_) = IsLabelled e × AllLabelled as_
  IsLabelled (unary _ _ e) = IsLabelled e
  IsLabelled (binary _ _ l r) = IsLabelled l × IsLabelled r
  IsLabelled (index _ e i) = IsLabelled e × IsLabelled i
  IsLabelled (assign c l r) = MayHave void c × IsLabelled l × IsLabelled r
  IsLabelled (if_ _ cond t e) = IsLabelled cond × IsLabelled t × IsLabelled e
  IsLabelled (for_ c _ _ e body) = MayHave void c × IsLabelled e × IsLabelled body
  IsLabelled (while c e body) = MayHave void c × IsLabelled e × IsLabelled body
  IsLabelled (fn _ _ decl) = IsLabelled decl
  IsLabelled (llvm _ _) = Unit {0}
  IsLabelled (fn_decl c _ _ _ _ body _ _) = MayHave void c × IsLabelled body
  IsLabelled (var_decl c _ e) = MayHave void c × IsLabelled e
  IsLabelled (ty_decl c _ _ fs) = MayHave void c × DeclsLabelled fs
  IsLabelled (import_ c _) = MayHave void c
  IsLabelled absent = Unit {0}

  pub AllLabelled : Asts → Type 0
  AllLabelled Asts.nil = Unit {0}
  AllLabelled (Asts.cons a as_) = IsLabelled a × AllLabelled as_

  pub InitsLabelled : FieldInits → Type 0
  InitsLabelled no_inits = Unit {0}
  InitsLabelled (init _ e fs) = IsLabelled e × InitsLabelled fs

  pub DeclsLabelled : FieldDecls → Type 0
  DeclsLabelled no_fields = Unit {0}
  DeclsLabelled (field _ e fs) = IsLabelled e × DeclsLabelled fs
