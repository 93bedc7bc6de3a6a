-- ===== src/Tree/Ast.antt =====
-- compiler/ast.hpp: the nodes. Nodes own their children; a Variable, a definition, a parent or a
-- module is the address of what the node points to. A null pointer to a child is `absent`.
use aike.Base.{ℕ, Bool, List, Option, Bytes}
use aike.Types.Syntax.{Ty, Location}
use aike.Resolve.Members.{Variable}

pub data UnaryOp : Type 0 where
  plus minus not deref new : UnaryOp

pub data BinaryOp : Type 0 where
  add_wrap subtract_wrap multiply_wrap add subtract multiply divide modulo : BinaryOp
  less less_equal greater greater_equal equal not_equal and or : BinaryOp

-- `index` is -1 or a position: `none` or `some`.
pub record FieldRef : Type 0 where
  pub name : Bytes
  pub location : Location
  pub index : Option ℕ

-- The fields that every node has; the type is null until it is known.
pub record Common : Type 0 where
  pub type : Option Ty
  pub location : Location

-- A field of a struct definition, whose initializer is one of the node's children.
pub record FieldDecl : Type 0 where
  pub name : Bytes
  pub location : Location
  pub type : Ty

-- A number is the pattern of its bits.
mutual
  pub data Ast : Type 0 where
    literal_void : Common → Ast
    literal_bool : Common → Bool → Ast
    literal_integer : Common → ℕ → Ast
    literal_float : Common → ℕ → Ast
    literal_string : Common → Bytes → Ast
    literal_tuple : Common → Asts → Ast
    literal_array : Common → Asts → Ast
    literal_struct : Common → Bytes → FieldInits → Ast
    ident : Common → Bytes → List Ty → List Variable → Bool → Ast
    member : Common → Ast → FieldRef → Ast
    block : Common → Asts → Ast
    module_ : Common → Bytes → Ast → List Bytes → Ast
    call : Common → Ast → Asts → Ast
    unary : Common → UnaryOp → Ast → Ast
    binary : Common → BinaryOp → Ast → Ast → Ast
    index : Common → Ast → Ast → Ast
    assign : Common → Ast → Ast → Ast
    if_ : Common → Ast → Ast → Ast → Ast
    for_ : Common → Variable → Option Variable → Ast → Ast → Ast
    while : Common → Ast → Ast → Ast
    fn : Common → ℕ → Ast → Ast
    llvm : Common → Bytes → Ast
    fn_decl : Common → Variable → List Ty → List Variable → ℕ → Ast → Option ℕ → Option ℕ → Ast
    var_decl : Common → Variable → Ast → Ast
    ty_decl : Common → Bytes → List Ty → FieldDecls → Ast
    import_ : Common → Bytes → Ast
    absent : Ast

  pub data Asts : Type 0 where
    nil : Asts
    cons : Ast → Asts → Asts

  pub data FieldInits : Type 0 where
    no_inits : FieldInits
    init : FieldRef → Ast → FieldInits → FieldInits

  pub data FieldDecls : Type 0 where
    no_fields : FieldDecls
    field : FieldDecl → Ast → FieldDecls → FieldDecls
