-- ===== src/Types/Syntax.antt =====
-- compiler/type.hpp: the type nodes, the definitions they name, and the source locations they hold.
-- A pointer is a number. Unknown and Generic nodes are told apart by their address, which the
-- constructor carries; every other node is its content.
use aike.Base.{ℕ, suc, Bool, true, false, List, Option, Bytes, ◌==◌}

pub record Location : Type 0 where
  pub source : Bytes
  pub line : ℕ
  pub column : ℕ
  pub offset : ℕ
  pub length : ℕ

-- UD_TY. `inst` is Instance: its `def` and `generic` are the pointers that name resolution fills.
mutual
  pub data Ty : Type 0 where
    unknown : ℕ → Ty
    void bool integer float string : Ty
    tuple : Tys → Ty
    array : Ty → Ty
    pointer : Ty → Ty
    function : Tys → Ty → Bool → Ty
    inst : Bytes → Location → Tys → Option ℕ → Option ℕ → Ty
    generic : ℕ → Bytes → Location → Ty

  -- Arr<Ty*>
  pub data Tys : Type 0 where
    nil : Tys
    cons : Ty → Tys → Tys

-- StructField; `expr` is the address of the default initializer.
pub record StructField : Type 0 where
  pub name : Bytes
  pub location : Location
  pub type : Ty
  pub expr : Option ℕ

-- TyDef::Struct. The type arguments are Generic nodes, given by their addresses.
pub record TyDef : Type 0 where
  pub tyargs : List ℕ
  pub fields : List StructField

abbrev pub size : Tys → ℕ
size nil = 0
size (cons _ ts) = suc (size ts)

-- `lhs == rhs` on pointers: Unknown and Generic nodes carry their addresses. Other nodes carry none, and
-- are compared by their parts instead, which gives the same answer where each Instance among them
-- points to a definition or to a generic.
abbrev pub same_node : Ty → Ty → Bool
same_node (unknown i) (unknown j) = i == j
same_node (generic i _ _) (generic j _ _) = i == j
same_node _ _ = false

abbrev pub is_unknown : Ty → Bool
is_unknown (unknown _) = true
is_unknown _ = false
