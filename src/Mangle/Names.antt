-- ===== src/Mangle/Names.antt =====
-- compiler/type.cpp: typeName, the text of a type in messages.
use aike.Base.{Bool, true, false, [], ◌++◌, Bytes}
use aike.Types.Syntax.{
  Ty, Tys, unknown, void, bool, integer, float, string, tuple, array, pointer, function, inst,
  generic, nil, cons,
}
use aike.Mangle.Text.{codes}

-- `...` behind the arguments of a function.
abbrev pub varargs_text : Tys → Bool → Bytes
varargs_text ts false = []
varargs_text nil true = codes "..."
varargs_text (cons _ _) true = codes ", ..."

-- Nothing for a function that returns void.
abbrev pub ret_text : Ty → Bytes → Bytes
ret_text void text = []
ret_text _ text = codes ": " ++ text

abbrev pub in_angles : Tys → Bytes → Bytes
in_angles nil text = []
in_angles (cons _ _) text = codes "<" ++ (text ++ codes ">")

unfoldable mutual
  pub type_name : Ty → Bytes
  type_name (unknown _) = codes "_"
  type_name void = codes "void"
  type_name bool = codes "bool"
  type_name integer = codes "int"
  type_name float = codes "float"
  type_name string = codes "string"
  type_name (tuple ts) = codes "(" ++ (type_names ts ++ codes ")")
  type_name (array t) = codes "[" ++ (type_name t ++ codes "]")
  type_name (pointer t) = codes "*" ++ type_name t
  type_name (function args ret varargs) =
      codes "fn("
      ++ (type_names args
          ++ (varargs_text args varargs ++ (codes ")" ++ ret_text ret (type_name ret))))
  type_name (inst name _ ts _ _) = name ++ in_angles ts (type_names ts)
  type_name (generic _ name _) = name

  pub type_names : Tys → Bytes
  type_names nil = []
  type_names (cons t ts) = type_name t ++ more_names ts

  -- The types from the second on, each behind a comma.
  pub more_names : Tys → Bytes
  more_names nil = []
  more_names (cons t ts) = codes ", " ++ (type_name t ++ more_names ts)
