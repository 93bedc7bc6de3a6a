-- ===== src/Tree/Within.antt =====
-- compiler/ast.hpp: the nodes of a tree, as its children and theirs.
use aike.Base.{ℕ, ◌≢◌, List, Option, Bytes}
use aike.Types.Syntax.{Ty}
use aike.Resolve.Members.{Variable}
use aike.Tree.Ast.{
  Common, Ast, Asts, FieldInits, FieldDecls, FieldRef, FieldDecl, UnaryOp, BinaryOp, literal_tuple,
  literal_array, literal_struct, member, block, module_, call, unary, binary, index, assign, if_,
  for_, while, fn, fn_decl, var_decl, ty_decl, absent, cons, init, field,
}

pub data IsOneOf : Ast → Asts → Type 0 where
  first : {a : Ast} {as_ : Asts} → IsOneOf a (cons a as_)
  later : {a b : Ast} {as_ : Asts} → IsOneOf a as_ → IsOneOf a (cons b as_)

-- The initializer of a field of a literal.
pub data IsInit : Ast → FieldInits → Type 0 where
  first_init : {a : Ast} {f : FieldRef} {fs : FieldInits} → IsInit a (init f a fs)
  later_init : {a b : Ast} {f : FieldRef} {fs : FieldInits} → IsInit a fs → IsInit a (init f b fs)

-- The default of a field of a declaration.
pub data IsDefault : Ast → FieldDecls → Type 0 where
  first_field : {a : Ast} {f : FieldDecl} {fs : FieldDecls} → IsDefault a (field f a fs)
  later_field :
      {a b : Ast} {f : FieldDecl} {fs : FieldDecls} → IsDefault a fs → IsDefault a (field f b fs)

-- The first node is a child of the second.
pub data IsChild : Ast → Ast → Type 0 where
  tuple_part : {e : Ast} {c : Common} {as_ : Asts} → IsOneOf e as_ → IsChild e (literal_tuple c as_)
  array_part : {e : Ast} {c : Common} {as_ : Asts} → IsOneOf e as_ → IsChild e (literal_array c as_)
  struct_part :
      {e : Ast} {c : Common} {n : Bytes} {fs : FieldInits}
      → IsInit e fs
      → IsChild e (literal_struct c n fs)
  member_part : {c : Common} {a : Ast} {f : FieldRef} → IsChild a (member c a f)
  block_part : {e : Ast} {c : Common} {as_ : Asts} → IsOneOf e as_ → IsChild e (block c as_)
  module_part : {c : Common} {n : Bytes} {a : Ast} {is : List Bytes} → IsChild a (module_ c n a is)
  callee : {c : Common} {a : Ast} {as_ : Asts} → IsChild a (call c a as_)
  call_argument :
      {e : Ast} {c : Common} {a : Ast} {as_ : Asts} → IsOneOf e as_ → IsChild e (call c a as_)
  unary_part : {c : Common} {op : UnaryOp} {a : Ast} → IsChild a (unary c op a)
  binary_left : {c : Common} {op : BinaryOp} {a : Ast} {b : Ast} → IsChild a (binary c op a b)
  binary_right : {c : Common} {op : BinaryOp} {a : Ast} {b : Ast} → IsChild b (binary c op a b)
  indexed : {c : Common} {a : Ast} {b : Ast} → IsChild a (index c a b)
  index_part : {c : Common} {a : Ast} {b : Ast} → IsChild b (index c a b)
  assign_left : {c : Common} {a : Ast} {b : Ast} → IsChild a (assign c a b)
  assign_right : {c : Common} {a : Ast} {b : Ast} → IsChild b (assign c a b)
  if_condition : {c : Common} {a : Ast} {b : Ast} {d : Ast} → IsChild a (if_ c a b d)
  if_then : {c : Common} {a : Ast} {b : Ast} {d : Ast} → IsChild b (if_ c a b d)
  if_else : {c : Common} {a : Ast} {b : Ast} {d : Ast} → IsChild d (if_ c a b d)
  for_range :
      {c : Common} {v : Variable} {i : Option Variable} {a : Ast} {b : Ast}
      → IsChild a (for_ c v i a b)
  for_body :
      {c : Common} {v : Variable} {i : Option Variable} {a : Ast} {b : Ast}
      → IsChild b (for_ c v i a b)
  while_condition : {c : Common} {a : Ast} {b : Ast} → IsChild a (while c a b)
  while_body : {c : Common} {a : Ast} {b : Ast} → IsChild b (while c a b)
  fn_decl_body :
      {c : Common} {v : Variable} {ts : List Ty} {vs : List Variable} {k : ℕ} {a : Ast}
      {p : Option ℕ} {m : Option ℕ}
      → IsChild a (fn_decl c v ts vs k a p m)
  fn_part : {c : Common} {i : ℕ} {a : Ast} → IsChild a (fn c i a)
  var_decl_part : {c : Common} {v : Variable} {a : Ast} → IsChild a (var_decl c v a)
  ty_decl_part :
      {e : Ast} {c : Common} {n : Bytes} {ts : List Ty} {fs : FieldDecls}
      → IsDefault e fs
      → IsChild e (ty_decl c n ts fs)

-- The node stands in the tree: it is the root, and no null pointer, or stands below a child of the root.
pub data IsWithin : Ast → Ast → Type 0 where
  root : {a : Ast} → a ≢ absent → IsWithin a a
  below : {n a b : Ast} → IsChild a b → IsWithin n a → IsWithin n b
