-- ===== src/Parse/Operators.antt =====
-- compiler/parse.cpp: parseUnaryOp, parseBinaryOp and the lowering of operators. A null `opname` is
-- `none`.
use Prim.Native.String.{String}
use aike.Base.{ℕ, false, [], Option, none, some, Bytes, if◌then◌else◌}
use aike.Types.Syntax.{Location}
use aike.Mangle.Text.{codes}
use aike.Tokenize.Defs.{atom, ident}
use aike.Tree.Ast.{
  Ast, Asts, UnaryOp, BinaryOp, plus, minus, not, deref, new, add_wrap, subtract_wrap,
  multiply_wrap, add, subtract, multiply, divide, modulo, less, less_equal, greater, greater_equal,
  equal, not_equal, and, or, unary, binary, call,
}
use aike.Parse.Stream.{TokenStream, is_text}
use aike.Parse.Layout.{untyped}

pub record OpDef (Op : Type 0) : Type 0 where
  pub priority : ℕ
  pub op : Op
  pub opname : Option Bytes

abbrev named : {Op : Type 0} → ℕ → Op → String → OpDef Op
named p o n = record { priority = p; op = o; opname = some (codes n) }

abbrev unnamed : {Op : Type 0} → ℕ → Op → OpDef Op
unnamed p o = record { priority = p; op = o; opname = none }

unfoldable pub parse_unary_op : TokenStream → OpDef UnaryOp
unfolding is_text
parse_unary_op s =
    if is_text atom (codes "+") s
    then named 1 plus "operatorPlus"
    else if is_text atom (codes "-") s
    then named 1 minus "operatorMinus"
    else if is_text ident (codes "not") s
    then unnamed 1 not
    else if is_text atom (codes "*") s
    then unnamed 1 deref
    else if is_text ident (codes "new") s
    then unnamed 1 new
    else unnamed 0 not

unfoldable pub parse_binary_op : TokenStream → OpDef BinaryOp
unfolding is_text
parse_binary_op s =
    if is_text atom (codes "*%") s
    then named 7 multiply_wrap "operatorMultiplyWrap"
    else if is_text atom (codes "*") s
    then named 7 multiply "operatorMultiply"
    else if is_text atom (codes "/") s
    then named 7 divide "operatorDivide"
    else if is_text atom (codes "%") s
    then named 7 modulo "operatorModulo"
    else if is_text atom (codes "+%") s
    then named 6 add_wrap "operatorAddWrap"
    else if is_text atom (codes "+") s
    then named 6 add "operatorAdd"
    else if is_text atom (codes "-%") s
    then named 6 subtract_wrap "operatorSubtractWrap"
    else if is_text atom (codes "-") s
    then named 6 subtract "operatorSubtract"
    else if is_text atom (codes "<") s
    then named 5 less "operatorLess"
    else if is_text atom (codes "<=") s
    then named 5 less_equal "operatorLessEqual"
    else if is_text atom (codes ">") s
    then named 5 greater "operatorGreater"
    else if is_text atom (codes ">=") s
    then named 5 greater_equal "operatorGreaterEqual"
    else if is_text atom (codes "==") s
    then named 4 equal "operatorEqual"
    else if is_text atom (codes "!=") s
    then named 4 not_equal "operatorNotEqual"
    else if is_text ident (codes "and") s
    then unnamed 3 and
    else if is_text ident (codes "or") s
    then unnamed 2 or
    else unnamed 0 or

abbrev pub ident_at : Location → Bytes → Ast
ident_at l n = Ast.ident (untyped l) n [] [] false

unfoldable pub lower_unary_op : OpDef UnaryOp → Ast → Location → Ast
lower_unary_op def expr l = elim def.opname [
  | some n ↦ call (untyped l) (ident_at l n) (Asts.cons expr Asts.nil)
  | none ↦ unary (untyped l) def.op expr
]

unfoldable pub lower_binary_op : OpDef BinaryOp → Ast → Ast → Location → Ast
lower_binary_op def left right l = elim def.opname [
  | some n ↦ call (untyped l) (ident_at l n) (Asts.cons left (Asts.cons right Asts.nil))
  | none ↦ binary (untyped l) def.op left right
]
