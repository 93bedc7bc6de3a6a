-- ===== src/Parse/Statements.antt =====
-- compiler/parse.cpp: the declarations and the statements that start with a keyword, and parseAssign.
-- `expr` is parseExpr.
use aike.Base.{
  ℕ, zero, suc, ◌+◌, Bool, true, false, ◌&&◌, List, [], ◌∷◌, ◌++◌, Option, none, some, Bytes,
  if◌then◌else◌, ◌==◌,
}
use aike.Types.Syntax.{Ty, Location}
use aike.Types.Content.{nowhere}
use aike.Mangle.Text.{codes}
use aike.Tokenize.Defs.{atom, ident, string, line, Token}
use aike.Resolve.Members.{Variable, VariableKind, variable, value}
use aike.Tree.Ast.{Ast, FieldDecl, FieldDecls, assign, if_, for_, while, llvm, absent}
use aike.Parse.Stream.{
  TokenStream, Parser, ok, out_of_fuel, ◌>>=◌, ◌>>◌, pure, ask, here, fail, fresh, get, is_text,
  move, eat, eat_text, get_line_indent, span, expected_indentation, rounds,
}
use aike.Parse.Types.{
  parse_type, parse_type_signature, parse_type_ascription, parse_fn_signature, parse_unknown,
}
use aike.Parse.Layout.{untyped, parse_indent, parse_block, parse_block_expr}

unfoldable pub parse_assign : Parser Ast → Ast → Parser Ast
unfolding eat_text
parse_assign expr target = do
  l ← here
  eat_text atom (codes "=")
  e ← expr
  pure (assign (untyped l) target e)

unfoldable pub check_else : Location → Parser (Unit {0})
unfolding get_line_indent
check_else start = do
  if_indent ← get_line_indent start
  l ← here
  else_indent ← get_line_indent l
  if if_indent == else_indent then pure tt else fail (expected_indentation if_indent else_indent)

unfoldable pub parse_else : Parser Ast → Location → Parser Ast
unfolding is_text check_else eat parse_block_expr
parse_else expr start s =
    if is_text ident (codes "else") s
    then (do check_else start; _ ← eat ident; parse_block_expr expr start) s
    else ok (absent, s)

unfoldable pub parse_if : Parser Ast → Parser Ast
unfolding eat_text parse_block_expr parse_else
parse_if expr = do
  start ← here
  eat_text ident (codes "if")
  test ← expr
  body ← parse_block_expr expr start
  other ← parse_else expr start
  pure (if_ (untyped start) test body other)

abbrev pub variable_at : VariableKind → Token → Ty → Variable
variable_at kind t type = record {
  kind = kind;
  name = t.data_of.bytes;
  type = type;
  location = t.location;
  fn = none;
}

unfoldable pub parse_loop_index : Parser (Option Variable)
unfolding is_text move eat parse_unknown
parse_loop_index s =
    if is_text atom (codes ",") s
    then (do
      move
      name ← eat ident
      type ← parse_unknown
      pure (some (variable_at value name type)))
        s
    else ok (none, s)

unfoldable pub parse_for : Parser Ast → Parser Ast
unfolding eat_text eat parse_unknown parse_loop_index parse_block_expr
parse_for expr = do
  start ← here
  eat_text ident (codes "for")
  name ← eat ident
  type ← parse_unknown
  i ← parse_loop_index
  eat_text ident (codes "in")
  e ← expr
  body ← parse_block_expr expr start
  pure (for_ (untyped start) (variable_at variable name type) i e body)

unfoldable pub parse_while : Parser Ast → Parser Ast
unfolding eat_text parse_block_expr
parse_while expr = do
  start ← here
  eat_text ident (codes "while")
  e ← expr
  body ← parse_block_expr expr start
  pure (while (untyped start) e body)

abbrev fn_variable : Bytes → Ty → Location → Option ℕ → Variable
fn_variable n t l a = record { kind = VariableKind.fn; name = n; type = t; location = l; fn = a }

unfoldable pub parse_fn : Parser Ast → Parser Ast
unfolding eat_text parse_fn_signature parse_block_expr
parse_fn expr = do
  start ← here
  eat_text ident (codes "fn")
  sig ← parse_fn_signature
  body ← parse_block_expr expr start
  id ← ask (λ s. s.index)
  pure (
      Ast.fn (untyped start) id
        (Ast.fn_decl (untyped start) (fn_variable [] sig.0 start none) [] sig.1 0 body none none))

unfoldable pub parse_llvm : Parser Ast
unfolding move eat
parse_llvm = do move; code ← eat string; pure (llvm (untyped code.location) code.data_of.bytes)

unfoldable pub parse_fn_body : Parser Ast → Location → Parser Ast
unfolding eat is_text parse_llvm parse_block
parse_fn_body expr indent = do
  _ ← eat line
  assembly ← ask (is_text ident (codes "llvm"))
  if assembly then parse_llvm else parse_block expr (some indent)

-- An attribute in front of a function: its bit, if the word is there.
unfoldable pub attribute : Bytes → ℕ → Parser ℕ
unfolding is_text move
attribute text bit s = if is_text ident text s then (do move; pure bit) s else ok (0, s)

-- FnAttributeExtern is 1, FnAttributeBuiltin 2 and FnAttributeInline 4.
unfoldable pub parse_fn_decl : Parser Ast → Parser Ast
unfolding attribute eat_text eat parse_type_signature parse_fn_signature parse_fn_body
parse_fn_decl expr = do
  indent ← here
  inlined ← attribute (codes "inline") 4
  external ← attribute (codes "extern") 1
  builtin ← attribute (codes "builtin") 2
  eat_text ident (codes "fn")
  name ← eat ident
  tysig ← parse_type_signature
  sig ← parse_fn_signature
  body ← if external + builtin == 0 then parse_fn_body expr indent else pure absent
  a ← fresh
  pure (
      Ast.fn_decl (untyped nowhere) (fn_variable name.data_of.bytes sig.0 name.location (some a))
        tysig sig.1 (inlined + external + builtin) body none none)

unfoldable pub parse_var_decl : Parser Ast → Parser Ast
unfolding eat_text eat parse_type_ascription
parse_var_decl expr = do
  eat_text ident (codes "var")
  name ← eat ident
  type ← parse_type_ascription
  eat_text atom (codes "=")
  e ← expr
  pure (Ast.var_decl (untyped nowhere) (variable_at variable name type) e)

-- `for (;;)` over the names of fields with one type.
unfoldable pub name_loop : ℕ → Parser (List Token)
unfolding eat is_text move
name_loop zero s = out_of_fuel
name_loop (suc fuel) s =
    (do
      name ← eat ident
      more ← ask (is_text atom (codes ","))
      names ← elim more [ true ↦ (do move; name_loop fuel) | false ↦ pure [] ]
      pure (name ∷ names))
      s

unfoldable pub parse_initializer : Parser Ast → Parser Ast
unfolding is_text move
parse_initializer expr s = if is_text atom (codes "=") s then (do move; expr) s else ok (absent, s)

-- The fields share the type and the initializer.
abbrev pub fields_of : List Token → Ty → Ast → List (FieldDecl × Ast)
fields_of [] type e = []
fields_of (t ∷ ts) type e =
    (record { name = t.data_of.bytes; location = t.location; type = type }, e) ∷ fields_of ts type e

unfoldable pub parse_field_line : Parser Ast → Parser (List (FieldDecl × Ast))
unfolding name_loop eat_text parse_type parse_initializer
parse_field_line expr = do
  fuel ← ask rounds
  names ← name_loop fuel
  eat_text atom (codes ":")
  type ← parse_type
  e ← parse_initializer expr
  pure (fields_of names type e)

abbrev add_fields : List (FieldDecl × Ast) → FieldDecls → FieldDecls
add_fields [] rest = rest
add_fields ((f, e) ∷ fs) rest = FieldDecls.field f e (add_fields fs rest)

abbrev to_fields : List (List (FieldDecl × Ast)) → FieldDecls
to_fields [] = FieldDecls.no_fields
to_fields (fs ∷ rest) = add_fields fs (to_fields rest)

unfoldable pub parse_struct_decl : Parser Ast → Parser Ast
unfolding eat_text eat parse_type_signature parse_indent parse_field_line
parse_struct_decl expr = do
  indent ← here
  eat_text ident (codes "struct")
  name ← eat ident
  tysig ← parse_type_signature
  _ ← eat line
  fields ← parse_indent (some indent) (parse_field_line expr)
  pure (Ast.ty_decl (untyped name.location) name.data_of.bytes tysig (to_fields fields))

unfoldable pub same_line : Location → TokenStream → Bool
unfolding is_text get
same_line l s = is_text atom (codes ".") s && ((get s).location.line == l.line)

-- The parts of the path behind the first one, and the location up to the last one.
unfoldable pub path_loop : ℕ → Bytes → Location → Parser (Bytes × Location)
unfolding same_line move eat span
path_loop zero path l s = out_of_fuel
path_loop (suc fuel) path l s = elim (same_line l s) [
  | false ↦ ok ((path, l), s)
  | true ↦
      (do
        move
        name ← eat ident
        l' ← span l name.location
        path_loop fuel (path ++ b'.' ∷ name.data_of.bytes) l')
        s
]

unfoldable pub parse_import : Parser Ast
unfolding eat_text eat path_loop
parse_import = do
  eat_text ident (codes "import")
  start ← eat ident
  fuel ← ask rounds
  path ← path_loop fuel start.data_of.bytes start.location
  pure (Ast.import_ (untyped path.1) path.0)
