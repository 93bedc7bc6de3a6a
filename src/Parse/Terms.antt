-- ===== src/Parse/Terms.antt =====
-- compiler/parse.cpp: parseCall to parseMember, the literals and parseTerm. `expr` is parseExpr.
-- `strtod` is the C library's: the bits of the number, whether the text was read to its end, and
-- whether errno was set.
use aike.Base.{
  ℕ, ◌-◌, ◌^◌, Bool, true, false, ◌&&◌, ◌||◌, List, [], ◌∷◌, ◌++◌, Option, none, some, Bytes,
  if◌then◌else◌, ltb,
}
use aike.Types.Syntax.{Ty, inst, Location}
use aike.Mangle.Text.{codes}
use aike.Tokenize.Defs.{atom, bracket, ident, string, number, Token}
use aike.Resolve.Members.{strtoll_digits}
use aike.Tree.Ast.{Ast, FieldInits, FieldRef, Common, member, call, index}
use aike.Parse.Stream.{
  TokenStream, Parser, ok, panic, ◌>>=◌, ◌>>◌, pure, ask, here, fail, k_end, get, get_ahead,
  has_text, is, is_text, move, eat, eat_text, span, unexpected_token, invalid_integer,
  invalid_float, invalid_number,
}
use aike.Parse.Types.{comma_list, parse_type_arguments, to_tys}
use aike.Parse.Layout.{untyped, to_asts}
use aike.Parse.Operators.{ident_at}

pub record Number : Type 0 where
  pub bits : ℕ
  pub whole : Bool
  pub errno : Bool

-- The arguments up to the closing bracket, behind those that the call has already.
unfoldable pub parse_call : Parser Ast → Ast → Location → List Ast → Parser Ast
unfolding comma_list eat_text span
parse_call expr callee start self = do
  eat_text bracket (codes "(")
  args ← comma_list bracket (codes ")") expr
  stop ← here
  eat_text bracket (codes ")")
  l ← span start stop
  pure (call (untyped l) callee (to_asts (self ++ args)))

unfoldable pub parse_index : Parser Ast → Ast → Parser Ast
unfolding eat_text
parse_index expr operand = do
  start ← here
  eat_text bracket (codes "[")
  i ← expr
  eat_text bracket (codes "]")
  pure (index (untyped start) operand i)

unfoldable pub parse_ident : Parser Ast
unfolding eat parse_type_arguments
parse_ident = do
  name ← eat ident
  tyargs ← parse_type_arguments
  pure (Ast.ident (untyped name.location) name.data_of.bytes tyargs [] false)

abbrev pub field_ref : Token → FieldRef
field_ref t = record { name = t.data_of.bytes; location = t.location; index = none }

-- `ts.index--`
unfoldable pub retreat : Parser (Unit {0})
retreat s = ok (tt, record s { index = s.index - 1 })

unfoldable pub starts_call : TokenStream → Bool
unfolding is_text
starts_call s = is_text bracket (codes "(") s || is_text atom (codes ".<") s

unfoldable pub parse_method : Parser Ast → Ast → Location → Parser Ast
unfolding retreat parse_ident parse_call
parse_method expr operand l = do
  retreat
  method ← parse_ident
  parse_call expr method l (operand ∷ [])

unfoldable pub parse_member : Parser Ast → Ast → Parser Ast
unfolding eat eat_text starts_call parse_method
parse_member expr operand = do
  eat_text atom (codes ".")
  name ← eat ident
  method ← ask starts_call
  if method
      then parse_method expr operand name.location
      else pure (member (untyped name.location) operand (field_ref name))

unfoldable pub parse_literal_array : Parser Ast → Parser Ast
unfolding comma_list eat_text
parse_literal_array expr = do
  start ← here
  eat_text bracket (codes "[")
  elements ← comma_list bracket (codes "]") expr
  eat_text bracket (codes "]")
  pure (Ast.literal_array (untyped start) (to_asts elements))

-- `Token()` has an empty text.
unfoldable pub struct_name : Parser Token
unfolding is eat
struct_name s = if is ident s then eat ident s else ok (k_end, s)

abbrev pub is_empty : Bytes → Bool
is_empty [] = true
is_empty (_ ∷ _) = false

unfoldable pub struct_arguments : Token → Parser (List Ty)
unfolding parse_type_arguments
struct_arguments name = if is_empty name.data_of.bytes then pure [] else parse_type_arguments

-- A field with no initializer is the variable of its name.
unfoldable pub field_value : Parser Ast → Token → Parser Ast
unfolding is_text move
field_value expr name s =
    if is_text atom (codes "=") s
    then (do move; expr) s
    else ok (ident_at name.location name.data_of.bytes, s)

unfoldable pub parse_field_init : Parser Ast → Parser (FieldRef × Ast)
unfolding eat field_value
parse_field_init expr = do
  name ← eat ident
  value ← field_value expr name
  pure (field_ref name, value)

abbrev to_inits : List (FieldRef × Ast) → FieldInits
to_inits [] = FieldInits.no_inits
to_inits ((f, e) ∷ fs) = FieldInits.init f e (to_inits fs)

abbrev struct_type : Token → List Ty → Option Ty
struct_type name tyargs =
    if is_empty name.data_of.bytes
    then none
    else some (inst name.data_of.bytes name.location (to_tys tyargs) none none)

unfoldable pub parse_literal_struct : Parser Ast → Parser Ast
unfolding comma_list eat_text struct_name struct_arguments parse_field_init
parse_literal_struct expr = do
  start ← here
  name ← struct_name
  tyargs ← struct_arguments name
  eat_text bracket (codes "{")
  fields ← comma_list bracket (codes "}") (parse_field_init expr)
  eat_text bracket (codes "}")
  let common : Common = record { type = struct_type name tyargs; location = start }
  pure (Ast.literal_struct common name.data_of.bytes (to_inits fields))

abbrev pub float_of : Number → Token → Parser Ast
float_of n t s =
    if n.whole
    then if n.errno
      then panic (invalid_float t.data_of.bytes) t.location
      else ok (Ast.literal_float (untyped t.location) n.bits, s)
    else panic (invalid_number t.data_of.bytes) t.location

-- What strtoll has read and left of the text, and errno where the number is too large.
abbrev pub number_of : (Bytes → Number) → Token → ℕ × Bytes → Parser Ast
number_of strtod t (i, []) s =
    if ltb i (2 ^ 63)
    then ok (Ast.literal_integer (untyped t.location) i, s)
    else panic (invalid_integer t.data_of.bytes) t.location
number_of strtod t (i, _ ∷ _) s = float_of (strtod t.data_of.bytes) t s

unfoldable pub parse_number : (Bytes → Number) → Parser Ast
unfolding eat strtoll_digits
parse_number strtod = do
  value ← eat number
  number_of strtod value (strtoll_digits 0 value.data_of.bytes)

abbrev pub group_of : Location → List Ast → Ast
group_of l [] = Ast.literal_void (untyped l)
group_of l (e ∷ []) = e
group_of l (e ∷ f ∷ es) = Ast.literal_tuple (untyped l) (to_asts (e ∷ f ∷ es))

-- The span of the brackets is read only where no field, or more than one, stands between them.
abbrev pub group_span : Location → Location → List Ast → Parser Ast
group_span start stop (e ∷ []) = pure e
group_span start stop es = do l ← span start stop; pure (group_of l es)

unfoldable pub parse_group : Parser Ast → Parser Ast
unfolding comma_list eat_text move span
parse_group expr = do
  start ← here
  move
  fields ← comma_list bracket (codes ")") expr
  stop ← here
  eat_text bracket (codes ")")
  group_span start stop fields

unfoldable pub starts_struct : TokenStream → Bool
unfolding is is_text has_text get_ahead
starts_struct s =
    is_text bracket (codes "{") s || (is ident s && has_text bracket (codes "{") (get_ahead s))

unfoldable pub parse_string : Parser Ast
unfolding eat
parse_string = do
  value ← eat string
  pure (Ast.literal_string (untyped value.location) value.data_of.bytes)

unfoldable pub parse_bool : Bool → Parser Ast
unfolding eat
parse_bool b = do value ← eat ident; pure (Ast.literal_bool (untyped value.location) b)

unfoldable pub parse_term : (Bytes → Number) → Parser Ast → Parser Ast
unfolding parse_bool parse_number parse_string starts_struct parse_literal_struct
    parse_literal_array parse_ident parse_group get
parse_term strtod expr s =
    if is_text ident (codes "true") s
    then parse_bool true s
    else if is_text ident (codes "false") s
    then parse_bool false s
    else if is number s
    then parse_number strtod s
    else if is string s
    then parse_string s
    else if starts_struct s
    then parse_literal_struct expr s
    else if is_text bracket (codes "[") s
    then parse_literal_array expr s
    else if is ident s
    then parse_ident s
    else if is_text bracket (codes "(") s
    then parse_group expr s
    else fail (unexpected_token (get s)) s
