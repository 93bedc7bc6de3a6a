-- ===== src/Parse/Whole.antt =====
-- compiler/parse.cpp: parsePrimary, parseExprClimb, parseExpr and parse. The recursion is on fuel, a
-- unit for each call of parseExpr, parsePrimary or parseExprClimb in itself.
use aike.Base.{
  ℕ, zero, suc, ◌*◌, Bool, true, false, ◌&&◌, ◌||◌, List, [], ◌∷◌, none, Bytes, if◌then◌else◌, ltb,
  leb, ◌==◌,
}
use aike.Types.Syntax.{Location}
use aike.Mangle.Text.{codes}
use aike.Tokenize.Defs.{atom, bracket, ident, end, Token}
use aike.Tokenize.Whole.{Tokens}
use aike.Tree.Ast.{Ast, module_}
use aike.Parse.Stream.{
  TokenStream, Parser, Parsed, ok, out_of_fuel, ◌>>=◌, ◌>>◌, pure, ask, here, get_ahead, has_type,
  is_text, move, expect, rounds,
}
use aike.Parse.Layout.{untyped, parse_block}
use aike.Parse.Operators.{parse_unary_op, parse_binary_op, lower_unary_op, lower_binary_op}
use aike.Parse.Terms.{Number, parse_call, parse_index, parse_member, parse_term}
use aike.Parse.Statements.{
  parse_assign, parse_if, parse_for, parse_while, parse_fn, parse_fn_decl, parse_var_decl,
  parse_struct_decl, parse_import,
}

-- The calls, indices and members behind a term.
unfoldable pub postfix_loop : ℕ → Parser Ast → Location → Ast → Parser Ast
unfolding is_text parse_call parse_index parse_member
postfix_loop zero expr start term s = out_of_fuel
postfix_loop (suc fuel) expr start term s = elim (is_text bracket (codes "(") s) [
  | true ↦ (do t ← parse_call expr term start []; postfix_loop fuel expr start t) s
  | false ↦ elim (is_text bracket (codes "[") s) [
    | true ↦ (do t ← parse_index expr term; postfix_loop fuel expr start t) s
    | false ↦ elim (is_text atom (codes ".") s) [
      | true ↦ (do t ← parse_member expr term; postfix_loop fuel expr start t) s
      | false ↦ ok (term, s)
    ]
  ]
]

unfoldable pub assign_or : Parser Ast → Ast → Parser Ast
unfolding is_text parse_assign
assign_or expr term s =
    if is_text atom (codes "=") s then parse_assign expr term s else ok (term, s)

unfoldable pub parse_operand : (Bytes → Number) → Parser Ast → Parser Ast
unfolding parse_term postfix_loop assign_or
parse_operand strtod expr = do
  start ← here
  term ← parse_term strtod expr
  fuel ← ask rounds
  t ← postfix_loop fuel expr start term
  assign_or expr t

unfoldable pub starts_fn_decl : TokenStream → Bool
unfolding is_text
starts_fn_decl s =
    is_text ident (codes "extern") s
    || (is_text ident (codes "builtin") s || is_text ident (codes "inline") s)

-- parsePrimary where no unary operator stands in front.
unfoldable pub parse_simple : (Bytes → Number) → Parser Ast → Parser Ast
unfolding starts_fn_decl is_text has_type get_ahead parse_fn_decl parse_fn parse_var_decl
    parse_struct_decl parse_import parse_if parse_for parse_while parse_operand
parse_simple strtod expr s =
    if starts_fn_decl s
    then parse_fn_decl expr s
    else if is_text ident (codes "fn") s
    then (if has_type ident (get_ahead s) then parse_fn_decl expr s else parse_fn expr s)
    else if is_text ident (codes "var") s
    then parse_var_decl expr s
    else if is_text ident (codes "struct") s
    then parse_struct_decl expr s
    else if is_text ident (codes "import") s
    then parse_import s
    else if is_text ident (codes "if") s
    then parse_if expr s
    else if is_text ident (codes "for") s
    then parse_for expr s
    else if is_text ident (codes "while") s
    then parse_while expr s
    else parse_operand strtod expr s

unfoldable pub primary_on : ℕ → (Bytes → Number) → Parser Ast → Parser Ast
unfolding parse_unary_op parse_simple move lower_unary_op
primary_on zero strtod expr s = out_of_fuel
primary_on (suc fuel) strtod expr s = elim ((parse_unary_op s).priority == 0) [
  | true ↦ parse_simple strtod expr s
  | false ↦
      (do
        uop ← ask parse_unary_op
        start ← here
        move
        e ← primary_on fuel strtod expr
        pure (lower_unary_op uop e start))
        s
]

unfoldable pub parse_primary : (Bytes → Number) → Parser Ast → Parser Ast
unfolding primary_on
parse_primary strtod expr s = primary_on (rounds s) strtod expr s

-- `op.priority && op.priority >= limit`
abbrev pub goes_on : ℕ → ℕ → Bool
goes_on priority limit = ltb 0 priority && leb limit priority

-- `primary` is parsePrimary; `climb_right` is the inner loop, over the operators that bind tighter.
unfoldable mutual
  unfolding parse_binary_op move lower_binary_op

  pub climb : ℕ → Parser Ast → Ast → ℕ → Parser Ast
  climb zero primary left limit s = out_of_fuel
  climb (suc fuel) primary left limit s = elim (goes_on (parse_binary_op s).priority limit) [
    | false ↦ ok (left, s)
    | true ↦
        (do
          op ← ask parse_binary_op
          start ← here
          move
          first ← primary
          right ← climb_right fuel primary first op.priority
          climb fuel primary (lower_binary_op op left right start) limit)
          s
  ]

  pub climb_right : ℕ → Parser Ast → Ast → ℕ → Parser Ast
  climb_right zero primary right priority s = out_of_fuel
  climb_right (suc fuel) primary right priority s =
      elim (goes_on (parse_binary_op s).priority (suc priority)) [
        | false ↦ ok (right, s)
        | true ↦
            (do
              nextop ← ask parse_binary_op
              e ← climb fuel primary right nextop.priority
              climb_right fuel primary e priority)
              s
      ]

-- Each round of a loop consumes a token, and so does each second call.
unfoldable pub parse_expr_climb : Parser Ast → Ast → ℕ → Parser Ast
unfolding climb
parse_expr_climb primary left limit s = climb (2 * rounds s) primary left limit s

unfoldable pub expr_on : ℕ → (Bytes → Number) → Parser Ast
unfolding parse_primary parse_expr_climb
expr_on zero strtod s = out_of_fuel
expr_on (suc fuel) strtod s =
    (do
      left ← parse_primary strtod (expr_on fuel strtod)
      parse_expr_climb (parse_primary strtod (expr_on fuel strtod)) left 0)
      s

unfoldable pub parse_expr : (Bytes → Number) → Parser Ast
unfolding expr_on
parse_expr strtod s = expr_on (rounds s) strtod s

unfoldable pub parse_tokens_whole : (Bytes → Number) → Parser Ast
unfolding parse_block parse_expr expect
parse_tokens_whole strtod = do
  result ← parse_block (parse_expr strtod) none
  expect end
  pure result

-- `next` is the first address that is free.
abbrev pub stream_of : Tokens → ℕ → TokenStream
stream_of ts next = record { tokens = ts.tokens; lines = ts.lines; index = 0; next = next }

abbrev pub with_module : Bytes → List Token → Ast → Ast
with_module name [] body = body
with_module name (t ∷ _) body = module_ (untyped t.location) name body []

-- The overload that takes the name of the module.
unfoldable pub parse : (Bytes → Number) → Bytes → Tokens → ℕ → Parsed (Ast × TokenStream)
unfolding parse_tokens_whole
parse strtod name ts next =
    (do result ← parse_tokens_whole strtod; pure (with_module name ts.tokens result))
      (stream_of ts next)
