-- ===== src/Parse/Layout.antt =====
-- compiler/parse.cpp: parseIndent, parseBlock and parseBlockExpr. `item` is the function that reads
-- one entry of the block, and `expr` is parseExpr.
use aike.Base.{
  ℕ, zero, suc, Bool, true, false, not, List, [], ◌∷◌, Option, none, some, if◌then◌else◌, leb, ◌==◌,
}
use aike.Types.Syntax.{Location}
use aike.Types.Content.{nowhere}
use aike.Tokenize.Defs.{line, end}
use aike.Tree.Ast.{Ast, Asts, Common, block}
use aike.Parse.Stream.{
  Parser, ok, out_of_fuel, ◌>>=◌, ◌>>◌, pure, ask, here, fail, get_behind, has_type, is, move,
  expect, get_line_indent, expected_deeper, expected_indentation, rounds,
}

abbrev pub untyped : Location → Common
untyped l = record { type = none; location = l }

abbrev pub to_asts : List Ast → Asts
to_asts [] = Asts.nil
to_asts (t ∷ ts) = Asts.cons t (to_asts ts)

unfoldable pub start_indent : Option Location → Parser ℕ
unfolding get_line_indent
start_indent none = pure 0
start_indent (some l) = get_line_indent l

-- `if (indent && firstIndent <= startIndent)`
unfoldable pub check_first : Option Location → ℕ → ℕ → Parser (Unit {0})
check_first none start first = pure tt
check_first (some _) start first =
    if leb first start then fail (expected_deeper start first) else pure tt

-- The end of the line behind an entry, which the entry may have consumed.
unfoldable pub end_line : Parser (Unit {0})
unfolding is move expect get_behind
end_line s =
    if is line s
    then move s
    else if not (has_type line (get_behind s))
    then expect line s
    else ok (tt, s)

-- Whether the block ends before the line that follows.
unfoldable pub leaves_block : Option Location → ℕ → ℕ → Parser Bool
unfolding get_line_indent
leaves_block none start first = pure false
leaves_block (some _) start first = do
  l ← here
  indent ← get_line_indent l
  if leb indent start
      then pure true
      else if indent == first
      then pure false
      else fail (expected_indentation first indent)

-- The rest of a round behind its entry: whether the loop breaks.
unfoldable pub after_entry : Option Location → ℕ → ℕ → Parser Bool
unfolding is end_line leaves_block
after_entry indent start first s =
    if is end s then ok (true, s) else (do end_line; leaves_block indent start first) s

unfoldable pub indent_loop {ℓ} :
    {A : Type ℓ} → ℕ → Option Location → ℕ → ℕ → Parser A → Parser (List A)
unfolding after_entry
indent_loop zero indent start first item s = out_of_fuel
indent_loop (suc fuel) indent start first item s = elim (is end s) [
  | true ↦ ok ([], s)
  | false ↦
      (do
        x ← item
        stop ← after_entry indent start first
        xs ← elim stop [ true ↦ pure [] | false ↦ indent_loop fuel indent start first item ]
        pure (x ∷ xs))
        s
]

unfoldable pub parse_indent {ℓ} : {A : Type ℓ} → Option Location → Parser A → Parser (List A)
unfolding start_indent check_first indent_loop
parse_indent indent item = do
  start ← start_indent indent
  l ← here
  first ← get_line_indent l
  check_first indent start first
  fuel ← ask rounds
  indent_loop fuel indent start first item

unfoldable pub parse_block : Parser Ast → Option Location → Parser Ast
unfolding parse_indent
parse_block expr indent = do
  body ← parse_indent indent expr
  pure (block (untyped nowhere) (to_asts body))

-- `if (ts.is(Token::TypeLine)) ts.move();`
unfoldable pub skip_line : Parser (Unit {0})
unfolding is move
skip_line s = if is line s then move s else ok (tt, s)

unfoldable pub parse_block_expr : Parser Ast → Location → Parser Ast
unfolding parse_block skip_line is move
parse_block_expr expr indent s =
    if is line s
    then (do move; parse_block expr (some indent)) s
    else (do result ← expr; skip_line; pure result) s
