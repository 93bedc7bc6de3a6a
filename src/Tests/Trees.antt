-- ===== src/Tests/Trees.antt =====
-- compiler/parse.cpp and parseModule of compiler/compiler.cpp at short texts.
use aike.Base.{
  ℕ, ◌<◌, some, suc, ◌^◌, if◌then◌else◌, ltb, ◌≡◌, refl, List, length, ◌≢◌, ◌↔◌, false, [], Bytes,
}
use aike.Tree.Ast.{Ast, absent, literal_integer}
use aike.Parse.Layout.{parse_indent}
use aike.Parse.Indentation.{IsIndented, Entries, Leaves, parse_indent-Entries}
use aike.Mangle.Text.{codes, decimal}
use aike.Tokenize.Defs.{Lex}
use aike.Tokenize.Whole.{Tokens, tokenize}
use aike.Tokenize.Placed.{tokenize-IsLaid}
use aike.Parse.Stream.{TokenStream, Parsed, ok, panic, here, get, is, invalid_integer}
use aike.Parse.Layout.{untyped}
use aike.Parse.Numbers.{parse_number-decimal}
use aike.Parse.Operators.{parse_binary_op}
use aike.Parse.Terms.{Number, parse_number}
use aike.Parse.Whole.{parse, parse_primary, expr_on, parse_expr, stream_of}
use aike.Parse.Priority.{OpTree, operand, lowered, IsOrdered, Reads, parse_expr-IsOrdered}
use aike.Parse.Grouping.{Link, grouped, Chain, parse_expr-grouped}
use aike.Parse.Total.{IsRead, parse_total}
use aike.Parse.Front.{parse_module, IsReported, IsLaid-IsTokenized, parse_module_iff}

-- A library that reads no number.
abbrev no_floats : Bytes → Number
no_floats s = record { bits = 0; whole = false; errno = false }

abbrev source : Bytes
source = codes "main.aike"

abbrev call_text : Bytes
call_text = codes "f(1) + 2 * x"

abbrev tokens_of : Lex Tokens → Tokens
tokens_of (Lex.ok ts) = ts
tokens_of _ = record { lines = []; tokens = [] }

abbrev call_tokens : Tokens
call_tokens = tokens_of (tokenize source call_text)

parse_total_example : IsRead call_tokens.tokens (parse no_floats source call_tokens 0)
unfolding tokenize
parse_total_example =
    parse_total no_floats source call_tokens 0
      (IsLaid-IsTokenized source call_tokens (tokenize-IsLaid source (b'f') (codes "(1) + 2 * x")))

parse_module_iff_example :
    IsReported (parse_module no_floats source call_text source 0) ↔ (call_text ≢ [])
parse_module_iff_example = parse_module_iff no_floats source call_text source 0

abbrev start : TokenStream
start = stream_of (tokens_of (tokenize source (codes "a or b and -c + d"))) 0

abbrev tree_of : Parsed (Ast × TokenStream) → Ast
tree_of (ok (t, s)) = t
tree_of _ = absent

abbrev rest_of : Parsed (Ast × TokenStream) → TokenStream
rest_of (ok (t, s)) = s
rest_of _ = start

abbrev tree : Ast
tree = tree_of (parse_expr no_floats start)

abbrev rest : TokenStream
rest = rest_of (parse_expr no_floats start)

parse_expr_run : parse_expr no_floats start ≡ ok (tree, rest)
unfolding parse_expr tokenize here
parse_expr_run = refl

parse_expr-IsOrdered_example :
    (t : OpTree) × (lowered t ≡ tree)
    × IsOrdered t
    × ((parse_binary_op rest).priority ≡ 0)
    × Reads (parse_primary no_floats (expr_on (length start.tokens) no_floats)) start t rest
parse_expr-IsOrdered_example = parse_expr-IsOrdered no_floats start rest tree parse_expr_run

parse_expr-grouped_example :
    (a : Ast) × (m : TokenStream) × (ks : List Link) × (parse_primary no_floats
        (expr_on (length start.tokens) no_floats)
        start
      ≡ ok (a, m))
    × Chain (parse_primary no_floats (expr_on (length start.tokens) no_floats)) m ks rest
    × ((parse_binary_op rest).priority ≡ 0)
    × (tree ≡ lowered (grouped (operand a) ks))
parse_expr-grouped_example = parse_expr-grouped no_floats start rest tree parse_expr_run

-- 2 ^ 63, which does not fit.
abbrev large : TokenStream
large = stream_of (tokens_of (tokenize source (codes "9223372036854775808"))) 0

parse_number-decimal_example : parse_number no_floats large ≡ (
    if ltb 9223372036854775808 (2 ^ 63)
    then ok (
      literal_integer (untyped (get large).location) 9223372036854775808,
      record large { index = suc large.index },
    )
    else panic (invalid_integer (decimal 9223372036854775808)) (get large).location)
unfolding tokenize is decimal
parse_number-decimal_example = parse_number-decimal no_floats 9223372036854775808 large refl refl

-- Three lines, the second of which is deeper, and the stream at the second.
abbrev block_tokens : Tokens
block_tokens = tokens_of (tokenize source (codes "x\n  a + b\nc"))

abbrev outer : TokenStream
outer = stream_of block_tokens 0

abbrev inner : TokenStream
inner = record outer { index = 2 }

abbrev entries_of : Parsed (List Ast × TokenStream) → List Ast
entries_of (ok (xs, s)) = xs
entries_of _ = []

abbrev behind : Parsed (List Ast × TokenStream) → TokenStream
behind (ok (xs, s)) = s
behind _ = outer

abbrev entries : List Ast
entries = entries_of (parse_indent (some (get outer).location) (parse_expr no_floats) inner)

abbrev left : TokenStream
left = behind (parse_indent (some (get outer).location) (parse_expr no_floats) inner)

parse_indent_run :
    parse_indent (some (get outer).location) (parse_expr no_floats) inner ≡ ok (entries, left)
unfolding parse_indent parse_expr tokenize here
parse_indent_run = refl

left_run : left.index ≡ 6
unfolding parse_indent parse_expr tokenize here
left_run = refl

parse_indent-Entries_example :
    (i : ℕ) × (j : ℕ) × IsIndented inner.lines (get outer).location i
    × (i < j)
    × Entries (parse_expr no_floats) j inner entries left
    × Leaves i left
parse_indent-Entries_example =
    parse_indent-Entries (get outer).location (parse_expr no_floats) inner left entries
      parse_indent_run
