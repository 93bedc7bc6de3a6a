-- ===== src/Parse/Total.antt =====
-- compiler/parse.cpp: parseExpr and parse end.
use aike.Base.{
  ℕ, zero, suc, ◌≤◌, ◌≡◌, refl, List, [], none, Bytes, length, arith, Bool-cases, inl, inr, ◌==◌,
}
use aike.Types.Syntax.{Location}
use aike.Mangle.Text.{codes}
use aike.Tokenize.Defs.{Line, Token, atom, bracket, ident, end}
use aike.Tokenize.Whole.{Tokens}
use aike.Tree.Ast.{Ast}
use aike.Parse.Stream.{
  TokenStream, Parser, Parsed, ok, panic, assertion, out_of_fuel, bind, ◌>>=◌, pure, here, get,
  get_ahead, has_type, is_text,
}
use aike.Parse.Operators.{parse_unary_op, lower_unary_op}
use aike.Parse.Terms.{Number}
use aike.Parse.Whole.{
  postfix_loop, assign_or, parse_operand, starts_fn_decl, parse_simple, primary_on, parse_primary,
  expr_on, parse_expr, parse_tokens_whole, stream_of, with_module, parse,
}
use aike.Parse.Steps.{
  IsTokenized, After, Eats, Keeps, Behind, Behind-le, Eats-Keeps, Eats-le, Keeps-zero, Eats-zero,
  Keeps->>=, Eats->>=, pure-Keeps, move-then,
}
use aike.Parse.Eating.{expect-Keeps, here->>=-Eats}
use aike.Parse.LoopEnds.{After-if, stay, rounds-Keeps, rounds-Eats}
use aike.Parse.LayoutEnds.{parse_block-Keeps}
use aike.Parse.TermEnds.{call-Eats, parse_index-Eats, parse_term-Eats}
use aike.Parse.MemberEnds.{parse_member-Eats}
use aike.Parse.PartEnds.{parse_var_decl-Eats}
use aike.Parse.StatementEnds.{
  parse_assign-Eats, parse_if-Eats, parse_for-Eats, parse_while-Eats, parse_fn-Eats,
  parse_fn_decl-Eats, parse_struct_decl-Eats, parse_import-Eats,
}
use aike.Parse.OperatorEnds.{unary-not_end, parse_expr_climb-Keeps}

module _ {tokens : List Token} {lines : List Line} (good : IsTokenized tokens lines) where
  postfix_loop-Keeps :
      (fuel n : ℕ) (expr : Parser Ast) (start : Location) (term : Ast)
      → n ≤ fuel
      → Behind tokens lines start n
      → Eats tokens lines n expr
      → Keeps tokens lines n (postfix_loop fuel expr start term)
  unfolding postfix_loop
  postfix_loop-Keeps fuel zero expr start term h b e = Keeps-zero
  postfix_loop-Keeps zero (suc n) expr start term h b e = absurd (omega arith)
  postfix_loop-Keeps (suc fuel) (suc n) expr start term h b e =
      let rest = λ (t : Ast).
        postfix_loop-Keeps fuel n expr start t (omega arith)
          (Behind-le start n (suc n) (omega arith) b) (Eats-le n (suc n) (omega arith) e) in
      record {
        keeps = λ s f. elim (Bool-cases (is_text bracket (codes "(") s)) [
          | inl t ↦
              rw (t, After)
                ((Eats-Keeps (Eats->>= (call-Eats good (suc n) expr term start [] b e) rest)).keeps
                  s f)
          | inr t ↦ elim (Bool-cases (is_text bracket (codes "[") s)) [
            | inl u ↦
                rw (t, After, u)
                  ((Eats-Keeps (Eats->>= (parse_index-Eats good (suc n) expr term e) rest)).keeps s
                    f)
            | inr u ↦ elim (Bool-cases (is_text atom (codes ".") s)) [
              | inl v ↦
                  rw (t, After, u, v)
                    ((Eats-Keeps (Eats->>= (parse_member-Eats good (suc n) expr term e) rest)).keeps
                      s f)
              | inr v ↦ rw (t, After, u, v) (stay s f)
            ]
          ]
        ];
      }

  assign_or-Keeps :
      (n : ℕ) (expr : Parser Ast) (term : Ast)
      → Eats tokens lines n expr
      → Keeps tokens lines n (assign_or expr term)
  unfolding assign_or
  assign_or-Keeps n expr term e = record {
    keeps = λ s f.
        After-if tokens lines s.index (is_text atom (codes "=") s) _ _
          (λ _. (Eats-Keeps (parse_assign-Eats good n expr term e)).keeps s f) (λ _. stay s f);
  }

  parse_operand-Eats :
      (n : ℕ) (strtod : Bytes → Number) (expr : Parser Ast)
      → Eats tokens lines n expr
      → Eats tokens lines (suc n) (parse_operand strtod expr)
  unfolding parse_operand
  parse_operand-Eats n strtod expr e = here->>=-Eats good (suc n) _ λ m l lt b.
      let em = Eats-le m n (omega arith) e in
      Eats->>= (parse_term-Eats good m strtod expr em) λ term.
        rounds-Keeps m (λ fuel. postfix_loop fuel expr l term >>= assign_or expr)
          λ fuel k le enough.
            Keeps->>=
              (postfix_loop-Keeps fuel k expr l term enough (Behind-le l k m le b)
                (Eats-le k m le em))
              (λ t. assign_or-Keeps k expr t (Eats-le k m le em))

  parse_simple-Eats :
      (n : ℕ) (strtod : Bytes → Number) (expr : Parser Ast)
      → Eats tokens lines n expr
      → Eats tokens lines (suc n) (parse_simple strtod expr)
  unfolding parse_simple
  parse_simple-Eats n strtod expr e = record {
    eats = λ s f.
        let i = suc s.index in
        After-if tokens lines i (starts_fn_decl s) _ _
          (λ _. (parse_fn_decl-Eats good n expr e).eats s f)
          λ _.
            After-if tokens lines i (is_text ident (codes "fn") s) _ _
              (λ _.
                After-if tokens lines i (has_type ident (get_ahead s)) _ _
                  (λ _. (parse_fn_decl-Eats good n expr e).eats s f)
                  (λ _. (parse_fn-Eats good n expr e).eats s f))
              λ _.
                After-if tokens lines i (is_text ident (codes "var") s) _ _
                  (λ _. (parse_var_decl-Eats n expr e).eats s f)
                  λ _.
                    After-if tokens lines i (is_text ident (codes "struct") s) _ _
                      (λ _. (parse_struct_decl-Eats good n expr e).eats s f)
                      λ _.
                        After-if tokens lines i (is_text ident (codes "import") s) _ _
                          (λ _. (parse_import-Eats good (suc n)).eats s f)
                          λ _.
                            After-if tokens lines i (is_text ident (codes "if") s) _ _
                              (λ _. (parse_if-Eats good n expr e).eats s f)
                              λ _.
                                After-if tokens lines i (is_text ident (codes "for") s) _ _
                                  (λ _. (parse_for-Eats good n expr e).eats s f)
                                  λ _.
                                    After-if tokens lines i (is_text ident (codes "while") s) _ _
                                      (λ _. (parse_while-Eats good n expr e).eats s f)
                                      (λ _. (parse_operand-Eats n strtod expr e).eats s f);
  }

  primary_on-Eats :
      (fuel n : ℕ) (strtod : Bytes → Number) (expr : Parser Ast)
      → n ≤ fuel
      → ((k : ℕ) → suc k ≤ n → Eats tokens lines k expr)
      → Eats tokens lines n (primary_on fuel strtod expr)
  unfolding primary_on here
  primary_on-Eats fuel zero strtod expr h e = Eats-zero
  primary_on-Eats zero (suc n) strtod expr h e = absurd (omega arith)
  primary_on-Eats (suc fuel) (suc n) strtod expr h e =
      let rest = primary_on-Eats fuel n strtod expr (omega arith) (λ k lt. e k (omega arith)) in
      record {
        eats = λ s f. elim (Bool-cases ((parse_unary_op s).priority == 0)) [
          | inl t ↦ rw (t, After) ((parse_simple-Eats n strtod expr (e n (omega arith))).eats s f)
          | inr t ↦
              rw (t, After)
                (move-then n s
                  (primary_on fuel strtod expr >>= λ x.
                    pure (lower_unary_op (parse_unary_op s) x (get s).location))
                  f (unary-not_end s t) (Keeps->>= (Eats-Keeps rest) (λ x. pure-Keeps n _)))
        ];
      }

  parse_primary-Eats :
      (n : ℕ) (strtod : Bytes → Number) (expr : Parser Ast)
      → Eats tokens lines n expr
      → Eats tokens lines (suc n) (parse_primary strtod expr)
  unfolding parse_primary
  parse_primary-Eats n strtod expr e =
      rounds-Eats (suc n) (λ fuel. primary_on fuel strtod expr)
        λ fuel m le enough.
          primary_on-Eats fuel m strtod expr enough (λ k lt. Eats-le k n (omega arith) e)

  expr_on-Eats :
      (fuel n : ℕ) (strtod : Bytes → Number) → n ≤ fuel → Eats tokens lines n (expr_on fuel strtod)
  unfolding expr_on
  expr_on-Eats fuel zero strtod h = Eats-zero
  expr_on-Eats zero (suc n) strtod h = absurd (omega arith)
  expr_on-Eats (suc fuel) (suc n) strtod h =
      let primary =
        parse_primary-Eats n strtod (expr_on fuel strtod)
          (expr_on-Eats fuel n strtod (omega arith)) in
      Eats->>= primary λ left.
        parse_expr_climb-Keeps n (parse_primary strtod (expr_on fuel strtod)) left 0
          (Eats-le n (suc n) (omega arith) primary)

  parse_expr-Eats : (n : ℕ) (strtod : Bytes → Number) → Eats tokens lines n (parse_expr strtod)
  unfolding parse_expr
  parse_expr-Eats n strtod =
      rounds-Eats n (λ fuel. expr_on fuel strtod)
        (λ fuel m le enough. expr_on-Eats fuel m strtod enough)

  parse_tokens_whole-Keeps :
      (n : ℕ) (strtod : Bytes → Number) → Keeps tokens lines n (parse_tokens_whole strtod)
  unfolding parse_tokens_whole
  parse_tokens_whole-Keeps n strtod =
      Keeps->>= (parse_block-Keeps good n (parse_expr strtod) none tt (parse_expr-Eats n strtod))
        λ result. Keeps->>= (expect-Keeps n end) (λ _. pure-Keeps n result)

-- A tree, and a stream that has not gone past the end of the tokens, or an error: no assertion has
-- failed and the fuel has not run out.
abbrev pub IsRead : List Token → Parsed (Ast × TokenStream) → Type 0
IsRead tokens (ok (tree, s)) = (s.tokens ≡ tokens) × (s.index ≤ length tokens)
IsRead tokens (panic e l) = Unit {0}
IsRead tokens assertion = ⊥
IsRead tokens out_of_fuel = ⊥

-- On the tokens of a text, which stand on its lines and follow each other, the parser gives a tree or
-- reports an error: all its loops and recursive calls end within the fuel, and no assertion fails, be
-- it that of a step past the end, of a line that is not there or of locations in the wrong order.
pub parse_total :
    (strtod : Bytes → Number) (name : Bytes) (ts : Tokens) (next : ℕ)
    → IsTokenized ts.tokens ts.lines
    → IsRead ts.tokens (parse strtod name ts next)
unfolding parse
parse_total strtod name ts next good = read (parse_tokens_whole strtod (stream_of ts next)) (
    (parse_tokens_whole-Keeps good (suc (length ts.tokens)) strtod).keeps (stream_of ts next)
      (record { same_tokens = refl; same_lines = refl; within = omega arith; few = omega arith }))
  where
    read :
        (r : Parsed (Ast × TokenStream))
        → After ts.tokens ts.lines 0 r
        → IsRead ts.tokens (bind r (λ t. pure (with_module name ts.tokens t)))
    read (ok (t, s)) a = (a.0, a.2)
    read (panic e l) a = tt
    read assertion a = a
    read out_of_fuel a = a
