-- ===== src/Parse/StatementEnds.antt =====
-- compiler/parse.cpp: the declarations and statements end, where parseExpr does.
use aike.Base.{
  ℕ, zero, suc, ◌+◌, ◌≤◌, ◌<◌, ◌≡◌, ◌++◌, Bool, true, false, &&→both, List, ◌∷◌, some, Bytes,
  if◌then◌else◌, length, arith, Bool-cases, inl, inr, ◌==◌,
}
use aike.Types.Syntax.{Location}
use aike.Mangle.Text.{codes}
use aike.Tokenize.Defs.{Line, Token, atom, ident, line}
use aike.Tree.Ast.{Ast, absent, for_}
use aike.Parse.Stream.{TokenStream, Parser, ◌>>=◌, pure, ask, fail, is_text, expected_indentation}
use aike.Resolve.Members.{variable}
use aike.Parse.Layout.{untyped, parse_block}
use aike.Parse.Statements.{
  parse_assign, check_else, parse_else, parse_if, parse_for, parse_while, parse_fn, parse_llvm,
  parse_fn_body, parse_fn_decl, parse_field_line, parse_struct_decl, same_line, path_loop,
  parse_import, variable_at,
}
use aike.Parse.Steps.{
  IsTokenized, After, Eats, Keeps, Behind, Behind-le, After-le, Eats-Keeps, Eats-le, Keeps-zero,
  Keeps->>=, Keeps->>=-Eats, Eats->>=, pure-Keeps, ask-Keeps, fresh-Keeps, fail-Eats,
}
use aike.Parse.Eating.{
  eat_text-Eats, get_line_indent-Keeps, here->>=-Eats, here->>=-Keeps, eat_then,
}
use aike.Parse.LoopEnds.{
  After-if, stay, text-Keeps, token-Keeps, rounds-Keeps, parse_unknown-Keeps, Eats-all, word-After,
}
use aike.Parse.TypeEnds.{parse_type_signature-Keeps, parse_fn_signature-Keeps}
use aike.Parse.LayoutEnds.{parse_indent-Keeps, parse_block-Keeps, parse_block_expr-Keeps}
use aike.Parse.PartEnds.{
  parse_loop_index-Keeps, attribute-Keeps, parse_field_line-Eats, parse_llvm-After, span_then,
}

module _ {tokens : List Token} {lines : List Line} (good : IsTokenized tokens lines) where
  pub parse_assign-Eats :
      (n : ℕ) (expr : Parser Ast) (target : Ast)
      → Eats tokens lines n expr
      → Eats tokens lines n (parse_assign expr target)
  unfolding parse_assign
  parse_assign-Eats n expr target e = here->>=-Eats good n _ λ m l lt b.
      Eats->>= (eat_text-Eats (suc m) atom (codes "=") (omega arith))
        λ _. Keeps->>= (Eats-Keeps (Eats-le m n (omega arith) e)) (λ v. pure-Keeps m _)

  check_else-Keeps :
      (n : ℕ) (start : Location)
      → start.line < length lines
      → Keeps tokens lines n (check_else start)
  unfolding check_else
  check_else-Keeps n start on = Keeps->>= (get_line_indent-Keeps n start on) λ i.
      here->>=-Keeps good n _ λ m l lt b.
        Keeps->>= (get_line_indent-Keeps (suc m) l b.on_line) (λ j. compare_indents (suc m) i j)
    where
      compare_indents :
          (m i j : ℕ)
          → Keeps tokens lines m (if i == j then pure tt else fail (expected_indentation i j))
      compare_indents m i j = elim (Bool-cases (i == j)) [
        | inl t ↦ rw t (pure-Keeps m tt)
        | inr t ↦ rw t (Eats-Keeps (fail-Eats m (expected_indentation i j)))
      ]

  parse_else-Keeps :
      (n : ℕ) (expr : Parser Ast) (start : Location)
      → start.line < length lines
      → Eats tokens lines n expr
      → Keeps tokens lines n (parse_else expr start)
  unfolding parse_else
  parse_else-Keeps n expr start on e = record {
    keeps = λ s f.
        After-if tokens lines s.index (is_text ident (codes "else") s) _ _
          (λ _.
            (Keeps->>= (check_else-Keeps n start on) λ _.
                Keeps->>= (token-Keeps n ident (omega arith))
                  λ _. parse_block_expr-Keeps good n expr start on e).keeps
              s f)
          (λ _. stay s f);
  }

  pub parse_if-Eats :
      (n : ℕ) (expr : Parser Ast)
      → Eats tokens lines n expr
      → Eats tokens lines (suc n) (parse_if expr)
  unfolding parse_if
  parse_if-Eats n expr e = here->>=-Eats good (suc n) _ λ m l lt b.
      let em = Eats-le m n (omega arith) e in
      Eats->>= (eat_text-Eats (suc m) ident (codes "if") (omega arith)) λ _.
        Keeps->>= (Eats-Keeps em) λ test.
          Keeps->>= (parse_block_expr-Keeps good m expr l b.on_line em)
            λ body. Keeps->>= (parse_else-Keeps m expr l b.on_line em) (λ other. pure-Keeps m _)

  pub parse_for-Eats :
      (n : ℕ) (expr : Parser Ast)
      → Eats tokens lines n expr
      → Eats tokens lines (suc n) (parse_for expr)
  unfolding parse_for
  parse_for-Eats n expr e = here->>=-Eats good (suc n) _ λ m l lt b.
      let em = Eats-le m n (omega arith) e in
      Eats->>= (eat_text-Eats (suc m) ident (codes "for") (omega arith)) λ _.
        Keeps->>= (token-Keeps m ident (omega arith)) λ name. Keeps->>= (parse_unknown-Keeps m) λ t.
          Keeps->>= (parse_loop_index-Keeps m) λ i.
            Keeps->>= (text-Keeps m ident (codes "in") (omega arith)) λ _.
              Keeps->>= (Eats-Keeps em) λ x.
                Keeps->>= (parse_block_expr-Keeps good m expr l b.on_line em)
                  (λ body. pure-Keeps m (for_ (untyped l) (variable_at variable name t) i x body))

  pub parse_while-Eats :
      (n : ℕ) (expr : Parser Ast)
      → Eats tokens lines n expr
      → Eats tokens lines (suc n) (parse_while expr)
  unfolding parse_while
  parse_while-Eats n expr e = here->>=-Eats good (suc n) _ λ m l lt b.
      let em = Eats-le m n (omega arith) e in
      Eats->>= (eat_text-Eats (suc m) ident (codes "while") (omega arith)) λ _.
        Keeps->>= (Eats-Keeps em) λ x.
          Keeps->>= (parse_block_expr-Keeps good m expr l b.on_line em) (λ body. pure-Keeps m _)

  pub parse_fn-Eats :
      (n : ℕ) (expr : Parser Ast)
      → Eats tokens lines n expr
      → Eats tokens lines (suc n) (parse_fn expr)
  unfolding parse_fn
  parse_fn-Eats n expr e = here->>=-Eats good (suc n) _ λ m l lt b.
      let em = Eats-le m n (omega arith) e in
      Eats->>= (eat_text-Eats (suc m) ident (codes "fn") (omega arith)) λ _.
        Keeps->>= (parse_fn_signature-Keeps m) λ sig.
          Keeps->>= (parse_block_expr-Keeps good m expr l b.on_line em)
            λ body. Keeps->>= (ask-Keeps m (λ s. s.index)) (λ id. pure-Keeps m _)

  -- The body behind the end of the line.
  body-Keeps :
      (n : ℕ) (expr : Parser Ast) (indent : Location)
      → indent.line < length lines
      → Eats tokens lines n expr
      → Keeps tokens lines n (
          ask (is_text ident (codes "llvm")) >>= λ assembly.
          if assembly then parse_llvm else parse_block expr (some indent))
  body-Keeps zero expr indent on e = Keeps-zero
  body-Keeps (suc n) expr indent on e = record {
    keeps = λ s f. elim (Bool-cases (is_text ident (codes "llvm") s)) [
      | inl t ↦ rw t (
          After-le tokens lines s.index (suc s.index) (parse_llvm s) (omega arith)
            (parse_llvm-After n s f t))
      | inr t ↦ rw t ((parse_block-Keeps good (suc n) expr (some indent) on e).keeps s f)
    ];
  }

  parse_fn_body-Keeps :
      (n : ℕ) (expr : Parser Ast) (indent : Location)
      → indent.line < length lines
      → Eats tokens lines n expr
      → Keeps tokens lines n (parse_fn_body expr indent)
  unfolding parse_fn_body
  parse_fn_body-Keeps n expr indent on e =
      Keeps->>= (token-Keeps n line (omega arith)) (λ _. body-Keeps n expr indent on e)

  body_or_none-Keeps :
      (n : ℕ) (b : Bool) (expr : Parser Ast) (indent : Location)
      → indent.line < length lines
      → Eats tokens lines n expr
      → Keeps tokens lines n (if b then parse_fn_body expr indent else pure absent)
  body_or_none-Keeps n true expr indent on e = parse_fn_body-Keeps n expr indent on e
  body_or_none-Keeps n false expr indent on e = pure-Keeps n absent

  pub parse_fn_decl-Eats :
      (n : ℕ) (expr : Parser Ast)
      → Eats tokens lines n expr
      → Eats tokens lines (suc n) (parse_fn_decl expr)
  unfolding parse_fn_decl
  parse_fn_decl-Eats n expr e = here->>=-Eats good (suc n) _ λ m l lt b.
      Keeps->>=-Eats (attribute-Keeps (suc m) (codes "inline") 4) λ i.
        Keeps->>=-Eats (attribute-Keeps (suc m) (codes "extern") 1) λ x.
          Keeps->>=-Eats (attribute-Keeps (suc m) (codes "builtin") 2) λ u.
            Eats->>= (eat_text-Eats (suc m) ident (codes "fn") (omega arith)) λ _.
              Keeps->>= (token-Keeps m ident (omega arith)) λ name.
                Keeps->>= (parse_type_signature-Keeps m) λ tysig.
                  Keeps->>= (parse_fn_signature-Keeps m) λ sig.
                    Keeps->>=
                      (body_or_none-Keeps m (x + u == 0) expr l b.on_line
                        (Eats-le m n (omega arith) e))
                      λ body. Keeps->>= (fresh-Keeps m) (λ a. pure-Keeps m _)

  pub parse_struct_decl-Eats :
      (n : ℕ) (expr : Parser Ast)
      → Eats tokens lines n expr
      → Eats tokens lines (suc n) (parse_struct_decl expr)
  unfolding parse_struct_decl
  parse_struct_decl-Eats n expr e = here->>=-Eats good (suc n) _ λ m l lt b.
      Eats->>= (eat_text-Eats (suc m) ident (codes "struct") (omega arith)) λ _.
        Keeps->>= (token-Keeps m ident (omega arith)) λ name.
          Keeps->>= (parse_type_signature-Keeps m) λ tysig.
            Keeps->>= (token-Keeps m line (omega arith)) λ _.
              Keeps->>=
                (parse_indent-Keeps good m (some l) (parse_field_line expr) b.on_line
                  (parse_field_line-Eats m expr (Eats-le m n (omega arith) e)))
                (λ fields. pure-Keeps m _)

  path_loop-Keeps :
      (fuel n : ℕ) (path : Bytes) (l : Location)
      → n ≤ fuel
      → Behind tokens lines l n
      → Keeps tokens lines n (path_loop fuel path l)
  unfolding path_loop
  path_loop-Keeps fuel zero path l h b = Keeps-zero
  path_loop-Keeps zero (suc n) path l h b = absurd (omega arith)
  path_loop-Keeps (suc fuel) (suc n) path l h b = record {
    keeps = λ s f. elim (Bool-cases (same_line l s)) [
      | inl t ↦
          rw (t, After)
            (After-le tokens lines s.index (suc s.index) _ (omega arith) (
              word-After n s atom (codes ".") _ (omega arith) f (dot s t) (
                Eats-Keeps (
                  eat_then good n ident _ (omega arith) λ m t lt bt sp.
                    span_then m l t.location _ (sp l (Behind-le l n (suc n) (omega arith) b))
                      b.on_line bt
                      λ l' b'.
                        path_loop-Keeps fuel m (path ++ b'.' ∷ t.data_of.bytes) l' (omega arith)
                          b'))))
      | inr t ↦ rw (t, After) (stay s f)
    ];
  }
    where
      dot : (s : TokenStream) → same_line l s ≡ true → is_text atom (codes ".") s ≡ true
      dot s t = (&&→both (is_text atom (codes ".") s) _ t).0

  pub parse_import-Eats : (n : ℕ) → Eats tokens lines n parse_import
  unfolding parse_import
  parse_import-Eats = Eats-all λ n.
      Eats->>= (eat_text-Eats (suc n) ident (codes "import") (omega arith)) λ _. Eats-Keeps (
        eat_then good n ident _ (omega arith) λ m t lt b sp.
          rounds-Keeps m
            (λ fuel. path_loop fuel t.data_of.bytes t.location >>= λ path.
              pure (Ast.import_ (untyped path.1) path.0))
            λ fuel k le enough.
              Keeps->>=
                (path_loop-Keeps fuel k t.data_of.bytes t.location enough
                  (Behind-le t.location k m le b))
                (λ path. pure-Keeps k _))
