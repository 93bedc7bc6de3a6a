-- ===== src/Parse/PartEnds.antt =====
-- compiler/parse.cpp: the parts of declarations end, where parseExpr does.
use aike.Base.{
  ℕ, zero, suc, ◌+◌, ◌-◌, ◌≤◌, ◌<◌, ◌≡◌, true, false, List, [], ◌∷◌, none, some, Bytes, bytes_eq→eq,
  length, arith, Bool-cases, inl, inr, le→leb,
}
use aike.Types.Syntax.{Location}
use aike.Mangle.Text.{codes}
use aike.Tokenize.Defs.{Line, Token, atom, ident, string}
use aike.Tree.Ast.{Ast, absent}
use aike.Parse.Stream.{TokenStream, Parser, ◌>>=◌, pure, ask, is_text, move, eat, eat_text, span}
use aike.Resolve.Members.{value}
use aike.Parse.Types.{parse_type, parse_unknown}
use aike.Parse.Statements.{
  parse_loop_index, parse_llvm, attribute, parse_var_decl, name_loop, parse_initializer,
  parse_field_line, fields_of, variable_at,
}
use aike.Parse.Steps.{
  Spans, Fits, After, Eats, Keeps, Behind, After-le, After->>=, Eats-Keeps, Eats-le, Keeps-le,
  Keeps-zero, Eats-zero, Keeps->>=, Eats->>=, pure-Keeps,
}
use aike.Parse.Eating.{eat-Eats, eat_text-Eats}
use aike.Parse.LoopEnds.{
  stay, text-Keeps, token-Keeps, rounds-Eats, parse_unknown-Keeps, word-After, word_or-Keeps,
}
use aike.Parse.TypeEnds.{parse_type-Eats, parse_type_ascription-Keeps}

module _ {tokens : List Token} {lines : List Line} where
  pub parse_loop_index-Keeps : (n : ℕ) → Keeps tokens lines n parse_loop_index
  unfolding parse_loop_index
  parse_loop_index-Keeps n =
      word_or-Keeps n atom (codes ",")
        (eat ident >>= λ name. parse_unknown >>= λ t. pure (some (variable_at value name t)))
        (pure none) (omega arith)
        (Keeps->>= (token-Keeps n ident (omega arith)) λ name.
          Keeps->>= (parse_unknown-Keeps n) (λ t. pure-Keeps n (some (variable_at value name t))))
        (pure-Keeps n none)

  pub attribute-Keeps : (n : ℕ) (text : Bytes) (bit : ℕ) → Keeps tokens lines n (attribute text bit)
  unfolding attribute
  attribute-Keeps n text bit =
      word_or-Keeps n ident text (pure bit) (pure 0) (omega arith) (pure-Keeps n bit)
        (pure-Keeps n 0)

  parse_initializer-Keeps :
      (n : ℕ) (expr : Parser Ast)
      → Eats tokens lines n expr
      → Keeps tokens lines n (parse_initializer expr)
  unfolding parse_initializer
  parse_initializer-Keeps n expr e =
      word_or-Keeps n atom (codes "=") expr (pure absent) (omega arith) (Eats-Keeps e)
        (pure-Keeps n absent)

  pub parse_var_decl-Eats :
      (n : ℕ) (expr : Parser Ast)
      → Eats tokens lines n expr
      → Eats tokens lines (suc n) (parse_var_decl expr)
  unfolding parse_var_decl
  parse_var_decl-Eats n expr e =
      Eats->>= (eat_text-Eats (suc n) ident (codes "var") (omega arith)) λ _.
        Keeps->>= (token-Keeps n ident (omega arith)) λ name.
          Keeps->>= (parse_type_ascription-Keeps n) λ t.
            Keeps->>= (text-Keeps n atom (codes "=") (omega arith))
              λ _. Keeps->>= (Eats-Keeps e) (λ v. pure-Keeps n _)

  -- Another name behind a comma.
  more_names-Keeps :
      (n : ℕ) (name : Token) (rest : Parser (List Token))
      → Keeps tokens lines n rest
      → Keeps tokens lines n (
          ask (is_text atom (codes ",")) >>= λ more.
          (elim more [ true ↦ (move >>= λ _. rest) | false ↦ pure [] ]) >>= λ names.
          pure (name ∷ names))
  more_names-Keeps zero name rest k = Keeps-zero
  more_names-Keeps (suc n) name rest k = record {
    keeps = λ s f. elim (Bool-cases (is_text atom (codes ",") s)) [
      | inl t ↦
          rw (t, After)
            (After->>= s.index s.index ((move >>= λ _. rest) s) (λ names. pure (name ∷ names))
              (After-le tokens lines s.index (suc s.index) ((move >>= λ _. rest) s) (omega arith) (
                word-After n s atom (codes ",") rest (omega arith) f t
                  (Keeps-le n (suc n) (omega arith) k)))
              (λ names s' a. a))
      | inr t ↦ rw (t, After) (stay s f)
    ];
  }

  name_loop-Eats : (fuel n : ℕ) → n ≤ fuel → Eats tokens lines n (name_loop fuel)
  unfolding name_loop
  name_loop-Eats fuel zero h = Eats-zero
  name_loop-Eats zero (suc n) h = absurd (omega arith)
  name_loop-Eats (suc fuel) (suc n) h = Eats->>= (eat-Eats (suc n) ident (omega arith)) λ name.
      more_names-Keeps n name (name_loop fuel) (Eats-Keeps (name_loop-Eats fuel n (omega arith)))

  pub parse_field_line-Eats :
      (n : ℕ) (expr : Parser Ast)
      → Eats tokens lines n expr
      → Eats tokens lines n (parse_field_line expr)
  unfolding parse_field_line
  parse_field_line-Eats zero expr e = Eats-zero
  parse_field_line-Eats (suc n) expr e =
      rounds-Eats (suc n) _ λ fuel m le enough. line fuel m enough (Eats-le m (suc n) le e)
    where
      line :
          (fuel m : ℕ)
          → m ≤ fuel
          → Eats tokens lines m expr
          → Eats tokens lines m (
              name_loop fuel >>= λ names. eat_text atom (codes ":") >>= λ _.
              parse_type >>= λ type. parse_initializer expr >>= λ e. pure (fields_of names type e))
      line fuel zero enough em = Eats-zero
      line fuel (suc m) enough em = Eats->>= (name_loop-Eats fuel (suc m) enough) λ names.
          Keeps->>= (text-Keeps m atom (codes ":") (omega arith)) λ _.
            Keeps->>= (Eats-Keeps (parse_type-Eats m)) λ t.
              Keeps->>= (parse_initializer-Keeps m expr (Eats-le m (suc m) (omega arith) em))
                (λ i. pure-Keeps m _)

  pub parse_llvm-After :
      (n : ℕ) (s : TokenStream)
      → Fits tokens lines (suc n) s
      → is_text ident (codes "llvm") s ≡ true
      → After tokens lines (suc s.index) (parse_llvm s)
  unfolding parse_llvm
  parse_llvm-After n s f t =
      word-After n s ident (codes "llvm") _ (omega arith) f t
        (Keeps->>= (token-Keeps n string (omega arith)) (λ code. pure-Keeps n _))

  -- The location that joins two others stands where the second one does.
  pub span_then :
      {A : Type 0} (n : ℕ) (l r : Location) (f : Location → Parser A)
      → Spans l r
      → l.line < length lines
      → Behind tokens lines r n
      → ((l' : Location) → Behind tokens lines l' n → Keeps tokens lines n (f l'))
      → Keeps tokens lines n (span l r >>= f)
  unfolding span
  span_then n l r f sp on b k = record {
    keeps = λ s h.
        rw (sp.0, le→leb (l.offset + l.length) r.offset sp.1)
          ((k (record l { length = r.offset + r.length - l.offset })
              (record {
                on_line = on;
                spans = λ i t lt g c.
                    let after = b.spans i t lt g c in
                    (rw (bytes_eq→eq l.source r.source sp.0) after.0, omega (arith, after.1, sp.1));
              })).keeps
            s h);
  }
