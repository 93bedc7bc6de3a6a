-- ===== src/Parse/TermEnds.antt =====
-- compiler/parse.cpp: the parsers of terms end, where parseExpr does.
use aike.Base.{
  ℕ, zero, suc, ◌-◌, ◌^◌, ◌≡◌, Bool, true, false, List, [], ◌∷◌, Bytes, length, arith, Bool-cases,
  inl, inr, ltb,
}
use aike.Types.Syntax.{Location}
use aike.Mangle.Text.{codes}
use aike.Tokenize.Defs.{Line, Token, atom, bracket, ident, string, number}
use aike.Tree.Ast.{Ast}
use aike.Resolve.Members.{strtoll_digits}
use aike.Parse.Stream.{TokenStream, Parser, pure, here, get, is, is_text, eat}
use aike.Parse.Terms.{
  Number, parse_call, parse_index, parse_ident, parse_literal_array, struct_name, is_empty,
  struct_arguments, field_value, parse_field_init, parse_literal_struct, float_of, number_of,
  parse_number, group_span, parse_group, starts_struct, parse_string, parse_bool, parse_term,
}
use aike.Parse.Steps.{
  Spans, IsTokenized, is_text-not_end, Fits, After, Eats, Keeps, Behind, Behind-le, Eats-Keeps,
  Eats-le, Keeps-zero, Eats-zero, Keeps->>=, Keeps->>=-Eats, Eats->>=, pure-Keeps, move-then,
}
use aike.Parse.Eating.{eat-Eats, eat_text-Eats, span-Keeps, get-Behind, here->>=-Eats, close_then}
use aike.Parse.LoopEnds.{After-if, stay, text-Keeps, comma_list-Keeps, Eats-all, word_or-Keeps}
use aike.Parse.TypeEnds.{parse_type_arguments-Keeps}

module _ {tokens : List Token} {lines : List Line} where
  pub parse_ident-Eats : (n : ℕ) → Eats tokens lines n parse_ident
  unfolding parse_ident
  parse_ident-Eats = Eats-all λ n.
      Eats->>= (eat-Eats (suc n) ident (omega arith))
        λ name. Keeps->>= (parse_type_arguments-Keeps n) (λ tyargs. pure-Keeps n _)

  struct_name-Keeps : (n : ℕ) → Keeps tokens lines n struct_name
  unfolding struct_name
  struct_name-Keeps n = record {
    keeps = λ s f.
        After-if tokens lines s.index (is ident s) (eat ident s) _
          (λ _. (Eats-Keeps (eat-Eats n ident (omega arith))).keeps s f) (λ _. stay s f);
  }

  struct_arguments-Keeps : (n : ℕ) (name : Token) → Keeps tokens lines n (struct_arguments name)
  unfolding struct_arguments
  struct_arguments-Keeps n name = elim (Bool-cases (is_empty name.data_of.bytes)) [
    | inl e ↦ rw e (pure-Keeps n [])
    | inr e ↦ rw e (parse_type_arguments-Keeps n)
  ]

  parse_string-Eats : (n : ℕ) → Eats tokens lines n parse_string
  unfolding parse_string
  parse_string-Eats =
      Eats-all λ n. Eats->>= (eat-Eats (suc n) string (omega arith)) (λ t. pure-Keeps n _)

  parse_bool-Eats : (n : ℕ) (b : Bool) → Eats tokens lines n (parse_bool b)
  unfolding parse_bool
  parse_bool-Eats n b =
      Eats-all (λ n. Eats->>= (eat-Eats (suc n) ident (omega arith)) (λ t. pure-Keeps n _)) n

  float_of-Keeps : (n : ℕ) (d : Number) (t : Token) → Keeps tokens lines n (float_of d t)
  float_of-Keeps n d t = record {
    keeps = λ s f.
        After-if tokens lines s.index d.whole _ _
          (λ _. After-if tokens lines s.index d.errno _ _ (λ _. tt) (λ _. stay s f)) (λ _. tt);
  }

  number_of-Keeps :
      (n : ℕ) (strtod : Bytes → Number) (t : Token) (r : ℕ × Bytes)
      → Keeps tokens lines n (number_of strtod t r)
  number_of-Keeps n strtod t (i, []) = record {
    keeps = λ s f. After-if tokens lines s.index (ltb i (2 ^ 63)) _ _ (λ _. stay s f) (λ _. tt);
  }
  number_of-Keeps n strtod t (i, _ ∷ _) = record {
    keeps = λ s f. (float_of-Keeps n (strtod t.data_of.bytes) t).keeps s f;
  }

  parse_number-Eats : (n : ℕ) (strtod : Bytes → Number) → Eats tokens lines n (parse_number strtod)
  unfolding parse_number
  parse_number-Eats n strtod =
      Eats-all
        (λ n.
          Eats->>= (eat-Eats (suc n) number (omega arith))
            (λ t. number_of-Keeps n strtod t (strtoll_digits 0 t.data_of.bytes)))
        n

  field_value-Keeps :
      (n : ℕ) (expr : Parser Ast) (name : Token)
      → Eats tokens lines n expr
      → Keeps tokens lines n (field_value expr name)
  unfolding field_value
  field_value-Keeps n expr name e =
      word_or-Keeps n atom (codes "=") expr (pure _) (omega arith) (Eats-Keeps e) (pure-Keeps n _)

  parse_field_init-Eats :
      (n : ℕ) (expr : Parser Ast)
      → Eats tokens lines n expr
      → Eats tokens lines n (parse_field_init expr)
  unfolding parse_field_init
  parse_field_init-Eats zero expr e = Eats-zero
  parse_field_init-Eats (suc n) expr e = Eats->>= (eat-Eats (suc n) ident (omega arith)) λ name.
      Keeps->>= (field_value-Keeps n expr name (Eats-le n (suc n) (omega arith) e))
        (λ v. pure-Keeps n _)

  module _ (good : IsTokenized tokens lines) where
    parse_call-Eats :
        (n : ℕ) (expr : Parser Ast) (callee : Ast) (start : Location) (self : List Ast)
        → Behind tokens lines start n
        → Eats tokens lines n expr
        → Eats tokens lines (suc n) (parse_call expr callee start self)
    unfolding parse_call
    parse_call-Eats n expr callee start self b e =
        Eats->>= (eat_text-Eats (suc n) bracket (codes "(") (omega arith)) λ _.
          Keeps->>= (comma_list-Keeps n bracket (codes ")") expr e) λ args.
            close_then good n start bracket (codes ")") _ (omega arith) b
              λ stop sp. Keeps->>= (span-Keeps n start stop sp) (λ l. pure-Keeps n _)

    pub parse_call-Keeps :
        (n : ℕ) (expr : Parser Ast) (callee : Ast) (start : Location) (self : List Ast)
        → Behind tokens lines start n
        → Eats tokens lines n expr
        → Keeps tokens lines n (parse_call expr callee start self)
    parse_call-Keeps zero expr callee start self b e = Keeps-zero
    parse_call-Keeps (suc n) expr callee start self b e = Eats-Keeps (
        parse_call-Eats n expr callee start self (Behind-le start n (suc n) (omega arith) b)
          (Eats-le n (suc n) (omega arith) e))

    -- With one less in the count, behind the first token.
    pub call-Eats :
        (n : ℕ) (expr : Parser Ast) (callee : Ast) (start : Location) (self : List Ast)
        → Behind tokens lines start n
        → Eats tokens lines n expr
        → Eats tokens lines n (parse_call expr callee start self)
    call-Eats zero expr callee start self b e = Eats-zero
    call-Eats (suc n) expr callee start self b e =
        parse_call-Eats n expr callee start self (Behind-le start n (suc n) (omega arith) b)
          (Eats-le n (suc n) (omega arith) e)

    pub parse_index-Eats :
        (n : ℕ) (expr : Parser Ast) (operand : Ast)
        → Eats tokens lines n expr
        → Eats tokens lines n (parse_index expr operand)
    unfolding parse_index
    parse_index-Eats n expr operand e = here->>=-Eats good n _ λ m l lt b.
        Eats->>= (eat_text-Eats (suc m) bracket (codes "[") (omega arith)) λ _.
          Keeps->>= (Eats-Keeps (Eats-le m n (omega arith) e))
            λ i. Keeps->>= (text-Keeps m bracket (codes "]") (omega arith)) (λ _. pure-Keeps m _)

    parse_literal_array-Eats :
        (n : ℕ) (expr : Parser Ast)
        → Eats tokens lines n expr
        → Eats tokens lines (suc n) (parse_literal_array expr)
    unfolding parse_literal_array
    parse_literal_array-Eats n expr e = here->>=-Eats good (suc n) _ λ m l lt b.
        Eats->>= (eat_text-Eats (suc m) bracket (codes "[") (omega arith)) λ _.
          Keeps->>= (comma_list-Keeps m bracket (codes "]") expr (Eats-le m n (omega arith) e))
            λ es. Keeps->>= (text-Keeps m bracket (codes "]") (omega arith)) (λ _. pure-Keeps m _)

    parse_literal_struct-Eats :
        (n : ℕ) (expr : Parser Ast)
        → Eats tokens lines n expr
        → Eats tokens lines (suc n) (parse_literal_struct expr)
    unfolding parse_literal_struct
    parse_literal_struct-Eats n expr e = here->>=-Eats good (suc n) _ λ m l lt b.
        Keeps->>=-Eats (struct_name-Keeps (suc m)) λ name.
          Keeps->>=-Eats (struct_arguments-Keeps (suc m) name) λ tyargs.
            Eats->>= (eat_text-Eats (suc m) bracket (codes "{") (omega arith)) λ _.
              Keeps->>=
                (comma_list-Keeps m bracket (codes "}") (parse_field_init expr)
                  (parse_field_init-Eats m expr (Eats-le m n (omega arith) e)))
                λ fields.
                  Keeps->>= (text-Keeps m bracket (codes "}") (omega arith)) (λ _. pure-Keeps m _)

    group_span-Keeps :
        (n : ℕ) (start stop : Location) (es : List Ast)
        → Spans start stop
        → Keeps tokens lines n (group_span start stop es)
    group_span-Keeps n start stop [] sp =
        Keeps->>= (span-Keeps n start stop sp) (λ l. pure-Keeps n _)
    group_span-Keeps n start stop (e ∷ []) sp = pure-Keeps n e
    group_span-Keeps n start stop (e ∷ f ∷ es) sp =
        Keeps->>= (span-Keeps n start stop sp) (λ l. pure-Keeps n _)

    -- The stream counted exactly.
    pub exactly :
        (n : ℕ) (s : TokenStream)
        → Fits tokens lines n s
        → Fits tokens lines (suc (length tokens - s.index)) s
    exactly n s f = record {
      same_tokens = f.same_tokens;
      same_lines = f.same_lines;
      within = f.within;
      few = omega (arith, f.within);
    }

    parse_group-After :
        (n : ℕ) (s : TokenStream) (expr : Parser Ast)
        → Fits tokens lines (suc n) s
        → is_text bracket (codes "(") s ≡ true
        → Eats tokens lines n expr
        → After tokens lines (suc s.index) (parse_group expr s)
    unfolding parse_group here
    parse_group-After n s expr f t e =
        let m = length tokens - s.index in
        let em = Eats-le m n (omega (arith, f.few, f.within)) e in
        move-then m s _ (exactly (suc n) s f)
          (is_text-not_end bracket (codes "(") s (omega arith) t)
          (Keeps->>= (comma_list-Keeps m bracket (codes ")") expr em) λ fields.
            close_then good m (get s).location bracket (codes ")") _ (omega arith)
              (get-Behind good (suc n) s f)
              λ stop sp. group_span-Keeps m (get s).location stop fields sp)

    pub parse_term-Eats :
        (n : ℕ) (strtod : Bytes → Number) (expr : Parser Ast)
        → Eats tokens lines n expr
        → Eats tokens lines (suc n) (parse_term strtod expr)
    unfolding parse_term
    parse_term-Eats n strtod expr e = record {
      eats = λ s f.
          let i = suc s.index in
          After-if tokens lines i (is_text ident (codes "true") s) _ _
            (λ _. (parse_bool-Eats (suc n) true).eats s f)
            λ _.
              After-if tokens lines i (is_text ident (codes "false") s) _ _
                (λ _. (parse_bool-Eats (suc n) false).eats s f)
                λ _.
                  After-if tokens lines i (is number s) _ _
                    (λ _. (parse_number-Eats (suc n) strtod).eats s f)
                    λ _.
                      After-if tokens lines i (is string s) _ _
                        (λ _. (parse_string-Eats (suc n)).eats s f)
                        λ _.
                          After-if tokens lines i (starts_struct s) _ _
                            (λ _. (parse_literal_struct-Eats n expr e).eats s f)
                            λ _.
                              After-if tokens lines i (is_text bracket (codes "[") s) _ _
                                (λ _. (parse_literal_array-Eats n expr e).eats s f)
                                λ _.
                                  After-if tokens lines i (is ident s) _ _
                                    (λ _. (parse_ident-Eats (suc n)).eats s f)
                                    λ _.
                                      After-if tokens lines i (is_text bracket (codes "(") s) _ _
                                        (λ t. parse_group-After n s expr f t e) λ _. tt;
    }
