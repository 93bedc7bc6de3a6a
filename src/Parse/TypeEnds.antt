-- ===== src/Parse/TypeEnds.antt =====
-- compiler/parse.cpp: the parsers of types end, within the fuel and with no failed assertion.
use aike.Base.{ℕ, zero, suc, ◌≤◌, ◌≡◌, true, List, Bytes, arith}
use aike.Types.Syntax.{Ty, void, bool, integer, float, string, pointer, function}
use aike.Mangle.Text.{codes}
use aike.Tokenize.Defs.{Line, Token, atom, bracket, ident}
use aike.Parse.Stream.{Parser, ◌>>=◌, pure, is, is_text, eat_text}
use aike.Parse.Types.{
  to_tys, argument_list, parse_unknown, parse_tuple_type, parse_array_type,
  parse_type_arguments_with, parse_instance_type, type_step, type_on, parse_type,
  parse_type_arguments, parse_generic, parse_type_signature, parse_type_ascription, parse_argument,
  parse_fn_signature,
}
use aike.Parse.Steps.{
  Eats, Keeps, Eats-Keeps, Eats-zero, Keeps->>=, Eats->>=, pure-Keeps, fresh-Keeps,
}
use aike.Parse.Eating.{eat-Eats, eat_text-Eats}
use aike.Parse.LoopEnds.{
  After-if, stay, text-Keeps, rounds-Eats, comma_list-Keeps, argument_list-Keeps,
  parse_unknown-Keeps, Eats-all, word-After, word_or-Keeps,
}

module _ {tokens : List Token} {lines : List Line} where
  -- The parsers of a type, where the recursive call eats.
  module _ (n : ℕ) (rec : Parser Ty) (e : Eats tokens lines n rec) where
    rec-Keeps : Keeps tokens lines n rec
    rec-Keeps = Eats-Keeps e

    parse_tuple_type-Eats : Eats tokens lines (suc n) (parse_tuple_type rec)
    unfolding parse_tuple_type
    parse_tuple_type-Eats = Eats->>= (eat_text-Eats (suc n) bracket (codes "(") (omega arith)) λ _.
        Keeps->>= (comma_list-Keeps n bracket (codes ")") rec e)
          λ fields. Keeps->>= (text-Keeps n bracket (codes ")") (omega arith)) (λ _. pure-Keeps n _)

    parse_array_type-Eats : Eats tokens lines (suc n) (parse_array_type rec)
    unfolding parse_array_type
    parse_array_type-Eats = Eats->>= (eat_text-Eats (suc n) bracket (codes "[") (omega arith)) λ _.
        Keeps->>= rec-Keeps
          λ t. Keeps->>= (text-Keeps n bracket (codes "]") (omega arith)) (λ _. pure-Keeps n _)

    -- Behind the word `fn`.
    function_rest-Keeps : Keeps tokens lines n (
        eat_text bracket (codes "(") >>= λ _. argument_list rec >>= λ args.
        eat_text bracket (codes ")") >>= λ _. eat_text atom (codes ":") >>= λ _.
        rec >>= λ ret. pure (function (to_tys args.0) ret args.1))
    function_rest-Keeps = Keeps->>= (text-Keeps n bracket (codes "(") (omega arith)) λ _.
        Keeps->>= (argument_list-Keeps n rec e) λ args.
          Keeps->>= (text-Keeps n bracket (codes ")") (omega arith)) λ _.
            Keeps->>= (text-Keeps n atom (codes ":") (omega arith))
              λ _. Keeps->>= rec-Keeps (λ ret. pure-Keeps n _)

    pub parse_type_arguments_with-Keeps : Keeps tokens lines n (parse_type_arguments_with rec)
    unfolding parse_type_arguments_with
    parse_type_arguments_with-Keeps = record {
      keeps = λ s f.
          After-if tokens lines s.index (is_text atom (codes ".<") s) _ _
            (λ _.
              (Keeps->>= (text-Keeps n atom (codes ".<") (omega arith)) λ _.
                  Keeps->>= (comma_list-Keeps n atom (codes ">") rec e) λ args.
                    Keeps->>= (text-Keeps n atom (codes ">") (omega arith))
                      (λ _. pure-Keeps n args)).keeps
                s f)
            (λ _. stay s f);
    }

    parse_instance_type-Eats : Eats tokens lines (suc n) (parse_instance_type rec)
    unfolding parse_instance_type
    parse_instance_type-Eats =
        Eats->>= (eat-Eats (suc n) ident (omega arith))
          λ name. Keeps->>= parse_type_arguments_with-Keeps (λ tysig. pure-Keeps n _)

    type_step-Eats : Eats tokens lines (suc n) (type_step rec)
    unfolding type_step
    type_step-Eats = record {
      eats = λ s f.
          let i = suc s.index in
          let plain = λ (t : Ty) (text : Bytes) (h : is_text ident text s ≡ true).
            word-After n s ident text (pure t) (omega arith) f h (pure-Keeps n t) in
          After-if tokens lines i _ _ _
            (λ h.
              word-After n s ident (codes "_") parse_unknown (omega arith) f h
                (parse_unknown-Keeps n))
            λ _. After-if tokens lines i _ _ _ (plain void (codes "void")) λ _.
              After-if tokens lines i _ _ _ (plain bool (codes "bool")) λ _.
                After-if tokens lines i _ _ _ (plain integer (codes "int")) λ _.
                  After-if tokens lines i _ _ _ (plain float (codes "float")) λ _.
                    After-if tokens lines i _ _ _ (plain string (codes "string")) λ _.
                      After-if tokens lines i (is_text bracket (codes "(") s) _ _
                        (λ _. parse_tuple_type-Eats.eats s f)
                        λ _.
                          After-if tokens lines i (is_text bracket (codes "[") s) _ _
                            (λ _. parse_array_type-Eats.eats s f)
                            λ _.
                              After-if tokens lines i (is_text atom (codes "*") s) _ _
                                (λ h.
                                  word-After n s atom (codes "*") (rec >>= λ t. pure (pointer t))
                                    (omega arith) f h
                                    (Keeps->>= rec-Keeps (λ t. pure-Keeps n (pointer t))))
                                λ _.
                                  After-if tokens lines i (is_text ident (codes "fn") s) _ _
                                    (λ h.
                                      word-After n s ident (codes "fn") _ (omega arith) f h
                                        function_rest-Keeps)
                                    λ _.
                                      After-if tokens lines i (is ident s) _ _
                                        (λ _. parse_instance_type-Eats.eats s f) λ _. tt;
    }

  type_on-Eats : (fuel n : ℕ) → n ≤ fuel → Eats tokens lines n (type_on fuel)
  unfolding type_on
  type_on-Eats fuel zero h = Eats-zero
  type_on-Eats zero (suc n) h = absurd (omega arith)
  type_on-Eats (suc fuel) (suc n) h =
      type_step-Eats n (type_on fuel) (type_on-Eats fuel n (omega arith))

  pub parse_type-Eats : (n : ℕ) → Eats tokens lines n parse_type
  unfolding parse_type
  parse_type-Eats n = rounds-Eats n type_on (λ fuel m le enough. type_on-Eats fuel m enough)

  pub parse_type_arguments-Keeps : (n : ℕ) → Keeps tokens lines n parse_type_arguments
  unfolding parse_type_arguments
  parse_type_arguments-Keeps n = parse_type_arguments_with-Keeps n parse_type (parse_type-Eats n)

  parse_generic-Eats : (n : ℕ) → Eats tokens lines n parse_generic
  unfolding parse_generic
  parse_generic-Eats = Eats-all λ n.
      Eats->>= (eat-Eats (suc n) ident (omega arith))
        λ name. Keeps->>= (fresh-Keeps n) (λ a. pure-Keeps n _)

  pub parse_type_signature-Keeps : (n : ℕ) → Keeps tokens lines n parse_type_signature
  unfolding parse_type_signature
  parse_type_signature-Keeps n = record {
    keeps = λ s f.
        After-if tokens lines s.index (is_text atom (codes "<") s) _ _
          (λ _.
            (Keeps->>= (text-Keeps n atom (codes "<") (omega arith)) λ _.
                Keeps->>= (comma_list-Keeps n atom (codes ">") parse_generic (parse_generic-Eats n))
                  λ args.
                    Keeps->>= (text-Keeps n atom (codes ">") (omega arith))
                      (λ _. pure-Keeps n args)).keeps
              s f)
          (λ _. stay s f);
  }

  pub parse_type_ascription-Keeps : (n : ℕ) → Keeps tokens lines n parse_type_ascription
  unfolding parse_type_ascription
  parse_type_ascription-Keeps n =
      word_or-Keeps n atom (codes ":") parse_type parse_unknown (omega arith)
        (Eats-Keeps (parse_type-Eats n)) (parse_unknown-Keeps n)

  parse_argument-Eats : (n : ℕ) → Eats tokens lines n parse_argument
  unfolding parse_argument
  parse_argument-Eats = Eats-all λ n.
      Eats->>= (eat-Eats (suc n) ident (omega arith))
        λ name. Keeps->>= (parse_type_ascription-Keeps n) (λ t. pure-Keeps n _)

  pub parse_fn_signature-Keeps : (n : ℕ) → Keeps tokens lines n parse_fn_signature
  unfolding parse_fn_signature
  parse_fn_signature-Keeps n = Keeps->>= (text-Keeps n bracket (codes "(") (omega arith)) λ _.
      Keeps->>= (argument_list-Keeps n parse_argument (parse_argument-Eats n)) λ args.
        Keeps->>= (text-Keeps n bracket (codes ")") (omega arith))
          λ _. Keeps->>= (parse_type_ascription-Keeps n) (λ ret. pure-Keeps n _)
