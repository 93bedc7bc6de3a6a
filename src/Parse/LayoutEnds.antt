-- ===== src/Parse/LayoutEnds.antt =====
-- compiler/parse.cpp: blocks by indentation end, within the fuel and with no failed assertion.
use aike.Base.{
  ℕ, zero, suc, ◌≤◌, ◌<◌, ◌≡◌, Bool, true, false, not, List, [], ◌∷◌, Option, none, some,
  if◌then◌else◌, length, arith, Bool-cases, inl, inr, leb, ◌==◌,
}
use aike.Types.Syntax.{Location}
use aike.Tokenize.Defs.{Line, Token, line, end}
use aike.Tree.Ast.{Ast}
use aike.Parse.Stream.{
  TokenStream, Parser, ok, pure, fail, get_behind, has_type, is, move, expect, expected_deeper,
  expected_indentation,
}
use aike.Parse.Layout.{
  start_indent, check_first, end_line, leaves_block, after_entry, indent_loop, parse_indent,
  parse_block, skip_line, parse_block_expr,
}
use aike.Parse.Steps.{
  IsTokenized, is-not_end, Fits, After, Eats, Keeps, After-le, Eats-Keeps, Eats-le, Keeps-zero,
  Keeps->>=, Eats->>=, pure-Keeps, fail-Eats, move-After, move-then,
}
use aike.Parse.Eating.{expect-Keeps, get_line_indent-Keeps, here->>=-Keeps}
use aike.Parse.LoopEnds.{After-if, stay, rounds-Keeps}

-- The location of an indent, if there is one, is on a line.
abbrev pub OnLine : List Line → Option Location → Type 0
OnLine lines none = Unit {0}
OnLine lines (some l) = l.line < length lines

module _ {tokens : List Token} {lines : List Line} where
  start_indent-Keeps :
      (n : ℕ) (indent : Option Location)
      → OnLine lines indent
      → Keeps tokens lines n (start_indent indent)
  unfolding start_indent
  start_indent-Keeps n none h = pure-Keeps n 0
  start_indent-Keeps n (some l) h = get_line_indent-Keeps n l h

  check_first-Keeps :
      (n : ℕ) (indent : Option Location) (a b : ℕ) → Keeps tokens lines n (check_first indent a b)
  unfolding check_first
  check_first-Keeps n none a b = pure-Keeps n tt
  check_first-Keeps n (some l) a b = elim (Bool-cases (leb b a)) [
    | inl e ↦ rw e (Eats-Keeps (fail-Eats n (expected_deeper a b)))
    | inr e ↦ rw e (pure-Keeps n tt)
  ]

  -- A line token that may be there.
  line-After :
      (n : ℕ) (s : TokenStream)
      → Fits tokens lines n s
      → is line s ≡ true
      → After tokens lines s.index (move s)
  line-After n s f t =
      After-le tokens lines s.index (suc s.index) (move s) (omega arith)
        (move-After n s f (is-not_end line s (omega arith) t))

  pub end_line-Keeps : (n : ℕ) → Keeps tokens lines n end_line
  unfolding end_line
  end_line-Keeps n = record {
    keeps = λ s f. After-if tokens lines s.index (is line s) (move s) _ (line-After n s f) λ _.
        After-if tokens lines s.index (not (has_type line (get_behind s))) (expect line s)
          (ok (tt, s)) (λ _. (expect-Keeps n line).keeps s f) (λ _. stay s f);
  }

  pub skip_line-Keeps : (n : ℕ) → Keeps tokens lines n skip_line
  unfolding skip_line
  skip_line-Keeps n = record {
    keeps = λ s f.
        After-if tokens lines s.index (is line s) (move s) (ok (tt, s)) (line-After n s f)
          (λ _. stay s f);
  }

  leaves-Keeps :
      (n start first indent : ℕ)
      → Keeps tokens lines n (
          if leb indent start
          then pure true
          else if indent == first
          then pure false
          else fail (expected_indentation first indent))
  leaves-Keeps n start first indent = elim (Bool-cases (leb indent start)) [
    | inl e ↦ rw e (pure-Keeps n true)
    | inr e ↦ elim (Bool-cases (indent == first)) [
      | inl d ↦ rw (e, d) (pure-Keeps n false)
      | inr d ↦ rw (e, d) (Eats-Keeps (fail-Eats n (expected_indentation first indent)))
    ]
  ]

  module _ (good : IsTokenized tokens lines) where
    leaves_block-Keeps :
        (n : ℕ) (indent : Option Location) (start first : ℕ)
        → Keeps tokens lines n (leaves_block indent start first)
    unfolding leaves_block
    leaves_block-Keeps n none start first = pure-Keeps n false
    leaves_block-Keeps n (some _) start first = here->>=-Keeps good n _ λ m l lt b.
        Keeps->>= (get_line_indent-Keeps (suc m) l b.on_line) (leaves-Keeps (suc m) start first)

    after_entry-Keeps :
        (n : ℕ) (indent : Option Location) (start first : ℕ)
        → Keeps tokens lines n (after_entry indent start first)
    unfolding after_entry
    after_entry-Keeps n indent start first = record {
      keeps = λ s f.
          After-if tokens lines s.index (is end s) _ _ (λ _. stay s f)
            (λ _.
              (Keeps->>= (end_line-Keeps n) (λ _. leaves_block-Keeps n indent start first)).keeps s
                f);
    }

    or_stop-Keeps :
        {A : Type 0} (n : ℕ) (stop : Bool) (rest : Parser (List A))
        → Keeps tokens lines n rest
        → Keeps tokens lines n (elim stop [ true ↦ pure [] | false ↦ rest ])
    or_stop-Keeps n true rest k = pure-Keeps n []
    or_stop-Keeps n false rest k = k

    indent_loop-Keeps :
        {A : Type 0} (fuel n : ℕ) (indent : Option Location) (start first : ℕ) (item : Parser A)
        → n ≤ fuel
        → Eats tokens lines n item
        → Keeps tokens lines n (indent_loop fuel indent start first item)
    unfolding indent_loop
    indent_loop-Keeps fuel zero indent start first item h e = Keeps-zero
    indent_loop-Keeps zero (suc n) indent start first item h e = absurd (omega arith)
    indent_loop-Keeps (suc fuel) (suc n) indent start first item h e =
        let rest =
          indent_loop-Keeps fuel n indent start first item (omega arith)
            (Eats-le n (suc n) (omega arith) e) in
        record {
          keeps = λ s f. elim (Bool-cases (is end s)) [
            | inl t ↦ rw (t, After) (stay s f)
            | inr t ↦
                rw (t, After)
                  ((Eats-Keeps (
                      Eats->>= e λ x. Keeps->>= (after_entry-Keeps n indent start first) λ stop.
                        Keeps->>= (or_stop-Keeps n stop _ rest)
                          (λ xs. pure-Keeps n (x ∷ xs)))).keeps
                    s f)
          ];
        }

    pub parse_indent-Keeps :
        {A : Type 0} (n : ℕ) (indent : Option Location) (item : Parser A)
        → OnLine lines indent
        → Eats tokens lines n item
        → Keeps tokens lines n (parse_indent indent item)
    unfolding parse_indent
    parse_indent-Keeps n indent item h e = Keeps->>= (start_indent-Keeps n indent h) λ start.
        here->>=-Keeps good n _ λ m l lt b.
          Keeps->>= (get_line_indent-Keeps (suc m) l b.on_line) λ first.
            Keeps->>= (check_first-Keeps (suc m) indent start first) λ _.
              rounds-Keeps (suc m) (λ fuel. indent_loop fuel indent start first item)
                (λ fuel k le enough.
                  indent_loop-Keeps fuel k indent start first item enough
                    (Eats-le k n (omega arith) e))

    pub parse_block-Keeps :
        (n : ℕ) (expr : Parser Ast) (indent : Option Location)
        → OnLine lines indent
        → Eats tokens lines n expr
        → Keeps tokens lines n (parse_block expr indent)
    unfolding parse_block
    parse_block-Keeps n expr indent h e =
        Keeps->>= (parse_indent-Keeps n indent expr h e) (λ body. pure-Keeps n _)

    pub parse_block_expr-Keeps :
        (n : ℕ) (expr : Parser Ast) (indent : Location)
        → indent.line < length lines
        → Eats tokens lines n expr
        → Keeps tokens lines n (parse_block_expr expr indent)
    unfolding parse_block_expr
    parse_block_expr-Keeps zero expr indent h e = Keeps-zero
    parse_block_expr-Keeps (suc n) expr indent h e = record {
      keeps = λ s f.
          After-if tokens lines s.index (is line s) _ _
            (λ t. After-le tokens lines s.index (suc s.index) _ (omega arith) (
              move-then n s (parse_block expr (some indent)) f (is-not_end line s (omega arith) t)
                (parse_block-Keeps n expr (some indent) h (Eats-le n (suc n) (omega arith) e))))
            (λ _.
              (Keeps->>= (Eats-Keeps e) λ result.
                  Keeps->>= (skip_line-Keeps (suc n)) (λ _. pure-Keeps (suc n) result)).keeps
                s f);
    }
