-- ===== src/Parse/MemberEnds.antt =====
-- compiler/parse.cpp: parseMember, which goes back by a token where a call follows.
use aike.Base.{
  ℕ, zero, suc, ◌-◌, ◌<◌, ◌≡◌, ◌∙◌, refl, ap, false, List, [], ◌∷◌, if◌then◌else◌, length, arith,
  Bool-cases, inl, inr,
}
use aike.Types.Syntax.{Location}
use aike.Mangle.Text.{codes}
use aike.Tokenize.Defs.{Line, Token, atom, ident, end}
use aike.Tree.Ast.{Ast, member}
use aike.Parse.Stream.{TokenStream, Parser, ok, assertion, ◌>>=◌, pure, ask, get, is, move, eat}
use aike.Parse.Layout.{untyped}
use aike.Parse.Terms.{field_ref, starts_call, parse_method, parse_member}
use aike.Parse.Steps.{
  IsTokenized, is-not_end, Fits, After, Eats, Keeps, Behind, After-le, Eats-le, Eats-zero, Eats->>=,
  get-real,
}
use aike.Parse.Eating.{eat_text-Eats, eat_there, eat_missing, get-Behind}
use aike.Parse.TermEnds.{parse_ident-Eats, parse_call-Keeps}

module _ {tokens : List Token} {lines : List Line} (good : IsTokenized tokens lines) where
  move_there :
      (s : TokenStream) → is end s ≡ false → move s ≡ ok (tt, record s { index = suc s.index })
  unfolding move
  move_there s h = ap (λ b. if b then assertion else ok (tt, record s { index = suc s.index })) h

  -- Back on the name, which is read again.
  method-After :
      (m : ℕ) (s s' : TokenStream) (expr : Parser Ast) (operand : Ast) (l : Location)
      → Fits tokens lines (suc m) s
      → s'.tokens ≡ s.tokens
      → s'.lines ≡ s.lines
      → s'.index ≡ suc s.index
      → Behind tokens lines l m
      → Eats tokens lines m expr
      → After tokens lines s.index (parse_method expr operand l s')
  unfolding parse_method
  method-After m s s' expr operand l f et el ei b e =
      let back : TokenStream = record s' { index = s'.index - 1 } in
      let same : back.index ≡ s.index = omega (arith, ei) in
      After-le tokens lines s.index (suc back.index) _ (omega (arith, same)) (
        (Eats->>= (parse_ident-Eats (suc m))
            λ method. parse_call-Keeps good m expr method l (operand ∷ []) b e).eats
          back
          (record {
            same_tokens = et ∙ f.same_tokens;
            same_lines = el ∙ f.same_lines;
            within = omega (arith, same, f.within);
            few = omega (arith, same, f.few);
          }))

  name-Keeps :
      (n : ℕ) (expr : Parser Ast) (operand : Ast)
      → Eats tokens lines n expr
      → Keeps tokens lines n (
          eat ident >>= λ name. ask starts_call >>= λ method.
          if method
          then parse_method expr operand name.location
          else pure (member (untyped name.location) operand (field_ref name)))
  name-Keeps n expr operand e = record {
    keeps = λ s f. elim (Bool-cases (is ident s)) [
      | inl t ↦
          let still = is-not_end ident s (omega arith) t in
          let m = length tokens - s.index in
          let real = get-real n s f still in
          rw (eat_there ident s t, move_there s still)
            (After-name s (record s { index = suc s.index }) (get s) f.same_tokens f.same_lines
              real.1
              (method-After m s (record s { index = suc s.index }) expr operand (get s).location
                (record {
                  same_tokens = f.same_tokens;
                  same_lines = f.same_lines;
                  within = f.within;
                  few = omega (arith, f.within);
                })
                refl refl refl (get-Behind good n s f)
                (Eats-le m n (omega (arith, f.few, f.within)) e)))
      | inr t ↦ rw (eat_missing ident s t) tt
    ];
  }
    where
      After-name :
          (s s' : TokenStream) (name : Token)
          → s.tokens ≡ tokens
          → s.lines ≡ lines
          → s.index < length tokens
          → After tokens lines s.index
              (parse_method expr operand name.location (record s { index = suc s.index }))
          → After tokens lines s.index (
              (if starts_call (record s { index = suc s.index })
                  then parse_method expr operand name.location
                  else pure (member (untyped name.location) operand (field_ref name)))
                (record s { index = suc s.index }))
      After-name s s' name et el lt k =
          elim (Bool-cases (starts_call (record s { index = suc s.index }))) [
            | inl c ↦ rw c k
            | inr c ↦ rw c (et, el, omega arith, omega arith)
          ]

  pub parse_member-Eats :
      (n : ℕ) (expr : Parser Ast) (operand : Ast)
      → Eats tokens lines n expr
      → Eats tokens lines n (parse_member expr operand)
  unfolding parse_member
  parse_member-Eats zero expr operand e = Eats-zero
  parse_member-Eats (suc n) expr operand e =
      Eats->>= (eat_text-Eats (suc n) atom (codes ".") (omega arith))
        λ _. name-Keeps n expr operand (Eats-le n (suc n) (omega arith) e)
