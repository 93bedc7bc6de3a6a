-- ===== src/Parse/OperatorEnds.antt =====
-- compiler/parse.cpp: where an operator is found, there is a token; and the climb over operators ends.
use aike.Base.{
  ℕ, zero, suc, ◌*◌, ◌≤◌, ◌<◌, ◌≡◌, refl, true, false, List, Bytes, if◌then◌else◌, arith,
  Bool-cases, ◌⊎◌, inl, inr, ◌==◌,
}
use aike.Mangle.Text.{codes}
use aike.Tokenize.Defs.{Line, TokenType, Token, atom, ident, end}
use aike.Tree.Ast.{Ast}
use aike.Parse.Stream.{TokenStream, Parser, ◌>>=◌, here, get, is, is_text}
use aike.Parse.Operators.{OpDef, parse_unary_op, parse_binary_op, lower_binary_op}
use aike.Parse.Whole.{goes_on, climb, climb_right, parse_expr_climb}
use aike.Parse.Steps.{
  IsReal, is_text-not_end, Fits, After, Eats, Keeps, After-le, After->>=, Fits-next, Eats-Keeps,
  Eats-le, Keeps-zero, Keeps->>=, move-then,
}
use aike.Parse.LoopEnds.{stay, rounds-Keeps}

-- The operator has no priority, or there is a token.
abbrev Found : {Op : Type 0} → TokenStream → OpDef Op → Type 0
Found s d = (d.priority ≡ 0) ⊎ (is end s ≡ false)

Found-if :
    {Op : Type 0} (s : TokenStream) (k : TokenType) (text : Bytes) (x y : OpDef Op)
    → IsReal k
    → Found s y
    → Found s (if is_text k text s then x else y)
Found-if s k text x y r h = elim (Bool-cases (is_text k text s)) [
  | inl t ↦ inr (is_text-not_end k text s r t)
  | inr t ↦ rw t h
]

parse_unary_op-Found : (s : TokenStream) → Found s (parse_unary_op s)
unfolding parse_unary_op
parse_unary_op-Found s = Found-if s atom (codes "+") _ _ (omega arith) (
    Found-if s atom (codes "-") _ _ (omega arith) (
      Found-if s ident (codes "not") _ _ (omega arith) (
        Found-if s atom (codes "*") _ _ (omega arith)
          (Found-if s ident (codes "new") _ _ (omega arith) (inl refl)))))

parse_binary_op-Found : (s : TokenStream) → Found s (parse_binary_op s)
unfolding parse_binary_op
parse_binary_op-Found s = Found-if s atom (codes "*%") _ _ (omega arith) (
    Found-if s atom (codes "*") _ _ (omega arith) (
      Found-if s atom (codes "/") _ _ (omega arith) (
        Found-if s atom (codes "%") _ _ (omega arith) (
          Found-if s atom (codes "+%") _ _ (omega arith) (
            Found-if s atom (codes "+") _ _ (omega arith) (
              Found-if s atom (codes "-%") _ _ (omega arith) (
                Found-if s atom (codes "-") _ _ (omega arith) (
                  Found-if s atom (codes "<") _ _ (omega arith) (
                    Found-if s atom (codes "<=") _ _ (omega arith) (
                      Found-if s atom (codes ">") _ _ (omega arith) (
                        Found-if s atom (codes ">=") _ _ (omega arith) (
                          Found-if s atom (codes "==") _ _ (omega arith) (
                            Found-if s atom (codes "!=") _ _ (omega arith) (
                              Found-if s ident (codes "and") _ _ (omega arith) (
                                Found-if s ident (codes "or") _ _ (omega arith)
                                  (inl refl))))))))))))))))

pub unary-not_end :
    (s : TokenStream) → ((parse_unary_op s).priority == 0) ≡ false → is end s ≡ false
unary-not_end s h = elim (parse_unary_op-Found s) [
  | inl e ↦ absurd (omega (arith, e, zero_only (parse_unary_op s).priority h))
  | inr e ↦ e
]
  where
    zero_only : (p : ℕ) → (p == 0) ≡ false → 0 < p
    zero_only p h = ground arith

goes_on-pos : (p limit : ℕ) → goes_on p limit ≡ true → 0 < p
goes_on-pos p limit h = ground arith

goes_on_self : (p limit : ℕ) → goes_on p limit ≡ true → goes_on p p ≡ true
goes_on_self p limit h = ground arith

pub binary-not_end :
    (s : TokenStream) (limit : ℕ)
    → goes_on (parse_binary_op s).priority limit ≡ true
    → is end s ≡ false
binary-not_end s limit h = elim (parse_binary_op-Found s) [
  | inl e ↦ absurd (omega (arith, e, goes_on-pos (parse_binary_op s).priority limit h))
  | inr e ↦ e
]

module _ {tokens : List Token} {lines : List Line} where
  -- A round of the climb, where the calls after its operand go on.
  climb-go :
      (fuel n : ℕ) (primary : Parser Ast) (left : Ast) (limit : ℕ) (s : TokenStream)
      → Eats tokens lines n primary
      → ((right : Ast) (p : ℕ) → Keeps tokens lines n (climb_right fuel primary right p))
      → ((e : Ast) → Keeps tokens lines n (climb fuel primary e limit))
      → Fits tokens lines (suc n) s
      → goes_on (parse_binary_op s).priority limit ≡ true
      → After tokens lines (suc s.index) (climb (suc fuel) primary left limit s)
  unfolding climb here
  climb-go fuel n primary left limit s p kr kc f h =
      rw (h, After)
        (move-then n s
          (primary >>= λ first.
            climb_right fuel primary first (parse_binary_op s).priority >>= λ right.
            climb fuel primary (lower_binary_op (parse_binary_op s) left right (get s).location)
              limit)
          f (binary-not_end s limit h)
          (Keeps->>= (Eats-Keeps p)
            λ first. Keeps->>= (kr first (parse_binary_op s).priority) (λ right. kc _)))

  climb-stops :
      (fuel n : ℕ) (primary : Parser Ast) (left : Ast) (limit : ℕ) (s : TokenStream)
      → Fits tokens lines n s
      → goes_on (parse_binary_op s).priority limit ≡ false
      → After tokens lines s.index (climb (suc fuel) primary left limit s)
  unfolding climb
  climb-stops fuel n primary left limit s f h = rw (h, After) (stay s f)

  right-stops :
      (fuel n : ℕ) (primary : Parser Ast) (right : Ast) (p : ℕ) (s : TokenStream)
      → Fits tokens lines n s
      → goes_on (parse_binary_op s).priority (suc p) ≡ false
      → After tokens lines s.index (climb_right (suc fuel) primary right p s)
  unfolding climb
  right-stops fuel n primary right p s f h = rw (h, After) (stay s f)

  right-go :
      (fuel n : ℕ) (primary : Parser Ast) (right : Ast) (p : ℕ) (s : TokenStream)
      → ((e : Ast) → Keeps tokens lines n (climb_right fuel primary e p))
      → Fits tokens lines (suc n) s
      → goes_on (parse_binary_op s).priority (suc p) ≡ true
      → After tokens lines (suc s.index) (climb fuel primary right (parse_binary_op s).priority s)
      → After tokens lines (suc s.index) (climb_right (suc fuel) primary right p s)
  unfolding climb
  right-go fuel n primary right p s k f h a =
      rw (h, After)
        (After->>= (suc s.index) (suc s.index)
          (climb fuel primary right (parse_binary_op s).priority s)
          (λ e. climb_right fuel primary e p) a
          (λ e s' b.
            After-le tokens lines (suc s.index) s'.index (climb_right fuel primary e p s') b.3
              ((k e).keeps s' (Fits-next (suc n) (suc s.index) s s' f b n (omega (arith, f.few))))))

  mutual
    climb-Keeps :
        (fuel n : ℕ) (primary : Parser Ast) (left : Ast) (limit : ℕ)
        → 2 * n ≤ suc fuel
        → Eats tokens lines n primary
        → Keeps tokens lines n (climb fuel primary left limit)
    climb-Keeps fuel zero primary left limit h p = Keeps-zero
    climb-Keeps zero (suc n) primary left limit h p = absurd (omega arith)
    climb-Keeps (suc fuel) (suc n) primary left limit h p =
        let pn = Eats-le n (suc n) (omega arith) p in
        record {
          keeps = λ s f. elim (Bool-cases (goes_on (parse_binary_op s).priority limit)) [
            | inl t ↦
                After-le tokens lines s.index (suc s.index) (climb (suc fuel) primary left limit s)
                  (omega arith)
                  (climb-go fuel n primary left limit s pn
                    (λ right q. climb_right-Keeps fuel n primary right q (omega arith) pn)
                    (λ e. climb-Keeps fuel n primary e limit (omega arith) pn) f t)
            | inr t ↦ climb-stops fuel (suc n) primary left limit s f t
          ];
        }

    climb_right-Keeps :
        (fuel n : ℕ) (primary : Parser Ast) (right : Ast) (q : ℕ)
        → 2 * n ≤ fuel
        → Eats tokens lines n primary
        → Keeps tokens lines n (climb_right fuel primary right q)
    climb_right-Keeps fuel zero primary right q h p = Keeps-zero
    climb_right-Keeps zero (suc n) primary right q h p = absurd (omega arith)
    climb_right-Keeps (suc zero) (suc n) primary right q h p = absurd (omega arith)
    climb_right-Keeps (suc (suc fuel)) (suc n) primary right q h p =
        let pn = Eats-le n (suc n) (omega arith) p in
        record {
          keeps = λ s f. elim (Bool-cases (goes_on (parse_binary_op s).priority (suc q))) [
            | inl t ↦
                After-le tokens lines s.index (suc s.index)
                  (climb_right (suc (suc fuel)) primary right q s) (omega arith)
                  (right-go (suc fuel) n primary right q s
                    (λ e. climb_right-Keeps (suc fuel) n primary e q (omega arith) pn) f t
                    (climb-go fuel n primary right (parse_binary_op s).priority s pn
                      (λ r k. climb_right-Keeps fuel n primary r k (omega arith) pn)
                      (λ e.
                        climb-Keeps fuel n primary e (parse_binary_op s).priority (omega arith) pn)
                      f (goes_on_self (parse_binary_op s).priority (suc q) t)))
            | inr t ↦ right-stops (suc fuel) (suc n) primary right q s f t
          ];
        }

  pub parse_expr_climb-Keeps :
      (n : ℕ) (primary : Parser Ast) (left : Ast) (limit : ℕ)
      → Eats tokens lines n primary
      → Keeps tokens lines n (parse_expr_climb primary left limit)
  unfolding parse_expr_climb
  parse_expr_climb-Keeps n primary left limit p =
      rounds-Keeps n (λ fuel. climb (2 * fuel) primary left limit)
        λ fuel m le enough.
          climb-Keeps (2 * fuel) m primary left limit (omega arith) (Eats-le m n le p)
