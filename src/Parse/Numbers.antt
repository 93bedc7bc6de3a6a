-- ===== src/Parse/Numbers.antt =====
-- compiler/parse.cpp: parseNumber on the decimal text of a number.
use aike.Base.{
  ℕ, zero, suc, ◌+◌, ◌*◌, ◌/◌, ◌%◌, ◌^◌, ◌≤◌, ◌<◌, ◌≡◌, ap, sym, ◌∙◌, true, [], ◌∷◌, ◌++◌, Bytes,
  if◌then◌else◌, ltb, le→leb, ltb→le, ltb→lt, append_assoc, append-nil, arith, Bool-cases, inl, inr,
}
use aike.Mangle.Text.{decimal_rec, decimal}
use aike.Tokenize.Defs.{number}
use aike.Tree.Ast.{literal_integer}
use aike.Resolve.Members.{strtoll_digits}
use aike.Parse.Stream.{TokenStream, ok, panic, get, is, move, invalid_integer}
use aike.Parse.Layout.{untyped}
use aike.Parse.Steps.{is-not_end}
use aike.Parse.Terms.{Number, parse_number}

strtoll_digit :
    (m d : ℕ) (s : Bytes)
    → d < 10
    → strtoll_digits m ((b'0' + d) ∷ s) ≡ strtoll_digits (m * 10 + d) s
unfolding strtoll_digits
strtoll_digit m d s h =
    rw (le→leb 48 (48 + d) (omega arith), le→leb (48 + d) 57 (omega arith))
      (ap (λ k. strtoll_digits k s) (omega arith))

by_ten : (n fuel : ℕ) → n < suc fuel → 10 ≤ n → n / 10 < fuel
by_ten n fuel h t = omega arith

strtoll_digits-decimal_rec :
    (fuel n : ℕ) (s : Bytes)
    → n < fuel
    → strtoll_digits 0 (decimal_rec fuel n ++ s) ≡ strtoll_digits n s
unfolding decimal_rec
strtoll_digits-decimal_rec zero n s h = absurd (omega arith)
strtoll_digits-decimal_rec (suc fuel) n s h = elim (Bool-cases (ltb n 10)) [
  | inl t ↦ rw t (strtoll_digit 0 n s (ltb→lt n 10 t) ∙ ap (λ k. strtoll_digits k s) (omega arith))
  | inr t ↦ rw t (
      ap (strtoll_digits 0) (append_assoc (decimal_rec fuel (n / 10)) ((b'0' + n % 10) ∷ []) s)
      ∙ (strtoll_digits-decimal_rec fuel (n / 10) ((b'0' + n % 10) ∷ s)
            (by_ten n fuel h (ltb→le n 10 t))
          ∙ (strtoll_digit (n / 10) (n % 10) s (omega arith)
              ∙ ap (λ k. strtoll_digits k s) (omega arith))))
]

pub strtoll_digits-decimal : (n : ℕ) → strtoll_digits 0 (decimal n) ≡ (n, [])
unfolding decimal strtoll_digits
strtoll_digits-decimal n =
    ap (strtoll_digits 0) (sym (append-nil (decimal n)))
    ∙ strtoll_digits-decimal_rec (suc n) n [] (omega arith)

-- A token that holds the decimal digits of a number is read as this number where it is below 2 ^ 63,
-- and is reported as an invalid integer otherwise: no number wraps around.
pub parse_number-decimal :
    (strtod : Bytes → Number) (n : ℕ) (s : TokenStream)
    → is number s ≡ true
    → (get s).data_of.bytes ≡ decimal n
    → parse_number strtod s ≡ (
        if ltb n (2 ^ 63)
        then ok (literal_integer (untyped (get s).location) n, record s { index = suc s.index })
        else panic (invalid_integer (decimal n)) (get s).location)
unfolding parse_number move
parse_number-decimal strtod n s h e =
    rw (h, is-not_end number s (omega arith) h, e, strtoll_digits-decimal n)
      (ap
        (λ b.
          if ltb n (2 ^ 63)
          then ok (literal_integer (untyped (get s).location) n, record s { index = suc s.index })
          else panic (invalid_integer b) (get s).location)
        e)
