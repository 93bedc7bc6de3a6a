-- ===== src/Tokenize/Defs.antt =====
-- compiler/tokenize.hpp, and the character classes of compiler/tokenize.cpp. A character is its code;
-- codes from 128 on, negative as a signed char, are in no class.
use aike.Base.{ℕ, Bool, false, ◌&&◌, ◌||◌, [], ◌∷◌, Bytes, leb, ◌==◌}
use aike.Types.Syntax.{Location}

pub record Line : Type 0 where
  pub indent : ℕ
  pub offset : ℕ

pub data TokenType : Type 0 where
  atom bracket ident string character number line end : TokenType

-- Str as a part of the source: where it starts, and its bytes.
pub record Slice : Type 0 where
  pub start : ℕ
  pub bytes : Bytes

-- `matching` is never set.
pub record Token : Type 0 where
  pub type : TokenType
  pub data_of : Slice
  pub offset : ℕ
  pub matching : ℕ
  pub location : Location

-- What Output::panic reports.
pub data Problem : Type 0 where
  has_tab : Problem
  unknown_character : ℕ → Problem
  unmatched_closing : Problem
  mismatched_closing : Bytes → ℕ → ℕ → Problem
  unmatched_opening : Bytes → Problem

-- The outcome of a pass. `panic` ends the compiler, `assertion` is a failed one, and `out_of_fuel`
-- has no counterpart in the source.
pub data Lex {ℓ} (A : Type ℓ) : Type ℓ where
  ok : A → Lex A
  panic : Problem → Location → Lex A
  assertion : Lex A
  out_of_fuel : Lex A

infixl 1 ◌>>=◌
abbrev pub ◌>>=◌ {ℓ κ} : {A : Type ℓ} {B : Type κ} → Lex A → (A → Lex B) → Lex B
ok a >>= f = f a
panic p l >>= f = panic p l
assertion >>= f = assertion
out_of_fuel >>= f = out_of_fuel

unfoldable pub in_range : ℕ → ℕ → ℕ → Bool
in_range ch min max = leb min ch && leb ch max

unfoldable pub is_space : ℕ → Bool
is_space ch = ch == b' ' || (ch == 13 || ch == 10)

unfoldable pub is_digit : ℕ → Bool
unfolding in_range
is_digit ch = in_range ch b'0' b'9'

unfoldable pub is_number : ℕ → Bool
unfolding is_digit
is_number ch =
    is_digit ch
    || (ch == b'_' || (ch == b'.' || (ch == b'e' || (ch == b'E' || (ch == b'+' || ch == b'-')))))

unfoldable pub is_ident_start : ℕ → Bool
unfolding in_range
is_ident_start ch = in_range ch b'a' b'z' || (in_range ch b'A' b'Z' || ch == b'_')

unfoldable pub is_ident : ℕ → Bool
unfolding is_ident_start is_digit
is_ident ch = is_ident_start ch || is_digit ch

-- The members of a set of characters.
unfoldable pub one_of : Bytes → ℕ → Bool
one_of [] ch = false
one_of (c ∷ cs) ch = ch == c || one_of cs ch

abbrev pub brackets : Bytes
brackets = b'(' ∷ b')' ∷ b'[' ∷ b']' ∷ b'{' ∷ b'}' ∷ []

abbrev pub atoms : Bytes
atoms =
    b'!' ∷ b'$' ∷ b'%' ∷ b'&' ∷ b'*' ∷ b'+' ∷ b',' ∷ b'-' ∷ b'.' ∷ b'/' ∷ b':' ∷ b';' ∷ b'<' ∷ b'='
    ∷ b'>' ∷ b'?' ∷ b'@' ∷ 92 ∷ b'^' ∷ b'`' ∷ b'|' ∷ b'~' ∷ []

unfoldable pub is_bracket : ℕ → Bool
unfolding one_of
is_bracket = one_of brackets

unfoldable pub is_atom : ℕ → Bool
unfolding one_of
is_atom = one_of atoms
