-- ===== src/Tokenize/Lexer.antt =====
-- compiler/tokenize.cpp: scan and parseTokens. The text from `offset` on is `rest`, and a round of
-- the loop takes a unit of fuel.
use aike.Base.{
  ℕ, zero, suc, ◌+◌, Bool, not, ◌||◌, List, [], ◌∷◌, ◌++◌, Bytes, if◌then◌else◌, ◌==◌, length,
}
use aike.Types.Content.{nowhere}
use aike.Tokenize.Defs.{
  Line, TokenType, atom, bracket, ident, string, character, number, Token, Lex, ok, panic,
  out_of_fuel, unknown_character, ◌>>=◌, is_space, is_digit, is_number, is_ident_start, is_ident,
  is_bracket, is_atom,
}
use aike.Tokenize.Lines.{get_location, drop_one}

-- `while (end < data.size && fn(data[end])) end++;`: the part taken, and what follows it.
unfoldable pub scan : (ℕ → Bool) → Bytes → Bytes × Bytes
scan fn [] = ([], [])
scan fn (ch ∷ rest) =
    let (taken, after) = scan fn rest in if fn ch then (ch ∷ taken, after) else ([], ch ∷ rest)

-- A token as parseTokens pushes it: what its initializer leaves out is zero.
abbrev pub new_token : TokenType → ℕ → Bytes → ℕ → Token
new_token type start bytes offset = record {
  type = type;
  data_of = record { start = start; bytes = bytes };
  offset = offset;
  matching = 0;
  location = nowhere;
}

-- What one round of the loop does with the text `ch ∷ rest` at `offset`: the tokens that it pushes
-- and the text that it leaves. The next offset is that of the text that is left, but for a string
-- with no end, after which it is past the end of the data.
pub record Step : Type 0 where
  pub pushed : List Token
  pub left : Bytes
  pub next : ℕ

abbrev pub scanned : TokenType → ℕ → Bytes × Bytes → Step
scanned type offset (taken, after) = record {
  pushed = new_token type offset taken offset ∷ [];
  left = after;
  next = offset + length taken;
}

abbrev pub quoted : TokenType → ℕ → Bytes × Bytes → Step
quoted type offset (taken, after) = record {
  pushed = new_token type (suc offset) taken offset ∷ [];
  left = drop_one after;
  next = suc (suc offset + length taken);
}

abbrev pub skipped : ℕ → Bytes × Bytes → Step
skipped offset (taken, after) = record { pushed = []; left = after; next = offset + length taken }

unfoldable pub lex_step : Bytes → List Line → ℕ → ℕ → Bytes → Lex Step
unfolding scan is_space is_digit is_number is_ident_start is_ident is_bracket is_atom
lex_step source lines offset ch rest =
    if is_space ch
    then ok (record { pushed = []; left = rest; next = suc offset })
    else if ch == b'#'
    then ok (skipped offset (scan (λ c. not (c == 10)) (ch ∷ rest)))
    else if is_ident_start ch
    then ok (scanned ident offset (scan is_ident (ch ∷ rest)))
    else if is_digit ch
    then ok (scanned number offset (scan is_number (ch ∷ rest)))
    else if ch == b'"' || ch == 39
    then ok
        (quoted (if ch == b'"' then string else character) offset (scan (λ c. not (c == ch)) rest))
    else if is_bracket ch
    then ok (record {
      pushed = new_token bracket offset (ch ∷ []) offset ∷ [];
      left = rest;
      next = suc offset;
    })
    else if is_atom ch
    then ok (scanned atom offset (scan is_atom (ch ∷ rest)))
    else (get_location source lines offset 1 >>= λ l. panic (unknown_character ch) l)

unfoldable pub parse_tokens : ℕ → Bytes → List Line → List Token → ℕ → Bytes → Lex (List Token)
unfolding lex_step
parse_tokens zero source lines tokens offset rest = out_of_fuel
parse_tokens (suc fuel) source lines tokens offset [] = ok tokens
parse_tokens (suc fuel) source lines tokens offset (ch ∷ rest) = do
  s ← lex_step source lines offset ch rest
  parse_tokens fuel source lines (tokens ++ s.pushed) s.next s.left
