-- ===== src/Tokenize/Marks.antt =====
-- compiler/tokenize.cpp: the line tokens that insertNewline adds, and a string with no end.
use aike.Base.{
  ℕ, suc, ◌≡◌, refl, ap, Bool, true, false, not, List, [], ◌∷◌, ◌++◌, Bytes, if◌then◌else◌,
  Bool-cases, inl, inr, ◌==◌,
}
use aike.Tokenize.Defs.{TokenType, string, line, Token, ok, Line}
use aike.Tokenize.Newlines.{get_line_token, breaks, newlines_from, insert_newline}
use aike.Tokenize.Lexer.{scan, new_token, lex_step, parse_tokens, quoted}

abbrev is_line : TokenType → Bool
is_line line = true
is_line _ = false

-- The tokens that are not line tokens.
pub without_lines : List Token → List Token
without_lines [] = []
without_lines (t ∷ ts) = if is_line t.type then without_lines ts else t ∷ without_lines ts

abbrev pub NoLines : List Token → Type 0
NoLines [] = Unit {0}
NoLines (t ∷ ts) = (is_line t.type ≡ false) × NoLines ts

newlines_from-without_lines :
    (p : Token) (ts : List Token) → NoLines ts → without_lines (newlines_from p ts) ≡ ts
unfolding newlines_from without_lines get_line_token
newlines_from-without_lines p [] h = refl
newlines_from-without_lines p (t ∷ ts) h = elim (Bool-cases (breaks p t)) [
  | inl e ↦ rw (e, h.0) (ap (λ us. t ∷ us) (newlines_from-without_lines t ts h.1))
  | inr e ↦ rw (e, h.0) (ap (λ us. t ∷ us) (newlines_from-without_lines t ts h.1))
]

-- insertNewline only adds line tokens: without them the tokens are those that it was given, in order.
pub insert_newline-without_lines :
    (ts : List Token) → NoLines ts → without_lines (insert_newline ts) ≡ ts
unfolding insert_newline without_lines
insert_newline-without_lines [] h = refl
insert_newline-without_lines (t ∷ ts) h =
    rw h.0 (ap (λ us. t ∷ us) (newlines_from-without_lines t ts h.1))

abbrev pub Lacks : ℕ → Bytes → Type 0
Lacks ch [] = Unit {0}
Lacks ch (c ∷ s) = ((c == ch) ≡ false) × Lacks ch s

scan-Lacks : (ch : ℕ) (s : Bytes) → Lacks ch s → scan (λ c. not (c == ch)) s ≡ (s, [])
unfolding scan
scan-Lacks ch [] h = refl
scan-Lacks ch (c ∷ s) h = rw (h.0, scan-Lacks ch s h.1)

lex-open_string :
    (source : Bytes) (lines : List Line) (offset : ℕ) (s : Bytes)
    → Lacks b'"' s
    → lex_step source lines offset b'"' s ≡ ok (quoted string offset (s, []))
unfolding lex_step
lex-open_string source lines offset s h =
    ap (λ p. ok (quoted string offset p)) (scan-Lacks b'"' s h)

-- A string with no closing quote is no error: parseTokens takes all that follows the quote for its
-- contents, and gives one string token.
pub parse_tokens-open_string :
    (fuel : ℕ) (source : Bytes) (lines : List Line) (tokens : List Token) (offset : ℕ) (s : Bytes)
    → Lacks b'"' s
    → parse_tokens (suc (suc fuel)) source lines tokens offset (b'"' ∷ s)
      ≡ ok (tokens ++ new_token string (suc offset) s offset ∷ [])
unfolding parse_tokens
parse_tokens-open_string fuel source lines tokens offset s h =
    rw (lex-open_string source lines offset s h)
