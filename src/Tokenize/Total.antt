-- ===== src/Tokenize/Total.antt =====
-- compiler/tokenize.cpp: tokenize ends, and none of its assertions fails.
use aike.Base.{
  ℕ, zero, suc, ◌≤◌, ◌<◌, ◌≡◌, Bool, true, not, ◌||◌, List, [], ◌∷◌, ◌++◌, Bytes, if◌then◌else◌,
  ◌==◌, length, arith, Bool-cases, inl, inr, lt→ltb, le→leb, bytes_eq, ◌-◌,
}
use aike.Tokenize.Defs.{
  Line, TokenType, atom, ident, string, character, number, Token, Lex, ok, panic, assertion,
  out_of_fuel, ◌>>=◌, is_space, is_digit, is_number, is_ident_start, is_ident, is_bracket, is_atom,
}
use aike.Tokenize.Lines.{get_location, parse_lines}
use aike.Tokenize.Lexer.{scan, Step, scanned, quoted, lex_step, parse_tokens}
use aike.Tokenize.Brackets.{
  match_brackets, match_from, match_bracket, close_bracket, then_match, is_bracket_token,
  is_opening, get_closing_bracket,
}
use aike.Tokenize.Newlines.{insert_newline}
use aike.Tokenize.Whole.{Tokens, end_of, set_locations, tokenize}
use aike.Tokenize.Ends.{
  Ends, Ends->>=, Ends-if, StartsText, parse_lines_start, get_location-Ends, length-drop_one,
}

-- The tokens lie one behind the other between two offsets; none of them is empty, and the text of
-- each starts at its offset or behind.
abbrev pub Spaced : ℕ → List Token → ℕ → Type 0
Spaced last [] stop = last ≤ stop
Spaced last (t ∷ ts) stop =
    ((t.offset < end_of t) × (t.offset ≤ t.data_of.start))
    × (last ≤ t.offset)
    × Spaced (end_of t) ts stop

Spaced-append :
    (a b c : ℕ) (ts us : List Token) → Spaced a ts b → Spaced b us c → Spaced a (ts ++ us) c
Spaced-append a b c [] [] h k = omega arith
Spaced-append a b c [] (u ∷ us) h k = (k.0, omega arith, k.2)
Spaced-append a b c (t ∷ ts) us h k = (h.0, h.1, Spaced-append (end_of t) b c ts us h.2 k)

length-scan_le : (fn : ℕ → Bool) (s : Bytes) → length (scan fn s).1 ≤ length s
unfolding scan
length-scan_le fn [] = omega arith
length-scan_le fn (ch ∷ s) = ground (arith, length-scan_le fn s)

-- A scan from a character of its class takes at least that one.
scan-takes :
    (fn : ℕ → Bool) (ch : ℕ) (rest : Bytes)
    → fn ch ≡ true
    → (0 < length (scan fn (ch ∷ rest)).0) × (length (scan fn (ch ∷ rest)).1 ≤ length rest)
unfolding scan
scan-takes fn ch rest h = rw h (omega arith, length-scan_le fn rest)

ident_start-ident : (ch : ℕ) → is_ident_start ch ≡ true → is_ident ch ≡ true
unfolding is_ident
ident_start-ident ch h = rw h

digit-number : (ch : ℕ) → is_digit ch ≡ true → is_number ch ≡ true
unfolding is_number
digit-number ch h = rw h

hash-not_newline : (ch : ℕ) → (ch == b'#') ≡ true → not (ch == 10) ≡ true
hash-not_newline ch h = ground arith

-- What a round of parseTokens leaves.
abbrev Moves : ℕ → Bytes → Step → Type 0
Moves offset rest s = Spaced offset s.pushed s.next × (length s.left ≤ length rest)

scanned-Moves :
    (type : TokenType) (fn : ℕ → Bool) (offset ch : ℕ) (rest : Bytes)
    → fn ch ≡ true
    → Moves offset rest (scanned type offset (scan fn (ch ∷ rest)))
scanned-Moves type fn offset ch rest h =
    let (some_taken, shorter) = scan-takes fn ch rest h in
    ((omega arith, omega arith, omega arith), shorter)

quoted-Moves :
    (type : TokenType) (fn : ℕ → Bool) (offset : ℕ) (rest : Bytes)
    → Moves offset rest (quoted type offset (scan fn rest))
quoted-Moves type fn offset rest = (
  (omega arith, omega arith, omega arith),
  length-drop_one (scan fn rest).1 (length rest) (omega (arith, length-scan_le fn rest)),
)

lex_step-Ends :
    (source : Bytes) (lines : List Line) (offset ch : ℕ) (rest : Bytes)
    → StartsText lines
    → Ends (Moves offset rest) (lex_step source lines offset ch rest)
unfolding lex_step
lex_step-Ends source lines offset ch rest h =
    let P = Moves offset rest in
    Ends-if P (is_space ch) _ _ (λ _. (omega arith, omega arith))
      λ _.
        Ends-if P (ch == b'#') _ _
          (λ e. (omega arith, (scan-takes (λ c. not (c == 10)) ch rest (hash-not_newline ch e)).1))
          λ _.
            Ends-if P (is_ident_start ch) _ _
              (λ e. scanned-Moves ident is_ident offset ch rest (ident_start-ident ch e))
              λ _.
                Ends-if P (is_digit ch) _ _
                  (λ e. scanned-Moves number is_number offset ch rest (digit-number ch e))
                  λ _.
                    Ends-if P (ch == b'"' || ch == 39) _ _
                      (λ _. quoted-Moves (if ch == b'"' then string else character) _ offset rest)
                      λ _.
                        Ends-if P (is_bracket ch) _ _
                          (λ _. ((omega arith, omega arith, omega arith), omega arith))
                          λ _.
                            Ends-if P (is_atom ch) _ _
                              (λ e. scanned-Moves atom is_atom offset ch rest e)
                              λ _.
                                Ends->>= (λ _. Unit {0}) P (get_location source lines offset 1) _
                                  (get_location-Ends source lines offset 1 h) (λ l _. tt)

-- The tokens that a run of parseTokens gives.
abbrev pub AreSpaced : List Token → Type 0
AreSpaced ts = (stop : ℕ) × Spaced 0 ts stop

pub parse_tokens-Ends :
    (fuel : ℕ) (source : Bytes) (lines : List Line) (tokens : List Token) (offset : ℕ) (s : Bytes)
    → length s < fuel
    → StartsText lines
    → Spaced 0 tokens offset
    → Ends AreSpaced (parse_tokens fuel source lines tokens offset s)
unfolding parse_tokens
parse_tokens-Ends zero source lines tokens offset s lt h k = absurd (omega arith)
parse_tokens-Ends (suc fuel) source lines tokens offset [] lt h k = (offset, k)
parse_tokens-Ends (suc fuel) source lines tokens offset (ch ∷ rest) lt h k =
    Ends->>= (Moves offset rest) AreSpaced (lex_step source lines offset ch rest) _
      (lex_step-Ends source lines offset ch rest h)
      (λ s moved.
        parse_tokens-Ends fuel source lines (tokens ++ s.pushed) s.next s.left
          (omega (arith, moved.1)) h (Spaced-append 0 offset s.next tokens s.pushed k moved.0))

set_locations-Ends :
    (source : Bytes) (lines : List Line) (last stop : ℕ) (ts : List Token)
    → StartsText lines
    → Spaced last ts stop
    → Ends (λ _. Unit {0}) (set_locations source lines last ts)
unfolding set_locations
set_locations-Ends source lines last stop [] h k = tt
set_locations-Ends source lines last stop (t ∷ ts) h k =
    rw (lt→ltb t.offset (end_of t) k.0.0, le→leb last t.offset k.1)
      (Ends->>= (λ _. Unit {0}) (λ _. Unit {0})
        (get_location source lines t.offset (end_of t - t.offset)) _
        (get_location-Ends source lines t.offset (end_of t - t.offset) h)
        (λ l _.
          Ends->>= (λ _. Unit {0}) (λ _. Unit {0}) (set_locations source lines (end_of t) ts) _
            (set_locations-Ends source lines (end_of t) stop ts h k.2) (λ rest _. tt)))

close_bracket-Ends : (t : Token) (stack : List Token) → Ends (λ _. Unit {0}) (close_bracket t stack)
unfolding close_bracket
close_bracket-Ends t [] = tt
close_bracket-Ends t (o ∷ stack) =
    elim (Bool-cases (bytes_eq t.data_of.bytes (get_closing_bracket o.data_of.bytes))) [
      | inl e ↦ rw e tt
      | inr e ↦ rw e tt
    ]

match_bracket-Ends : (t : Token) (stack : List Token) → Ends (λ _. Unit {0}) (match_bracket t stack)
unfolding match_bracket
match_bracket-Ends t stack =
    Ends-if (λ _. Unit {0}) (is_bracket_token t.type)
      (if is_opening t.data_of.bytes then ok (t ∷ stack) else close_bracket t stack) (ok stack)
      (λ _.
        Ends-if (λ _. Unit {0}) (is_opening t.data_of.bytes) (ok (t ∷ stack))
          (close_bracket t stack) (λ _. tt) (λ _. close_bracket-Ends t stack))
      (λ _. tt)

then_match-Ends :
    (r : Lex (List Token)) (f : List Token → Lex (Unit {0}))
    → Ends (λ _. Unit {0}) r
    → ((stack : List Token) → Ends (λ _. Unit {0}) (f stack))
    → Ends (λ _. Unit {0}) (then_match r f)
then_match-Ends (ok stack) f h k = k stack
then_match-Ends (panic p l) f h k = tt
then_match-Ends assertion f h k = h
then_match-Ends out_of_fuel f h k = h

pub match_from-Ends : (ts stack : List Token) → Ends (λ _. Unit {0}) (match_from ts stack)
unfolding match_from
match_from-Ends [] [] = tt
match_from-Ends [] (o ∷ stack) = tt
match_from-Ends (t ∷ ts) stack =
    then_match-Ends (match_bracket t stack) (match_from ts) (match_bracket-Ends t stack)
      (match_from-Ends ts)

-- The rest of tokenize, from each of its passes on.
abbrev pub Any : Tokens → Type 0
Any _ = Unit {0}

abbrev from_match : List Line → List Token → Lex Tokens
from_match lines located =
    match_brackets located >>= λ _. ok (record { lines = lines; tokens = insert_newline located })

abbrev from_locations : Bytes → List Line → List Token → Lex Tokens
from_locations source lines tokens = set_locations source lines 0 tokens >>= from_match lines

abbrev from_tokens : Bytes → Bytes → List Line → Lex Tokens
from_tokens source text lines =
    parse_tokens (suc (length text)) source lines [] 0 text >>= from_locations source lines

from_match-Ends : (lines : List Line) (located : List Token) → Ends Any (from_match lines located)
unfolding match_brackets
from_match-Ends lines located =
    Ends->>= {B = Tokens} (λ _. Unit {0}) Any (match_brackets located)
      (λ _. ok (record { lines = lines; tokens = insert_newline located }))
      (match_from-Ends located []) (λ _ _. tt)

from_locations-Ends :
    (source : Bytes) (lines : List Line) (tokens : List Token)
    → StartsText lines
    → AreSpaced tokens
    → Ends Any (from_locations source lines tokens)
from_locations-Ends source lines tokens h (stop, spaced) =
    Ends->>= (λ _. Unit {0}) Any (set_locations source lines 0 tokens) (from_match lines)
      (set_locations-Ends source lines 0 stop tokens h spaced)
      (λ located _. from_match-Ends lines located)

from_tokens-Ends :
    (source text : Bytes) (lines : List Line)
    → StartsText lines
    → Ends Any (from_tokens source text lines)
from_tokens-Ends source text lines h =
    Ends->>= AreSpaced Any (parse_tokens (suc (length text)) source lines [] 0 text)
      (from_locations source lines)
      (parse_tokens-Ends (suc (length text)) source lines [] 0 text (omega arith) h (omega arith))
      (λ tokens k. from_locations-Ends source lines tokens h k)

-- On every text tokenize gives tokens or reports a problem: its loops end within the fuel, the
-- assertions that a token is not empty and lies behind the one before it hold, and getLocation always
-- finds a line.
pub tokenize_total : (source text : Bytes) → Ends Any (tokenize source text)
unfolding tokenize
tokenize_total source [] = tt
tokenize_total source (ch ∷ rest) =
    Ends->>= StartsText Any (parse_lines (suc (length (ch ∷ rest))) source [] 0 (ch ∷ rest))
      (from_tokens source (ch ∷ rest)) (parse_lines_start source ch rest)
      (from_tokens-Ends source (ch ∷ rest))
