-- ===== src/Tokenize/Brackets.antt =====
-- compiler/tokenize.cpp: getClosingBracket and matchBrackets. The stack holds the open brackets'
-- tokens, the last one first.
use aike.Base.{◌+◌, Bool, true, false, ◌||◌, List, [], ◌∷◌, Bytes, bytes_eq, if◌then◌else◌}
use aike.Tokenize.Defs.{
  TokenType, bracket, Token, Lex, ok, panic, assertion, out_of_fuel, unmatched_closing,
  mismatched_closing, unmatched_opening,
}

unfoldable pub is_opening : Bytes → Bool
unfolding bytes_eq
is_opening s = bytes_eq s (b'{' ∷ []) || (bytes_eq s (b'(' ∷ []) || bytes_eq s (b'[' ∷ []))

-- The assertion that `open` is an opening bracket holds at both calls.
unfoldable pub get_closing_bracket : Bytes → Bytes
unfolding bytes_eq
get_closing_bracket open_ =
    if bytes_eq open_ (b'{' ∷ [])
    then b'}' ∷ []
    else if bytes_eq open_ (b'(' ∷ [])
    then b')' ∷ []
    else b']' ∷ []

abbrev pub is_bracket_token : TokenType → Bool
is_bracket_token bracket = true
is_bracket_token _ = false

-- A closing bracket against the stack: the stack without the bracket that it closes.
unfoldable pub close_bracket : Token → List Token → Lex (List Token)
unfolding get_closing_bracket
close_bracket t [] = panic unmatched_closing t.location
close_bracket t (open_ ∷ stack) =
    if bytes_eq t.data_of.bytes (get_closing_bracket open_.data_of.bytes)
    then ok stack
    else panic
        (mismatched_closing (get_closing_bracket open_.data_of.bytes) (open_.location.line + 1)
          (open_.location.column + 1))
        t.location

-- One token, and the stack that it leaves.
unfoldable pub match_bracket : Token → List Token → Lex (List Token)
unfolding is_opening close_bracket
match_bracket t stack =
    if is_bracket_token t.type
    then if is_opening t.data_of.bytes then ok (t ∷ stack) else close_bracket t stack
    else ok stack

abbrev pub then_match : Lex (List Token) → (List Token → Lex (Unit {0})) → Lex (Unit {0})
then_match (ok stack) f = f stack
then_match (panic p l) f = panic p l
then_match assertion f = assertion
then_match out_of_fuel f = out_of_fuel

unfoldable pub match_from : List Token → List Token → Lex (Unit {0})
unfolding match_bracket
match_from [] [] = ok tt
match_from [] (open_ ∷ stack) =
    panic (unmatched_opening (get_closing_bracket open_.data_of.bytes)) open_.location
match_from (t ∷ ts) stack = then_match (match_bracket t stack) (match_from ts)

unfoldable pub match_brackets : List Token → Lex (Unit {0})
unfolding match_from
match_brackets ts = match_from ts []
