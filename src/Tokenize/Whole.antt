-- ===== src/Tokenize/Whole.antt =====
-- compiler/tokenize.cpp: tokenize.
use aike.Base.{ℕ, suc, ◌+◌, ◌&&◌, List, [], ◌∷◌, Bytes, if◌then◌else◌, ltb, leb, ◌-◌, length}
use aike.Tokenize.Defs.{Line, Token, Lex, ok, assertion, ◌>>=◌}
use aike.Tokenize.Lines.{parse_lines, get_location}
use aike.Tokenize.Lexer.{parse_tokens}
use aike.Tokenize.Brackets.{match_brackets}
use aike.Tokenize.Newlines.{insert_newline}

pub record Tokens : Type 0 where
  pub lines : List Line
  pub tokens : List Token

abbrev pub end_of : Token → ℕ
end_of t = t.data_of.start + length t.data_of.bytes

-- The loop that sets the locations, with its two assertions.
unfoldable pub set_locations : Bytes → List Line → ℕ → List Token → Lex (List Token)
unfolding get_location
set_locations source lines last [] = ok []
set_locations source lines last (t ∷ ts) =
    if ltb t.offset (end_of t) && leb last t.offset
    then (do
      location ← get_location source lines t.offset (end_of t - t.offset)
      rest ← set_locations source lines (end_of t) ts
      ok (record t { location = location } ∷ rest))
    else assertion

-- A round of each loop consumes at least a character, so the fuel is one more than the text's length.
unfoldable pub tokenize : Bytes → Bytes → Lex Tokens
unfolding parse_lines parse_tokens set_locations match_brackets insert_newline
tokenize source text = do
  lines ← parse_lines (suc (length text)) source [] 0 text
  tokens ← parse_tokens (suc (length text)) source lines [] 0 text
  located ← set_locations source lines 0 tokens
  _ ← match_brackets located
  ok (record { lines = lines; tokens = insert_newline located })
