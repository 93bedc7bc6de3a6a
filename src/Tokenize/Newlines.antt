-- ===== src/Tokenize/Newlines.antt =====
-- compiler/tokenize.cpp: continueLine, getLineToken and insertNewline.
use aike.Base.{
  ◌+◌, Bool, true, false, not, ◌&&◌, ◌||◌, List, [], ◌∷◌, bytes_eq, if◌then◌else◌, ltb, length,
}
use aike.Tokenize.Defs.{TokenType, atom, line, Token}
use aike.Tokenize.Brackets.{is_bracket_token}

abbrev pub is_atom_token : TokenType → Bool
is_atom_token atom = true
is_atom_token _ = false

unfoldable pub continue_line : Token → Bool
unfolding bytes_eq
continue_line t =
    (is_atom_token t.type && not (bytes_eq t.data_of.bytes (b'>' ∷ [])))
    || (is_bracket_token t.type
        && (bytes_eq t.data_of.bytes (b'(' ∷ [])
            || (bytes_eq t.data_of.bytes (b'[' ∷ []) || bytes_eq t.data_of.bytes (b'{' ∷ []))))

-- `Str()` is the empty string at no address.
unfoldable pub get_line_token : Token → Token
get_line_token pt = record {
  type = line;
  data_of = record { start = 0; bytes = [] };
  offset = pt.offset + length pt.data_of.bytes;
  matching = 0;
  location = record {
    source = pt.location.source;
    line = pt.location.line;
    column = pt.location.column + length pt.data_of.bytes;
    offset = pt.location.offset + length pt.data_of.bytes;
    length = 0;
  };
}

-- `tokens[i-1].location.line < tokens[i].location.line && !continueLine(tokens[i-1])`
unfoldable pub breaks : Token → Token → Bool
unfolding continue_line
breaks previous t = ltb previous.location.line t.location.line && not (continue_line previous)

-- The loop from the second token on, and the line token at the end.
unfoldable pub newlines_from : Token → List Token → List Token
unfolding breaks get_line_token
newlines_from previous [] = get_line_token previous ∷ []
newlines_from previous (t ∷ ts) =
    let rest = t ∷ newlines_from t ts in
    if breaks previous t then get_line_token previous ∷ rest else rest

unfoldable pub insert_newline : List Token → List Token
unfolding newlines_from
insert_newline [] = []
insert_newline (t ∷ ts) = t ∷ newlines_from t ts
