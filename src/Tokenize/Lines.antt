-- ===== src/Tokenize/Lines.antt =====
-- compiler/tokenize.cpp: parseLines and getLocation. The text from `offset` on is `rest`.
use aike.Base.{
  ℕ, zero, suc, ◌+◌, ◌-◌, List, [], ◌∷◌, ◌++◌, Option, none, some, Bytes, if◌then◌else◌, leb, ◌==◌,
  length,
}
use aike.Types.Syntax.{Location}
use aike.Tokenize.Defs.{Line, Lex, ok, panic, assertion, out_of_fuel, has_tab, ◌>>=◌}

-- `while (data[offset] == ' ') { offset++; indent++; }`: the indent, and what follows.
unfoldable pub scan_indent : Bytes → ℕ × Bytes
scan_indent [] = (0, [])
scan_indent (ch ∷ rest) =
    let (indent, after) = scan_indent rest in
    if ch == b' ' then (suc indent, after) else (0, ch ∷ rest)

-- The rest of the line: the offset of its end, and the text from there on.
unfoldable pub scan_line : Bytes → ℕ → ℕ → ℕ → Bytes → Lex (ℕ × Bytes)
scan_line source line indent offset [] = ok (offset, [])
scan_line source line indent offset (ch ∷ rest) =
    if ch == 10
    then ok (offset, ch ∷ rest)
    else if ch == 9
    then panic has_tab
        (record { source = source; line = line; column = indent; offset = offset; length = 1 })
    else scan_line source line indent (suc offset) rest

-- `if (offset < data.size) offset++;`
abbrev pub next_offset : ℕ → Bytes → ℕ
next_offset offset [] = offset
next_offset offset (_ ∷ _) = suc offset

abbrev pub drop_one : Bytes → Bytes
drop_one [] = []
drop_one (_ ∷ rest) = rest

unfoldable pub parse_lines : ℕ → Bytes → List Line → ℕ → Bytes → Lex (List Line)
unfolding scan_indent scan_line
parse_lines zero source lines offset rest = out_of_fuel
parse_lines (suc fuel) source lines offset [] = ok lines
parse_lines (suc fuel) source lines offset (ch ∷ rest) = do
  let (indent, text) = scan_indent (ch ∷ rest)
  (stop, after) ← scan_line source (length lines) indent (offset + indent) text
  parse_lines fuel source (lines ++ record { indent = indent; offset = offset } ∷ [])
      (next_offset stop after) (drop_one after)

-- lower_bound with `line.offset <= offset` as the order: the lines in front of it, counted from
-- `line`, and the last of them.
unfoldable pub last_before : ℕ → Option (ℕ × Line) → List Line → ℕ → Option (ℕ × Line)
last_before line found [] offset = found
last_before line found (l ∷ lines) offset =
    if leb l.offset offset then last_before (suc line) (some (line, l)) lines offset else found

abbrev pub location_at : Bytes → ℕ → ℕ → Option (ℕ × Line) → Lex Location
location_at source offset length none = assertion
location_at source offset length (some (line, l)) = ok (record {
  source = source;
  line = line;
  column = offset - l.offset;
  offset = offset;
  length = length;
})

unfoldable pub get_location : Bytes → List Line → ℕ → ℕ → Lex Location
unfolding last_before
get_location source lines offset length =
    location_at source offset length (last_before 0 none lines offset)
