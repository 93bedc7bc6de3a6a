-- ===== src/Tokenize/Placed.antt =====
-- compiler/tokenize.cpp: where the tokens that tokenize gives stand in the text.
use aike.Base.{
  ℕ, suc, ◌+◌, ◌-◌, ◌≤◌, ◌<◌, ◌≡◌, refl, ap, Bool, true, false, List, [], ◌∷◌, Option, none, some,
  Bytes, length, leb, lt→ltb, le→leb, arith, Bool-cases, inl, inr,
}
use aike.Tokenize.Defs.{Line, TokenType, line, Token, ok, ◌>>=◌}
use aike.Tokenize.Lines.{last_before, location_at, get_location, parse_lines}
use aike.Tokenize.Lexer.{parse_tokens}
use aike.Tokenize.Brackets.{match_brackets}
use aike.Tokenize.Newlines.{get_line_token, breaks, newlines_from, insert_newline}
use aike.Tokenize.Whole.{Tokens, end_of, set_locations, tokenize}
use aike.Tokenize.Ends.{Ends, Ends->>=, StartsText, parse_lines_start, get_location-Ends}
use aike.Tokenize.Total.{Spaced, AreSpaced, parse_tokens-Ends, match_from-Ends}

abbrev pub is_line : TokenType → Bool
is_line line = true
is_line _ = false

-- On one of the lines of the source.
abbrev pub OnText : List Line → Bytes → Token → Type 0
OnText lines source t = (t.location.line < length lines) × (t.location.source ≡ source)

abbrev pub stop_of : Token → ℕ
stop_of t = t.location.offset + t.location.length

-- The tokens before the line tokens are added: each from `last` on, and its text within its location.
abbrev pub Chained : List Line → Bytes → ℕ → List Token → Type 0
Chained lines source last [] = Unit {0}
Chained lines source last (t ∷ ts) =
    OnText lines source t
    × (last ≤ t.location.offset)
    × (t.location.offset + length t.data_of.bytes ≤ stop_of t)
    × Chained lines source (stop_of t) ts

-- The same with the line tokens, which may start within the token in front.
abbrev pub Laid : List Line → Bytes → ℕ → List Token → Type 0
Laid lines source last [] = Unit {0}
Laid lines source last (t ∷ ts) =
    (stop : ℕ) × OnText lines source t
    × (is_line t.type ≡ false → last ≤ t.location.offset)
    × (last ≤ stop)
    × (stop_of t ≤ stop)
    × Laid lines source stop ts

last_before-lt :
    (n : ℕ) (f : Option (ℕ × Line)) (ls : List Line) (offset total : ℕ)
    → n + length ls ≤ total
    → ((p : ℕ × Line) → f ≡ some p → p.0 < total)
    → (p : ℕ × Line) → last_before n f ls offset ≡ some p
    → p.0 < total
unfolding last_before
last_before-lt n f [] offset total h k p e = k p e
last_before-lt n f (l ∷ ls) offset total h k p e = elim (Bool-cases (leb l.offset offset)) [
  | inl t ↦
      last_before-lt (suc n) (some (n, l)) ls offset total (omega arith)
        (λ q d. rw (← ap (λ o. line_of o) d) (omega arith)) p (rw t at e)
  | inr t ↦ k p (rw t at e)
]
  where
    line_of : Option (ℕ × Line) → ℕ
    line_of none = 0
    line_of (some q) = q.0

-- What getLocation gives is on a line of the source, with the offset and the length asked for.
get_location-OnText :
    (source : Bytes) (lines : List Line) (offset n : ℕ)
    → StartsText lines
    → Ends
        (λ l. (l.line < length lines) × (l.source ≡ source) × (l.offset ≡ offset) × (l.length ≡ n))
        (get_location source lines offset n)
unfolding get_location
get_location-OnText source lines offset n h =
    located (last_before 0 none lines offset) (get_location-Ends source lines offset n h)
      (last_before-lt 0 none lines offset (length lines) (omega arith) (λ p e. cc))
  where
    located :
        (o : Option (ℕ × Line))
        → Ends (λ _. Unit {0}) (location_at source offset n o)
        → ((p : ℕ × Line) → o ≡ some p → p.0 < length lines)
        → Ends
            (λ l.
              (l.line < length lines) × (l.source ≡ source) × (l.offset ≡ offset) × (l.length ≡ n))
            (location_at source offset n o)
    located none e k = absurd e
    located (some (i, l)) e k = (k (i, l) refl, refl, refl, refl)

pub set_locations-Chained :
    (source : Bytes) (lines : List Line) (last stop : ℕ) (ts : List Token)
    → StartsText lines
    → Spaced last ts stop
    → Ends (Chained lines source last) (set_locations source lines last ts)
unfolding set_locations
set_locations-Chained source lines last stop [] h k = tt
set_locations-Chained source lines last stop (t ∷ ts) h k =
    rw (lt→ltb t.offset (end_of t) k.0.0, le→leb last t.offset k.1)
      (Ends->>=
        (λ l.
          (l.line < length lines)
          × (l.source ≡ source)
          × (l.offset ≡ t.offset)
          × (l.length ≡ end_of t - t.offset))
        (Chained lines source last) (get_location source lines t.offset (end_of t - t.offset)) _
        (get_location-OnText source lines t.offset (end_of t - t.offset) h)
        (λ l g.
          Ends->>= (Chained lines source (end_of t)) (Chained lines source last)
            (set_locations source lines (end_of t) ts) _
            (set_locations-Chained source lines (end_of t) stop ts h k.2)
            (λ rest c. (
              (g.0, g.1),
              omega (arith, g.2, k.1),
              omega (arith, g.2, g.3, k.0.0, k.0.1),
              from (end_of t) (l.offset + l.length) rest (omega (arith, g.2, g.3, k.0.0)) c,
            ))))
  where
    from :
        (a b : ℕ) (us : List Token) → b ≡ a → Chained lines source a us → Chained lines source b us
    from a b us e c = rw e c

newlines_from-Laid :
    (lines : List Line) (source : Bytes) (p : Token) (last : ℕ) (ts : List Token)
    → OnText lines source p
    → p.location.offset + length p.data_of.bytes ≤ last
    → Chained lines source last ts
    → Laid lines source last (newlines_from p ts)
unfolding newlines_from get_line_token
newlines_from-Laid lines source p last [] o h c = (last, o, λ e. cc, omega arith, omega arith, tt)
newlines_from-Laid lines source p last (t ∷ ts) o h (ot, le, fits, c) =
    let rest : Laid lines source last (t ∷ newlines_from t ts) = (
      stop_of t,
      ot,
      λ _. le,
      omega arith,
      omega arith,
      newlines_from-Laid lines source t (stop_of t) ts ot fits c,
    ) in
    elim (Bool-cases (breaks p t)) [
      | inl e ↦ rw e (last, o, λ f. cc, omega arith, omega arith, rest)
      | inr e ↦ rw e rest
    ]

pub insert_newline-Laid :
    (lines : List Line) (source : Bytes) (ts : List Token)
    → Chained lines source 0 ts
    → Laid lines source 0 (insert_newline ts)
unfolding insert_newline
insert_newline-Laid lines source [] c = tt
insert_newline-Laid lines source (t ∷ ts) (o, le, fits, c) = (
  stop_of t,
  o,
  λ _. omega arith,
  omega arith,
  omega arith,
  newlines_from-Laid lines source t (stop_of t) ts o fits c,
)

-- The tokens of a text that is not empty stand on its lines.
abbrev pub IsLaid : Bytes → Tokens → Type 0
IsLaid source ts = (0 < length ts.lines) × Laid ts.lines source 0 ts.tokens

StartsText-pos : (lines : List Line) → StartsText lines → 0 < length lines
StartsText-pos [] h = absurd h
StartsText-pos (l ∷ ls) h = omega arith

matched-IsLaid :
    (source : Bytes) (lines : List Line) (located : List Token)
    → StartsText lines
    → Chained lines source 0 located
    → Ends (IsLaid source) (
        match_brackets located >>= λ _.
        ok (record { lines = lines; tokens = insert_newline located }))
unfolding match_brackets
matched-IsLaid source lines located h c =
    Ends->>= {B = Tokens} (λ _. Unit {0}) (IsLaid source) (match_brackets located)
      (λ _. ok (record { lines = lines; tokens = insert_newline located }))
      (match_from-Ends located [])
      (λ _ _. (StartsText-pos lines h, insert_newline-Laid lines source located c))

pub tokenize-IsLaid :
    (source : Bytes) (ch : ℕ) (rest : Bytes) → Ends (IsLaid source) (tokenize source (ch ∷ rest))
unfolding tokenize
tokenize-IsLaid source ch rest =
    let text : Bytes = ch ∷ rest in
    Ends->>= StartsText (IsLaid source) (parse_lines (suc (length text)) source [] 0 text) _
      (parse_lines_start source ch rest)
      (λ lines h.
        Ends->>= AreSpaced (IsLaid source) (parse_tokens (suc (length text)) source lines [] 0 text)
          _
          (parse_tokens-Ends (suc (length text)) source lines [] 0 text (omega arith) h
            (omega arith))
          (λ tokens (stop, spaced).
            Ends->>= (Chained lines source 0) (IsLaid source) (set_locations source lines 0 tokens)
              _ (set_locations-Chained source lines 0 stop tokens h spaced)
              (λ located c. matched-IsLaid source lines located h c)))
