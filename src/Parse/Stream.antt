-- ===== src/Parse/Stream.antt =====
-- compiler/parse.cpp: TokenStream, getLineIndent and isFirstOnLine. `new` takes addresses from a
-- counter.
use aike.Base.{
  ℕ, zero, suc, ◌+◌, ◌-◌, Bool, ◌&&◌, List, [], Option, none, some, Bytes, bytes_eq, if◌then◌else◌,
  length, leb, ◌==◌, get_elem?,
}
use aike.Types.Syntax.{Location}
use aike.Types.Content.{nowhere}
use aike.Tokenize.Defs.{
  Line, TokenType, atom, bracket, ident, string, character, number, line, end, Token,
}

-- The messages that end the compiler; the token that was found stands in for its name.
pub data ParseError : Type 0 where
  expected : TokenType → Token → ParseError
  expected_text : Bytes → Token → ParseError
  expected_type : ParseError
  unexpected_token : Token → ParseError
  expected_deeper : ℕ → ℕ → ParseError
  expected_indentation : ℕ → ℕ → ParseError
  invalid_integer : Bytes → ParseError
  invalid_float : Bytes → ParseError
  invalid_number : Bytes → ParseError

-- `out_of_fuel` has no counterpart in the source.
pub data Parsed {ℓ} (A : Type ℓ) : Type ℓ where
  ok : A → Parsed A
  panic : ParseError → Location → Parsed A
  assertion : Parsed A
  out_of_fuel : Parsed A

-- TokenStream, and the address that the next object gets.
pub record TokenStream : Type 0 where
  pub tokens : List Token
  pub lines : List Line
  pub index : ℕ
  pub next : ℕ

abbrev pub Parser {ℓ} : Type ℓ → Type ℓ
Parser A = TokenStream → Parsed (A × TokenStream)

abbrev pub bind {ℓ κ} :
    {A : Type ℓ} {B : Type κ} → Parsed (A × TokenStream) → (A → Parser B) → Parsed (B × TokenStream)
bind (ok (a, s)) f = f a s
bind (panic e l) f = panic e l
bind assertion f = assertion
bind out_of_fuel f = out_of_fuel

infixl 1 ◌>>=◌ ◌>>◌
abbrev pub ◌>>=◌ {ℓ κ} : {A : Type ℓ} {B : Type κ} → Parser A → (A → Parser B) → Parser B
◌>>=◌ p f s = bind (p s) f

abbrev pub ◌>>◌ {ℓ κ} : {A : Type ℓ} {B : Type κ} → Parser A → Parser B → Parser B
p >> q = p >>= λ _. q

abbrev pub pure {ℓ} : {A : Type ℓ} → A → Parser A
pure a s = ok (a, s)

abbrev pub k_end : Token
k_end = record {
  type = end;
  data_of = record { start = 0; bytes = [] };
  offset = 0;
  matching = 0;
  location = nowhere;
}

abbrev pub token_or_end : Option Token → Token
token_or_end none = k_end
token_or_end (some t) = t

-- get(): `get_ahead` is get(1) and `get_behind` get(-1), whose index wraps around at 0.
unfoldable pub get : TokenStream → Token
get s = token_or_end (get_elem? s.tokens s.index)

unfoldable pub get_ahead : TokenStream → Token
get_ahead s = token_or_end (get_elem? s.tokens (suc s.index))

abbrev token_before : List Token → ℕ → Token
token_before ts zero = k_end
token_before ts (suc i) = token_or_end (get_elem? ts i)

unfoldable pub get_behind : TokenStream → Token
get_behind s = token_before s.tokens s.index

abbrev pub type_code : TokenType → ℕ
type_code atom = 0
type_code bracket = 1
type_code ident = 2
type_code string = 3
type_code character = 4
type_code number = 5
type_code line = 6
type_code end = 7

unfoldable pub has_type : TokenType → Token → Bool
has_type k t = type_code k == type_code t.type

unfoldable pub has_text : TokenType → Bytes → Token → Bool
unfolding has_type bytes_eq
has_text k text t = has_type k t && bytes_eq t.data_of.bytes text

unfoldable pub is : TokenType → TokenStream → Bool
unfolding has_type get
is k s = has_type k (get s)

unfoldable pub is_text : TokenType → Bytes → TokenStream → Bool
unfolding has_text get
is_text k text s = has_text k text (get s)

-- A question to the stream, as a step of a parser.
abbrev pub ask {ℓ} : {A : Type ℓ} → (TokenStream → A) → Parser A
ask f s = ok (f s, s)

unfoldable pub move : Parser (Unit {0})
unfolding is
move s = if is end s then assertion else ok (tt, record s { index = suc s.index })

unfoldable pub expect : TokenType → Parser (Unit {0})
unfolding is
expect k s = if is k s then ok (tt, s) else panic (expected k (get s)) (get s).location

unfoldable pub expect_text : TokenType → Bytes → Parser (Unit {0})
unfolding is_text
expect_text k text s =
    if is_text k text s then ok (tt, s) else panic (expected_text text (get s)) (get s).location

unfoldable pub eat : TokenType → Parser Token
unfolding expect get move
eat k = do expect k; t ← ask get; move; pure t

unfoldable pub eat_text : TokenType → Bytes → Parser (Unit {0})
unfolding expect_text move
eat_text k text = do expect_text k text; move

-- `ts.get().location`
unfoldable pub here : Parser Location
unfolding get
here = ask (λ s. (get s).location)

abbrev pub fail {ℓ} : {A : Type ℓ} → ParseError → Parser A
fail e s = panic e (get s).location

abbrev pub fresh : Parser ℕ
fresh s = ok (s.next, record s { next = suc s.next })

abbrev pub indent_of : Option Line → TokenStream → Parsed (ℕ × TokenStream)
indent_of none s = assertion
indent_of (some l) s = ok (l.indent, s)

-- An index past the end of an Arr fails its assertion.
unfoldable pub get_line_indent : Location → Parser ℕ
get_line_indent l s = indent_of (get_elem? s.lines l.line) s

-- Location(lhs, rhs) of compiler/location.hpp.
unfoldable pub span : Location → Location → Parser Location
unfolding bytes_eq
span l r s =
    if bytes_eq l.source r.source && leb (l.offset + l.length) r.offset
    then ok (record l { length = r.offset + r.length - l.offset }, s)
    else assertion

-- The rounds of a loop over tokens: each consumes at least one.
abbrev pub rounds : TokenStream → ℕ
rounds s = suc (length s.tokens)
