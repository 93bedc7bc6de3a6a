-- ===== src/Parse/Front.antt =====
-- compiler/compiler.cpp: parseModule, which reads a text into a tree, without its timer and the dump.
use aike.Base.{
  ℕ, zero, suc, ◌≤◌, ◌<◌, ◌≡◌, ◌≢◌, ◌↔◌, refl, false, List, [], ◌∷◌, some, Bytes, bytes_eq_refl,
  get_elem?, arith, subst, some→eq,
}
use aike.Types.Syntax.{Location}
use aike.Tokenize.Defs.{
  Line, TokenType, atom, bracket, ident, string, character, number, line, end, Token, Lex, Problem,
}
use aike.Tokenize.Whole.{Tokens, tokenize}
use aike.Tokenize.Ends.{Ends}
use aike.Tokenize.Placed.{is_line, OnText, Laid, IsLaid, tokenize-IsLaid}
use aike.Tree.Ast.{Ast}
use aike.Parse.Stream.{
  TokenStream, here, Parsed, ok, panic, assertion, out_of_fuel, ParseError, type_code,
}
use aike.Parse.Steps.{Spans, IsTokenized}
use aike.Parse.Terms.{Number}
use aike.Parse.Whole.{parse}
use aike.Parse.Total.{IsRead, parse_total}

-- The tree, or how the first pass that gives none ends.
pub data Front : Type 0 where
  read : Ast → Front
  bad_token : Problem → Location → Front
  bad_syntax : ParseError → Location → Front
  failed_assertion : Front
  no_fuel : Front

abbrev of_parsed : Parsed (Ast × TokenStream) → Front
of_parsed (ok (tree, _)) = read tree
of_parsed (panic e l) = bad_syntax e l
of_parsed assertion = failed_assertion
of_parsed out_of_fuel = no_fuel

abbrev then_parse : Lex Tokens → (Tokens → Front) → Front
then_parse (Lex.ok ts) f = f ts
then_parse (Lex.panic p l) f = bad_token p l
then_parse Lex.assertion f = failed_assertion
then_parse Lex.out_of_fuel f = no_fuel

unfoldable pub parse_module : (Bytes → Number) → Bytes → Bytes → Bytes → ℕ → Front
unfolding tokenize parse
parse_module strtod source text name next =
    then_parse (tokenize source text) (λ ts. of_parsed (parse strtod name ts next))

-- A tree, or an error that is reported.
abbrev pub IsReported : Front → Type 0
IsReported (read tree) = Unit {0}
IsReported (bad_token p l) = Unit {0}
IsReported (bad_syntax e l) = Unit {0}
IsReported failed_assertion = ⊥
IsReported no_fuel = ⊥

not_line : (k : TokenType) → type_code k < 6 → is_line k ≡ false
not_line line h = absurd (omega arith)
not_line atom h = refl
not_line bracket h = refl
not_line ident h = refl
not_line string h = refl
not_line character h = refl
not_line number h = refl
not_line end h = refl

Laid-elem :
    (lines : List Line) (source : Bytes) (last : ℕ) (ts : List Token) (i : ℕ) (t : Token)
    → Laid lines source last ts
    → get_elem? ts i ≡ some t
    → OnText lines source t × (type_code t.type < 6 → last ≤ t.location.offset)
Laid-elem lines source last [] i t h e = cc
Laid-elem lines source last (u ∷ ts) zero t (stop, o, far, le, fits, rest) e =
    subst (λ v. OnText lines source v × (type_code v.type < 6 → last ≤ v.location.offset))
      (some→eq e) (o, λ c. far (not_line u.type c))
Laid-elem lines source last (u ∷ ts) (suc i) t (stop, o, far, le, fits, rest) e =
    let (ot, ft) = Laid-elem lines source stop ts i t rest e in (ot, λ c. omega (arith, le, ft c))

-- Two tokens, the second of which is not a line token.
Laid-pair :
    (lines : List Line) (source : Bytes) (last : ℕ) (ts : List Token) (i j : ℕ) (t u : Token)
    → Laid lines source last ts
    → i < j
    → get_elem? ts i ≡ some t
    → get_elem? ts j ≡ some u
    → type_code u.type < 6
    → Spans t.location u.location
Laid-pair lines source last [] i j t u h lt e d c = cc
Laid-pair lines source last (v ∷ ts) i zero t u h lt e d c = absurd (omega arith)
Laid-pair lines source last (v ∷ ts) zero (suc j) t u (stop, o, far, le, fits, rest) lt e d c =
    let (ou, behind) = Laid-elem lines source stop ts j u rest d in
    subst (λ w. Spans w.location u.location) (some→eq e)
      (rw (o.1, ou.1) (bytes_eq_refl source), omega (arith, behind c, fits))
Laid-pair lines source last (v ∷ ts) (suc i) (suc j) t u (stop, o, far, le, fits, rest) lt e d c =
    Laid-pair lines source stop ts i j t u rest (omega arith) e d c

pub IsLaid-IsTokenized :
    (source : Bytes) (ts : Tokens) → IsLaid source ts → IsTokenized ts.tokens ts.lines
IsLaid-IsTokenized source ts (pos, laid) = record {
  some_line = pos;
  lined = λ i t e. (Laid-elem ts.lines source 0 ts.tokens i t laid e).0.0;
  spaced = λ i j t u lt e d c. Laid-pair ts.lines source 0 ts.tokens i j t u laid lt e d c;
}

of_parsed-IsReported :
    (tokens : List Token) (r : Parsed (Ast × TokenStream))
    → IsRead tokens r
    → IsReported (of_parsed r)
of_parsed-IsReported tokens (ok (t, s)) h = tt
of_parsed-IsReported tokens (panic e l) h = tt
of_parsed-IsReported tokens assertion h = h
of_parsed-IsReported tokens out_of_fuel h = h

parse_module_empty :
    (strtod : Bytes → Number) (source name : Bytes) (next : ℕ)
    → parse_module strtod source [] name next ≡ failed_assertion
unfolding parse_module here
parse_module_empty strtod source name next = refl

parse_module-IsReported :
    (strtod : Bytes → Number) (source : Bytes) (ch : ℕ) (rest name : Bytes) (next : ℕ)
    → IsReported (parse_module strtod source (ch ∷ rest) name next)
unfolding parse_module
parse_module-IsReported strtod source ch rest name next =
    go (tokenize source (ch ∷ rest)) (tokenize-IsLaid source ch rest)
  where
    go :
        (r : Lex Tokens)
        → Ends (IsLaid source) r
        → IsReported (then_parse r (λ ts. of_parsed (parse strtod name ts next)))
    go (Lex.ok ts) h =
        of_parsed-IsReported ts.tokens (parse strtod name ts next)
          (parse_total strtod name ts next (IsLaid-IsTokenized source ts h))
    go (Lex.panic p l) h = tt
    go Lex.assertion h = h
    go Lex.out_of_fuel h = h

-- The tokenizer and the parser together give a tree or report an error, with no failed assertion and
-- no loop that runs on, exactly on the texts that are not empty. On the empty text parseIndent asks
-- for the indent of a line that is not there, and the assertion of the array fails.
pub parse_module_iff :
    (strtod : Bytes → Number) (source text name : Bytes) (next : ℕ)
    → IsReported (parse_module strtod source text name next) ↔ (text ≢ [])
parse_module_iff strtod source [] name next = (
  λ h. absurd (subst IsReported (parse_module_empty strtod source name next) h),
  λ n. absurd (n refl),
)
parse_module_iff strtod source (ch ∷ rest) name next =
    (λ _ e. cc, λ _. parse_module-IsReported strtod source ch rest name next)
