-- ===== src/Tests/Texts.antt =====
-- compiler/tokenize.cpp, compiler/mangle.cpp and compiler/resolve.cpp at short texts and names.
use Prim.Native.String.{String}
use aike.Base.{
  ℕ, ◌≡◌, ◌↔◌, refl, false, ◌==◌, arith, List, [], ◌∷◌, ◌++◌, Option, none, some, Bytes,
  if◌then◌else◌, bytes_eq, map,
}
use aike.Types.Syntax.{Ty, TyDef, integer, string, tuple, array, inst, nil, cons}
use aike.Types.Content.{nowhere}
use aike.Types.Traverse.{type_known, type_member, visit_type}
use aike.Tokenize.Defs.{TokenType, ident, bracket, number, Token, Lex, ok}
use aike.Tokenize.Ends.{Ends}
use aike.Tokenize.Lexer.{new_token, parse_tokens}
use aike.Tokenize.Brackets.{match_brackets}
use aike.Tokenize.Newlines.{insert_newline}
use aike.Tokenize.Whole.{Tokens, tokenize}
use aike.Tokenize.Total.{Any, tokenize_total}
use aike.Tokenize.Nesting.{WellNested, match_brackets_iff}
use aike.Tokenize.Marks.{without_lines, insert_newline-without_lines, parse_tokens-open_string}
use aike.Modules.Paths.{IsFree, get_module_name, get_module_name-base}
use aike.Mangle.Text.{codes}
use aike.Mangle.Symbols.{mangle}
use aike.Mangle.Clashes.{Resolves, mangle_total, mangle_clash}
use aike.Resolve.NameMap.{NameMap, pop, top}
use aike.Resolve.Scopes.{push_all, scope_restores}
use aike.Resolve.Members.{find_member}
use aike.Resolve.TypeNames.{
  ResolveNames, resolve_type, select, points_nowhere, is_unbound, resolve_type_errors,
}
use aike.Resolve.InRange.{IsFound, type_member-find_member}

abbrev source : Bytes
source = codes "main.aike"

abbrev text : Bytes
text = codes "f(1)"

tokenize_total_example : Ends Any (tokenize source text)
tokenize_total_example = tokenize_total source text

-- What the pass gives, as the types of its tokens.
abbrev types_of : Lex Tokens → List TokenType
types_of (ok t) = map (λ k. k.type) t.tokens
types_of _ = []

tokenize_run :
    types_of (tokenize source text) ≡ ident ∷ bracket ∷ number ∷ bracket ∷ TokenType.line ∷ []
unfolding tokenize
tokenize_run = refl

abbrev token_of : TokenType → String → Token
token_of k s = record {
  type = k;
  data_of = record { start = 0; bytes = codes s };
  offset = 0;
  matching = 0;
  location = nowhere;
}

abbrev call_tokens : List Token
call_tokens =
    token_of ident "f" ∷ token_of bracket "(" ∷ token_of number "1" ∷ token_of bracket ")" ∷ []

match_brackets_iff_example : (match_brackets call_tokens ≡ ok tt) ↔ WellNested call_tokens
match_brackets_iff_example = match_brackets_iff call_tokens

insert_newline-without_lines_example : without_lines (insert_newline call_tokens) ≡ call_tokens
insert_newline-without_lines_example =
    insert_newline-without_lines call_tokens (refl, (refl, (refl, (refl, tt))))

-- The text `"ab`, with no second quote.
parse_tokens-open_string_example :
    parse_tokens 3 source [] [] 0 (b'"' ∷ codes "ab")
    ≡ ok ([] ++ new_token TokenType.string 1 (codes "ab") 0 ∷ [])
parse_tokens-open_string_example =
    parse_tokens-open_string 1 source [] [] 0 (codes "ab") (refl, (refl, tt))

-- Generic 7 stands for the integers.
abbrev sevens : ℕ → Ty
sevens _ = integer

abbrev generic_array : Ty
generic_array = array (inst (codes "T") nowhere nil none (some 7))

mangle_total_example : (s : Bytes) × (mangle 2 sevens generic_array ≡ some s)
unfolding Resolves mangle type_known
mangle_total_example = mangle_total 1 sevens generic_array refl (codes "i", refl)

mangle_clash_example :
    (mangle 2 sevens (inst (codes "tuple") nowhere (cons integer nil) (some 5) none)
      ≡ mangle 2 sevens (tuple (cons integer nil)))
    × (mangle 2 sevens (inst (codes "string") nowhere nil (some 5) none) ≡ mangle 2 sevens string)
mangle_clash_example = mangle_clash 1 sevens nowhere (some 5) integer nil

-- A map in which `x` is 1.
abbrev outer : NameMap ℕ
outer = record {
  chains = λ n. if bytes_eq n (codes "x") then 1 ∷ [] else [];
  stack = record { name = codes "x"; value = 1; shadow = [] } ∷ [];
}

scope_restores_example :
    pop (top outer) (push_all ((codes "x", 2) ∷ (codes "y", 3) ∷ []) outer) ≡ outer
scope_restores_example = scope_restores ((codes "x", 2) ∷ (codes "y", 3) ∷ []) outer

abbrev pair : Ty
pair = tuple (cons integer (cons string nil))

abbrev no_defs : ℕ → Option TyDef
no_defs _ = none

find_member_run : find_member no_defs pair (codes "_1") ≡ some (some 1)
unfolding find_member
find_member_run = refl

type_member-find_member_example : IsFound (type_member no_defs pair 1)
type_member-find_member_example =
    type_member-find_member no_defs pair (codes "_1") 1 tt find_member_run

-- `point` is a struct and `T` a generic.
abbrev names : ResolveNames
names = record {
  variables = record { chains = λ n. []; stack = [] };
  typedefs = record { chains = λ n. if bytes_eq n (codes "point") then 3 ∷ [] else []; stack = [] };
  generics = record { chains = λ n. if bytes_eq n (codes "T") then 4 ∷ [] else []; stack = [] };
}

abbrev named_type : String → Ty
named_type s = inst (codes s) nowhere nil none none

-- (point, T, line)
abbrev three_names : Ty
three_names =
    tuple (cons (named_type "point") (cons (named_type "T") (cons (named_type "line") nil)))

resolve_type_run : (resolve_type names three_names).1 ≡ (codes "line", nowhere) ∷ []
unfolding resolve_type bytes_eq
resolve_type_run = refl

resolve_type_errors_example :
    ((resolve_type names three_names).1
      ≡ select points_nowhere (visit_type (resolve_type names three_names).0))
    × ((resolve_type names three_names).1 ≡ select (is_unbound names) (visit_type three_names))
resolve_type_errors_example = resolve_type_errors names three_names

one-IsFree : (c d : ℕ) → (d == c) ≡ false → IsFree c (d ∷ [])
unfolding IsFree
one-IsFree c d h = ((λ e. absurd (ground arith)), tt)

get_module_name-base_example : get_module_name (codes "a/b.c") ≡ codes "b"
get_module_name-base_example =
    get_module_name-base (codes "a") (codes "b") (codes "c") (one-IsFree b'\\' b'a' refl)
      (one-IsFree b'/' b'b' refl) (one-IsFree b'\\' b'b' refl) (one-IsFree b'/' b'c' refl)
      (one-IsFree b'\\' b'c' refl) (one-IsFree b'.' b'c' refl)

-- Without an extension the slash stays, and without a directory so does the extension.
get_module_name_run :
    (get_module_name (codes "a/b") ≡ codes "/b") × (get_module_name (codes "b.c") ≡ codes "b.c")
unfolding get_module_name
get_module_name_run = (refl, refl)
