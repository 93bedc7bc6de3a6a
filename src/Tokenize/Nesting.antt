-- ===== src/Tokenize/Nesting.antt =====
-- compiler/tokenize.cpp: matchBrackets against well-nested texts. Nested is stated by the tests of the
-- code, WellNested by the brackets themselves.
use aike.Base.{
  ◌≡◌, ◌↔◌, refl, ap, sym, subst, ◌∙◌, true, false, List, [], ◌∷◌, ◌++◌, bytes_eq, Bool-cases, inl,
  inr, append_assoc, append-nil, ◌≢◌, ◌⊎◌, Bytes, bytes_eq→eq,
}
use aike.Tokenize.Defs.{TokenType, bracket, Token, Lex, ok}
use aike.Tokenize.Brackets.{
  is_opening, get_closing_bracket, is_bracket_token, close_bracket, match_bracket, then_match,
  match_from, match_brackets,
}

abbrev pub IsOpen : Token → Type 0
IsOpen t = (is_bracket_token t.type ≡ true) × (is_opening t.data_of.bytes ≡ true)

-- `c` is the bracket that closes `o`.
abbrev pub IsClose : Token → Token → Type 0
IsClose o c =
    (is_bracket_token c.type ≡ true)
    × (is_opening c.data_of.bytes ≡ false)
    × (bytes_eq c.data_of.bytes (get_closing_bracket o.data_of.bytes) ≡ true)

-- Each opening bracket has its closing bracket, and what is between them is well nested.
pub data Nested : List Token → Type 0 where
  empty : Nested []
  plain :
      {ts : List Token} (t : Token) → is_bracket_token t.type ≡ false → Nested ts → Nested (t ∷ ts)
  pair :
      {inner rest : List Token} (o c : Token)
      → IsOpen o
      → IsClose o c
      → Nested inner
      → Nested rest
      → Nested (o ∷ (inner ++ c ∷ rest))

match-plain :
    (t : Token) (stack : List Token)
    → is_bracket_token t.type ≡ false
    → match_bracket t stack ≡ ok stack
unfolding match_bracket
match-plain t stack h = rw h

match-open : (t : Token) (stack : List Token) → IsOpen t → match_bracket t stack ≡ ok (t ∷ stack)
unfolding match_bracket
match-open t stack h = rw (h.0, h.1)

match-close :
    (o c : Token) (stack : List Token) → IsClose o c → match_bracket c (o ∷ stack) ≡ ok stack
unfolding match_bracket close_bracket
match-close o c stack h = rw (h.0, h.1, h.2)

-- A well-nested text leaves the stack as it was.
Nested-match :
    (ts : List Token)
    → Nested ts
    → (rest stack : List Token) → match_from (ts ++ rest) stack ≡ match_from rest stack
unfolding match_from
Nested-match _ empty rest stack = refl
Nested-match _ (plain {ts} t h n) rest stack =
    rw (match-plain t stack h) (Nested-match ts n rest stack)
Nested-match _ (pair {inner} {rest = after} o c ho hc n m) rest stack =
    rw
      (
        match-open o stack ho,
        append_assoc inner (c ∷ after) rest,
        Nested-match inner n (c ∷ (after ++ rest)) (o ∷ stack),
        match-close o c stack hc,
      )
      (Nested-match after m rest stack)

-- The text closes the brackets of the stack, one after the other, with well-nested texts between.
data Closes : List Token → List Token → Type 0 where
  all : {ts : List Token} → Nested ts → Closes [] ts
  one :
      {stack inner rest : List Token} (o c : Token)
      → IsClose o c
      → Nested inner
      → Closes stack rest
      → Closes (o ∷ stack) (inner ++ c ∷ rest)

Nested-append : {ts us : List Token} → Nested ts → Nested us → Nested (ts ++ us)
Nested-append empty k = k
Nested-append (plain t h n) k = plain t h (Nested-append n k)
Nested-append {us} (pair {inner} {rest} o c ho hc n m) k =
    subst (λ xs. Nested (o ∷ xs)) (sym (append_assoc inner (c ∷ rest) us))
      (pair o c ho hc n (Nested-append m k))

Closes-prepend :
    {stack us : List Token} (ts : List Token)
    → Nested ts
    → Closes stack us
    → Closes stack (ts ++ us)
Closes-prepend ts n (all m) = all (Nested-append n m)
Closes-prepend ts n (one {stack} {inner} {rest} o c hc m k) =
    subst (Closes (o ∷ stack)) (append_assoc ts inner (c ∷ rest)) (one o c hc (Nested-append n m) k)

Closes-open :
    (o : Token) {stack : List Token} (ts : List Token)
    → IsOpen o
    → Closes (o ∷ stack) ts
    → Closes stack (o ∷ ts)
Closes-open o ts ho (one {stack} {inner} {rest} o' c hc n k) =
    subst (λ xs. Closes stack (o ∷ xs)) (append_assoc inner (c ∷ []) rest)
      (Closes-prepend (o ∷ (inner ++ c ∷ [])) (pair o c ho hc n empty) k)

then_match-ok :
    (f : List Token → Lex (Unit {0})) {r : Lex (List Token)} {st : List Token}
    → r ≡ ok st
    → then_match r f ≡ ok tt
    → f st ≡ ok tt
then_match-ok f e h = sym (ap (λ r. then_match r f) e) ∙ h

-- A closing bracket that does not end the pass closes the bracket on top of the stack.
IsClose-of_IsClose :
    (t : Token) (stack : List Token) (f : List Token → Lex (Unit {0}))
    → is_bracket_token t.type ≡ true
    → is_opening t.data_of.bytes ≡ false
    → then_match (match_bracket t stack) f ≡ ok tt
    → (o : Token) × (rest : List Token) × (stack ≡ o ∷ rest) × IsClose o t × (f rest ≡ ok tt)
unfolding match_bracket close_bracket
IsClose-of_IsClose t [] f b e h = cc (rw (b, e) at h)
IsClose-of_IsClose t (o ∷ stack) f b e h =
    elim (Bool-cases (bytes_eq t.data_of.bytes (get_closing_bracket o.data_of.bytes))) [
      | inl q ↦ (o, stack, refl, (b, e, q), then_match-ok f (match-close o t stack (b, e, q)) h)
      | inr q ↦ cc (rw (b, e, q) at h)
    ]

match-Closes : (ts stack : List Token) → match_from ts stack ≡ ok tt → Closes stack ts
unfolding match_from match_bracket close_bracket
match-Closes [] [] h = all empty
match-Closes [] (o ∷ stack) h = cc
match-Closes (t ∷ ts) stack h = elim (Bool-cases (is_bracket_token t.type)) [
  | inl b ↦ elim (Bool-cases (is_opening t.data_of.bytes)) [
    | inl e ↦
        Closes-open t ts (b, e)
          (match-Closes ts (t ∷ stack)
            (then_match-ok (match_from ts) (match-open t stack (b, e)) h))
    | inr e ↦
        let (o, rest, same, closes, k) = IsClose-of_IsClose t stack (match_from ts) b e h in
        subst (λ st. Closes st (t ∷ ts)) (sym same) (one o t closes empty (match-Closes ts rest k))
  ]
  | inr b ↦
      Closes-prepend (t ∷ []) (plain t b empty)
        (match-Closes ts stack (then_match-ok (match_from ts) (match-plain t stack b) h))
]

Closes-Nested : (ts : List Token) → Closes [] ts → Nested ts
Closes-Nested ts (all n) = n

-- The three kinds of brackets.
abbrev pub Matches : Bytes → Bytes → Type 0
Matches s t =
    ((s ≡ b'(' ∷ []) × (t ≡ b')' ∷ []))
    ⊎ (((s ≡ b'[' ∷ []) × (t ≡ b']' ∷ [])) ⊎ ((s ≡ b'{' ∷ []) × (t ≡ b'}' ∷ [])))

-- Sequences of tokens in which round, square and curly brackets are closed each by its own kind, with
-- such a sequence in between.
pub data WellNested : List Token → Type 0 where
  nothing : WellNested []
  other : {ts : List Token} (t : Token) → t.type ≢ bracket → WellNested ts → WellNested (t ∷ ts)
  enclosed :
      {inner rest : List Token} (o c : Token)
      → o.type ≡ bracket
      → c.type ≡ bracket
      → Matches o.data_of.bytes c.data_of.bytes
      → WellNested inner
      → WellNested rest
      → WellNested (o ∷ (inner ++ c ∷ rest))

bracket_iff : (k : TokenType) → (is_bracket_token k ≡ true) ↔ (k ≡ bracket)
bracket_iff bracket = (λ h. refl, λ h. refl)
bracket_iff k = (λ h. cc, λ h. cc)

not_bracket : (k : TokenType) → k ≢ bracket → is_bracket_token k ≡ false
not_bracket bracket h = absurd (h refl)
not_bracket k h = refl

Matches-get_closing_bracket :
    (s t : Bytes) → is_opening s ≡ true → bytes_eq t (get_closing_bracket s) ≡ true → Matches s t
unfolding is_opening get_closing_bracket
Matches-get_closing_bracket s t h e = elim (Bool-cases (bytes_eq s (b'{' ∷ []))) [
  | inl p ↦ inr (inr (bytes_eq→eq s _ p, bytes_eq→eq t _ (rw p at e)))
  | inr p ↦ elim (Bool-cases (bytes_eq s (b'(' ∷ []))) [
    | inl q ↦ inl (bytes_eq→eq s _ q, bytes_eq→eq t _ (rw (p, q) at e))
    | inr q ↦ inr (inl (bytes_eq→eq s _ (rw (p, q) at h), bytes_eq→eq t _ (rw (p, q) at e)))
  ]
]

abbrev Closing : Bytes → Bytes → Type 0
Closing s t =
    (is_opening s ≡ true) × (is_opening t ≡ false) × (bytes_eq t (get_closing_bracket s) ≡ true)

Closing-Matches : (s t : Bytes) → Matches s t → Closing s t
unfolding is_opening get_closing_bracket bytes_eq
Closing-Matches s t (inl (p, q)) = rw (p, q) (refl, refl, refl)
Closing-Matches s t (inr (inl (p, q))) = rw (p, q) (refl, refl, refl)
Closing-Matches s t (inr (inr (p, q))) = rw (p, q) (refl, refl, refl)

Nested-WellNested : {ts : List Token} → Nested ts → WellNested ts
Nested-WellNested empty = nothing
Nested-WellNested (plain t h n) =
    other t (λ e. cc (h, (bracket_iff t.type).1 e)) (Nested-WellNested n)
Nested-WellNested (pair o c ho hc n m) =
    enclosed o c ((bracket_iff o.type).0 ho.0) ((bracket_iff c.type).0 hc.0)
      (Matches-get_closing_bracket o.data_of.bytes c.data_of.bytes ho.1 hc.2) (Nested-WellNested n)
      (Nested-WellNested m)

WellNested-Nested : {ts : List Token} → WellNested ts → Nested ts
WellNested-Nested nothing = empty
WellNested-Nested (other t h n) = plain t (not_bracket t.type h) (WellNested-Nested n)
WellNested-Nested (enclosed o c ho hc m n k) =
    let (opens, closes, same) = Closing-Matches o.data_of.bytes c.data_of.bytes m in
    pair o c ((bracket_iff o.type).1 ho, opens) ((bracket_iff c.type).1 hc, closes, same)
      (WellNested-Nested n) (WellNested-Nested k)

-- matchBrackets accepts exactly the sequences of tokens in which each of the brackets `(`, `[` and `{`
-- is closed by its own kind and what is between the two is such a sequence.
pub match_brackets_iff : (ts : List Token) → (match_brackets ts ≡ ok tt) ↔ WellNested ts
unfolding match_brackets match_from
match_brackets_iff ts = (
  λ h. Nested-WellNested (Closes-Nested ts (match-Closes ts [] h)),
  λ w.
      ap (λ us. match_from us []) (sym (append-nil ts))
      ∙ Nested-match ts (WellNested-Nested w) [] [],
)
