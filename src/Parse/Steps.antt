-- ===== src/Parse/Steps.antt =====
-- compiler/parse.cpp: how far a parser moves in the stream, and that no assertion of its steps fails.
use aike.Base.{
  ℕ, zero, suc, ◌+◌, ◌≤◌, ◌<◌, ◌≡◌, refl, ap, sym, ◌∙◌, true, false, &&→both, List, [], ◌∷◌, none,
  some, Bytes, bytes_eq, length, ==→eq, ne→==, arith, Option-cases, inl, inr, get_elem?,
}
use aike.Types.Syntax.{Location}
use aike.Tokenize.Defs.{Line, TokenType, end, Token}
use aike.Parse.Stream.{
  TokenStream, Parser, Parsed, ok, panic, assertion, out_of_fuel, bind, ◌>>=◌, pure, ask, fail,
  fresh, token_or_end, type_code, get, has_type, has_text, is, is_text, move, ParseError,
}

-- The second location starts behind the first one, in the same text.
abbrev pub Spans : Location → Location → Type 0
Spans l r = (bytes_eq l.source r.source ≡ true) × (l.offset + l.length ≤ r.offset)

-- The tokens of a text: there is a line, each token stands on a line, and they follow
-- each other, where those that end a line may start within the one in front of them.
pub record IsTokenized (tokens : List Token) (lines : List Line) : Type 0 where
  pub some_line : 0 < length lines
  pub lined : (i : ℕ) (t : Token) → get_elem? tokens i ≡ some t → t.location.line < length lines
  pub spaced :
      (i j : ℕ) (t u : Token)
      → i < j
      → get_elem? tokens i ≡ some t
      → get_elem? tokens j ≡ some u
      → type_code u.type < 6
      → Spans t.location u.location

pub get_elem?-lt :
    {A : Type 0} (xs : List A) (i : ℕ) → i < length xs → (x : A) × (get_elem? xs i ≡ some x)
get_elem?-lt [] i h = absurd (omega arith)
get_elem?-lt (x ∷ xs) zero h = (x, refl)
get_elem?-lt (x ∷ xs) (suc i) h = get_elem?-lt xs i (omega arith)

pub get_elem?-some_lt :
    {A : Type 0} (xs : List A) (i : ℕ) (x : A) → get_elem? xs i ≡ some x → i < length xs
get_elem?-some_lt [] i x h = cc
get_elem?-some_lt (y ∷ xs) zero x h = omega arith
get_elem?-some_lt (y ∷ xs) (suc i) x h = omega (arith, get_elem?-some_lt xs i x h)

pub get_elem?-none_le : {A : Type 0} (xs : List A) (i : ℕ) → get_elem? xs i ≡ none → length xs ≤ i
get_elem?-none_le [] i h = omega arith
get_elem?-none_le (x ∷ xs) zero h = cc
get_elem?-none_le (x ∷ xs) (suc i) h = omega (arith, get_elem?-none_le xs i h)

-- The kind of a token that is not the end.
abbrev pub IsReal : TokenType → Type 0
IsReal k = type_code k < 7

-- The kind of a token that neither is the end nor ends a line.
abbrev pub IsPlace : TokenType → Type 0
IsPlace k = type_code k < 6

pub is-place : (k : TokenType) (s : TokenStream) → IsPlace k → is k s ≡ true → IsPlace (get s).type
unfolding is has_type
is-place k s r h = omega (arith, ==→eq (type_code k) (type_code (get s).type) h)

pub is_text-place :
    (k : TokenType) (text : Bytes) (s : TokenStream)
    → IsPlace k
    → is_text k text s ≡ true
    → IsPlace (get s).type
unfolding is_text has_text is
is_text-place k text s r h =
    is-place k s r (&&→both (has_type k (get s)) (bytes_eq (get s).data_of.bytes text) h).0

pub is-not_end : (k : TokenType) (s : TokenStream) → IsReal k → is k s ≡ true → is end s ≡ false
unfolding is has_type
is-not_end k s r h =
    let e = ==→eq (type_code k) (type_code (get s).type) h in
    ne→== 7 (type_code (get s).type) (λ f. absurd (omega (arith, e, f)))

pub is_text-not_end :
    (k : TokenType) (text : Bytes) (s : TokenStream)
    → IsReal k
    → is_text k text s ≡ true
    → is end s ≡ false
unfolding is_text has_text is
is_text-not_end k text s r h =
    is-not_end k s r (&&→both (has_type k (get s)) (bytes_eq (get s).data_of.bytes text) h).0

module _ (tokens : List Token) (lines : List Line) where
  -- A stream over the tokens, with fewer than `n` of them left.
  pub record Fits (n : ℕ) (s : TokenStream) : Type 0 where
    pub same_tokens : s.tokens ≡ tokens
    pub same_lines : s.lines ≡ lines
    pub within : s.index ≤ length tokens
    pub few : length tokens < n + s.index

  -- A parser gives a value and a stream from index `i` on, or it reports an error.
  abbrev pub After : {A : Type 0} → ℕ → Parsed (A × TokenStream) → Type 0
  After i (ok (a, s)) =
      (s.tokens ≡ tokens) × (s.lines ≡ lines) × (s.index ≤ length tokens) × (i ≤ s.index)
  After i (panic e l) = Unit {0}
  After i assertion = ⊥
  After i out_of_fuel = ⊥

  -- Where fewer than `n` tokens are left, the parser ends and consumes at least one token.
  pub record Eats {A : Type 0} (n : ℕ) (p : Parser A) : Type 0 where
    pub eats : (s : TokenStream) → Fits n s → After (suc s.index) (p s)

  -- Where fewer than `n` tokens are left, the parser ends and does not go back.
  pub record Keeps {A : Type 0} (n : ℕ) (p : Parser A) : Type 0 where
    pub keeps : (s : TokenStream) → Fits n s → After s.index (p s)

  -- The location may stand in front of each token where fewer than `n` are left.
  pub record Behind (l : Location) (n : ℕ) : Type 0 where
    pub on_line : l.line < length lines
    pub spans :
        (i : ℕ) (t : Token)
        → length tokens < n + i
        → get_elem? tokens i ≡ some t
        → type_code t.type < 6
        → Spans l t.location

  pub After-le :
      {A : Type 0} (i j : ℕ) (r : Parsed (A × TokenStream)) → i ≤ j → After j r → After i r
  After-le i j (ok (a, s)) h k = (k.0, k.1, k.2, omega (arith, k.3))
  After-le i j (panic e l) h k = tt
  After-le i j assertion h k = k
  After-le i j out_of_fuel h k = k

module _ {tokens : List Token} {lines : List Line} where
  pub Fits-le : (m n : ℕ) (s : TokenStream) → m ≤ n → Fits tokens lines m s → Fits tokens lines n s
  Fits-le m n s h f = record {
    same_tokens = f.same_tokens;
    same_lines = f.same_lines;
    within = f.within;
    few = omega (arith, f.few);
  }

  pub Eats-Keeps :
      {A : Type 0} {n : ℕ} {p : Parser A} → Eats tokens lines n p → Keeps tokens lines n p
  Eats-Keeps {p} e = record {
    keeps = λ s f. After-le tokens lines s.index (suc s.index) (p s) (omega arith) (e.eats s f);
  }

  pub Eats-le :
      {A : Type 0} {p : Parser A} (m n : ℕ) → m ≤ n → Eats tokens lines n p → Eats tokens lines m p
  Eats-le m n h e = record { eats = λ s f. e.eats s (Fits-le m n s h f) }

  pub Keeps-le :
      {A : Type 0} {p : Parser A} (m n : ℕ)
      → m ≤ n
      → Keeps tokens lines n p
      → Keeps tokens lines m p
  Keeps-le m n h e = record { keeps = λ s f. e.keeps s (Fits-le m n s h f) }

  pub Behind-le :
      (l : Location) (m n : ℕ) → m ≤ n → Behind tokens lines l n → Behind tokens lines l m
  Behind-le l m n h b = record {
    on_line = b.on_line;
    spans = λ i t lt e c. b.spans i t (omega arith) e c;
  }

  -- With no token left to count on, nothing is to be shown.
  pub Keeps-zero : {A : Type 0} {p : Parser A} → Keeps tokens lines 0 p
  Keeps-zero = record { keeps = λ s f. absurd (omega (arith, f.within, f.few)) }

  pub Eats-zero : {A : Type 0} {p : Parser A} → Eats tokens lines 0 p
  Eats-zero = record { eats = λ s f. absurd (omega (arith, f.within, f.few)) }

  -- What follows a step that gives a value and a stream.
  pub After->>= :
      {A B : Type 0} (i j : ℕ) (r : Parsed (A × TokenStream)) (f : A → Parser B)
      → After tokens lines i r
      → ((a : A) (s : TokenStream)
          → After tokens lines i (ok (a, s))
          → After tokens lines j (f a s))
      → After tokens lines j (bind r f)
  After->>= i j (ok (a, s)) f h k = k a s h
  After->>= i j (panic e l) f h k = tt
  After->>= i j assertion f h k = h
  After->>= i j out_of_fuel f h k = h

  pub Fits-next :
      (n i : ℕ) (s s' : TokenStream)
      → Fits tokens lines n s
      → (s'.tokens ≡ tokens) × (s'.lines ≡ lines) × (s'.index ≤ length tokens) × (i ≤ s'.index)
      → (m : ℕ) → length tokens < m + i
      → Fits tokens lines m s'
  Fits-next n i s s' f a m h = record {
    same_tokens = a.0;
    same_lines = a.1;
    within = a.2;
    few = omega (arith, a.3);
  }

  pub Keeps->>= :
      {A B : Type 0} {n : ℕ} {p : Parser A} {f : A → Parser B}
      → Keeps tokens lines n p
      → ((a : A) → Keeps tokens lines n (f a))
      → Keeps tokens lines n (p >>= f)
  Keeps->>= {n} {p} {f} kp kf = record {
    keeps = λ s h. After->>= s.index s.index (p s) f (kp.keeps s h) λ a s' k.
        After-le tokens lines s.index s'.index (f a s') k.3
          ((kf a).keeps s' (Fits-next n s.index s s' h k n h.few));
  }

  pub Keeps->>=-Eats :
      {A B : Type 0} {n : ℕ} {p : Parser A} {f : A → Parser B}
      → Keeps tokens lines n p
      → ((a : A) → Eats tokens lines n (f a))
      → Eats tokens lines n (p >>= f)
  Keeps->>=-Eats {n} {p} {f} kp kf = record {
    eats = λ s h. After->>= s.index (suc s.index) (p s) f (kp.keeps s h) λ a s' k.
        After-le tokens lines (suc s.index) (suc s'.index) (f a s') (omega (arith, k.3))
          ((kf a).eats s' (Fits-next n s.index s s' h k n h.few));
  }

  pub Eats->>= :
      {A B : Type 0} {n : ℕ} {p : Parser A} {f : A → Parser B}
      → Eats tokens lines (suc n) p
      → ((a : A) → Keeps tokens lines n (f a))
      → Eats tokens lines (suc n) (p >>= f)
  Eats->>= {n} {p} {f} kp kf = record {
    eats = λ s h. After->>= (suc s.index) (suc s.index) (p s) f (kp.eats s h) λ a s' k.
        After-le tokens lines (suc s.index) s'.index (f a s') k.3
          ((kf a).keeps s' (Fits-next (suc n) (suc s.index) s s' h k n (omega (arith, h.few))));
  }

  pub pure-Keeps : {A : Type 0} (n : ℕ) (a : A) → Keeps tokens lines n (pure a)
  pure-Keeps n a = record { keeps = λ s f. (f.same_tokens, f.same_lines, f.within, omega arith) }

  pub ask-Keeps : {A : Type 0} (n : ℕ) (g : TokenStream → A) → Keeps tokens lines n (ask g)
  ask-Keeps n g = record { keeps = λ s f. (f.same_tokens, f.same_lines, f.within, omega arith) }

  pub fresh-Keeps : (n : ℕ) → Keeps tokens lines n fresh
  fresh-Keeps n = record { keeps = λ s f. (f.same_tokens, f.same_lines, f.within, omega arith) }

  pub fail-Eats : {A : Type 0} (n : ℕ) (e : ParseError) → Eats tokens lines n (fail {A = A} e)
  fail-Eats n e = record { eats = λ s f. tt }

  -- A token that is not the end is there.
  pub get-real :
      (n : ℕ) (s : TokenStream)
      → Fits tokens lines n s
      → is end s ≡ false
      → (get_elem? tokens s.index ≡ some (get s)) × (s.index < length tokens)
  unfolding is has_type get
  get-real n s f h = elim (Option-cases (get_elem? s.tokens s.index)) [
    | inl e ↦ cc (rw e at h)
    | inr (t, e) ↦
        let there : get_elem? tokens s.index ≡ some t =
          ap (λ ts. get_elem? ts s.index) (sym f.same_tokens) ∙ e in
        (there ∙ ap some (sym (ap token_or_end e)), get_elem?-some_lt tokens s.index t there)
  ]

  pub move-After :
      (n : ℕ) (s : TokenStream)
      → Fits tokens lines n s
      → is end s ≡ false
      → After tokens lines (suc s.index) (move s)
  unfolding move
  move-After n s f h =
      rw h (f.same_tokens, f.same_lines, omega (arith, (get-real n s f h).1), omega arith)

  -- A step onto a token that has been looked at.
  pub move-then :
      {A : Type 0} (n : ℕ) (s : TokenStream) (p : Parser A)
      → Fits tokens lines (suc n) s
      → is end s ≡ false
      → Keeps tokens lines n p
      → After tokens lines (suc s.index) ((move >>= λ _. p) s)
  move-then n s p f h k =
      After->>= (suc s.index) (suc s.index) (move s) (λ _. p) (move-After (suc n) s f h)
        λ _ s' a.
          After-le tokens lines (suc s.index) s'.index (p s') a.3
            (k.keeps s' (Fits-next (suc n) (suc s.index) s s' f a n (omega (arith, f.few))))
