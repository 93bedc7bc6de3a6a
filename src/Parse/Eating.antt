-- ===== src/Parse/Eating.antt =====
-- compiler/parse.cpp: the operations of TokenStream, and the locations that they give.
use aike.Base.{
  ℕ, suc, ◌+◌, ◌-◌, ◌<◌, ◌≡◌, refl, ap, sym, subst, ◌∙◌, true, false, List, none, some, Bytes,
  if◌then◌else◌, length, le→leb, arith, Bool-cases, Option-cases, inl, inr, get_elem?,
}
use aike.Types.Syntax.{Location}
use aike.Tokenize.Defs.{Line, TokenType, Token}
use aike.Parse.Stream.{
  TokenStream, Parser, Parsed, ok, panic, assertion, out_of_fuel, bind, ◌>>=◌, pure, ask, here,
  token_or_end, get, is, is_text, move, expect, expect_text, eat, eat_text, get_line_indent, span,
  ParseError,
}
use aike.Parse.Steps.{
  Spans, IsTokenized, IsReal, IsPlace, is-place, is_text-place, is-not_end, is_text-not_end, Fits,
  Eats, Keeps, Behind, After-le, get_elem?-lt, get_elem?-some_lt, get_elem?-none_le, After->>=,
  get-real, move-After, Fits-next,
}

pub bind-pure :
    {A B C : Type 0} (r : Parsed (A × TokenStream)) (b : B) (f : B → Parser C)
    → bind (bind r (λ _. pure b)) f ≡ bind r (λ _. f b)
bind-pure (ok (a, s)) b f = refl
bind-pure (panic e l) b f = refl
bind-pure assertion b f = refl
bind-pure out_of_fuel b f = refl

pub eat_there :
    (k : TokenType) (s : TokenStream) → is k s ≡ true → eat k s ≡ bind (move s) (λ _. pure (get s))
unfolding eat expect
eat_there k s e =
    ap
      (λ b.
        bind (if b then ok (tt, s) else panic (ParseError.expected k (get s)) (get s).location)
          (λ _. ask get >>= λ t. move >>= λ _. pure t))
      e

pub eat_missing :
    (k : TokenType) (s : TokenStream)
    → is k s ≡ false
    → eat k s ≡ panic (ParseError.expected k (get s)) (get s).location
unfolding eat expect
eat_missing k s e =
    ap
      (λ b.
        bind (if b then ok (tt, s) else panic (ParseError.expected k (get s)) (get s).location)
          (λ _. ask get >>= λ t. move >>= λ _. pure t))
      e

pub eat_text_there :
    (k : TokenType) (text : Bytes) (s : TokenStream)
    → is_text k text s ≡ true
    → eat_text k text s ≡ move s
unfolding eat_text expect_text
eat_text_there k text s e =
    ap
      (λ b.
        bind
          (if b then ok (tt, s) else panic (ParseError.expected_text text (get s)) (get s).location)
          (λ _. move))
      e

eat_text_missing :
    (k : TokenType) (text : Bytes) (s : TokenStream)
    → is_text k text s ≡ false
    → eat_text k text s ≡ panic (ParseError.expected_text text (get s)) (get s).location
unfolding eat_text expect_text
eat_text_missing k text s e =
    ap
      (λ b.
        bind
          (if b then ok (tt, s) else panic (ParseError.expected_text text (get s)) (get s).location)
          (λ _. move))
      e

module _ {tokens : List Token} {lines : List Line} where
  pub eat-Eats : (n : ℕ) (k : TokenType) → IsReal k → Eats tokens lines n (eat k)
  eat-Eats n k r = record {
    eats = λ s f. elim (Bool-cases (is k s)) [
      | inl e ↦ rw (eat_there k s e) (
          After->>= (suc s.index) (suc s.index) (move s) (λ _. pure (get s))
            (move-After n s f (is-not_end k s r e)) (λ _ s' a. a))
      | inr e ↦ rw (eat_missing k s e) tt
    ];
  }

  pub eat_text-Eats :
      (n : ℕ) (k : TokenType) (text : Bytes) → IsReal k → Eats tokens lines n (eat_text k text)
  eat_text-Eats n k text r = record {
    eats = λ s f. elim (Bool-cases (is_text k text s)) [
      | inl e ↦ rw (eat_text_there k text s e) (move-After n s f (is_text-not_end k text s r e))
      | inr e ↦ rw (eat_text_missing k text s e) tt
    ];
  }

  pub expect-Keeps : (n : ℕ) (k : TokenType) → Keeps tokens lines n (expect k)
  unfolding expect
  expect-Keeps n k = record {
    keeps = λ s f. elim (Bool-cases (is k s)) [
      | inl e ↦ rw e (f.same_tokens, f.same_lines, f.within, omega arith)
      | inr e ↦ rw e tt
    ];
  }

  pub get_line_indent-Keeps :
      (n : ℕ) (l : Location) → l.line < length lines → Keeps tokens lines n (get_line_indent l)
  unfolding get_line_indent
  get_line_indent-Keeps n l h = record {
    keeps = λ s f.
        let (x, e) = get_elem?-lt lines l.line h in
        let there : get_elem? s.lines l.line ≡ some x =
          ap (λ ls. get_elem? ls l.line) f.same_lines ∙ e in
        rw there (f.same_tokens, f.same_lines, f.within, omega arith);
  }

  pub span-Keeps : (n : ℕ) (l r : Location) → Spans l r → Keeps tokens lines n (span l r)
  unfolding span
  span-Keeps n l r h = record {
    keeps = λ s f.
        rw (h.0, le→leb (l.offset + l.length) r.offset h.1)
          (f.same_tokens, f.same_lines, f.within, omega arith);
  }

  module _ (good : IsTokenized tokens lines) where
    -- The location of the next token, or that of the end.
    pub get-Behind :
        (n : ℕ) (s : TokenStream)
        → Fits tokens lines n s
        → Behind tokens lines (get s).location (length tokens - s.index)
    unfolding get
    get-Behind n s f = elim (Option-cases (get_elem? s.tokens s.index)) [
      | inl e ↦
          subst (λ t. Behind tokens lines t.location (length tokens - s.index))
            (sym (ap token_or_end e))
            (record { on_line = good.some_line; spans = λ i t lt g c. absurd (nothing i t lt g e) })
      | inr (u, e) ↦
          subst (λ t. Behind tokens lines t.location (length tokens - s.index))
            (sym (ap token_or_end e))
            (record {
              on_line =
                  good.lined s.index u (ap (λ ts. get_elem? ts s.index) (sym f.same_tokens) ∙ e);
              spans = λ i t lt g c.
                  good.spaced s.index i u t (omega (arith, f.within))
                    (ap (λ ts. get_elem? ts s.index) (sym f.same_tokens) ∙ e) g c;
            })
    ]
      where
        nothing :
            (i : ℕ) (t : Token)
            → length tokens < length tokens - s.index + i
            → get_elem? tokens i ≡ some t
            → get_elem? s.tokens s.index ≡ none
            → ⊥
        nothing i t lt g e =
            let there : get_elem? s.tokens i ≡ some t =
              ap (λ ts. get_elem? ts i) f.same_tokens ∙ g in
            absurd (
              omega (
                arith,
                get_elem?-some_lt s.tokens i t there,
                get_elem?-none_le s.tokens s.index e,
                ap length f.same_tokens,
              ))

    pub here->>=-Keeps :
        {A : Type 0} (n : ℕ) (f : Location → Parser A)
        → ((m : ℕ) (l : Location)
            → m < n
            → Behind tokens lines l m
            → Keeps tokens lines (suc m) (f l))
        → Keeps tokens lines n (here >>= f)
    unfolding here
    here->>=-Keeps n f k = record {
      keeps = λ s h.
          (k (length tokens - s.index) (get s).location (omega (arith, h.few, h.within))
              (get-Behind n s h)).keeps
            s
            (Fits-next n s.index s s h (h.same_tokens, h.same_lines, h.within, omega arith) _
              (omega arith));
    }

    pub here->>=-Eats :
        {A : Type 0} (n : ℕ) (f : Location → Parser A)
        → ((m : ℕ) (l : Location)
            → m < n
            → Behind tokens lines l m
            → Eats tokens lines (suc m) (f l))
        → Eats tokens lines n (here >>= f)
    unfolding here
    here->>=-Eats n f k = record {
      eats = λ s h.
          (k (length tokens - s.index) (get s).location (omega (arith, h.few, h.within))
              (get-Behind n s h)).eats
            s
            (Fits-next n s.index s s h (h.same_tokens, h.same_lines, h.within, omega arith) _
              (omega arith));
    }

    -- A token and what follows it: locations from before it may be joined to its own.
    pub eat_then :
        {A : Type 0} (n : ℕ) (k : TokenType) (f : Token → Parser A)
        → IsPlace k
        → ((m : ℕ) (t : Token)
            → m < n
            → Behind tokens lines t.location m
            → ((l : Location) → Behind tokens lines l n → Spans l t.location)
            → Keeps tokens lines m (f t))
        → Eats tokens lines n (eat k >>= f)
    eat_then n k f r g = record {
      eats = λ s h. elim (Bool-cases (is k s)) [
        | inl e ↦
            let real = get-real n s h (is-not_end k s (omega arith) e) in
            rw (eat_there k s e, bind-pure (move s) (get s) f)
              (After->>= (suc s.index) (suc s.index) (move s) (λ _. f (get s))
                (move-After n s h (is-not_end k s (omega arith) e))
                (λ _ s' a. After-le tokens lines (suc s.index) s'.index (f (get s) s') a.3 (
                  (g (length tokens - s.index) (get s) (omega (arith, h.few, h.within))
                      (get-Behind n s h)
                      (λ l b. b.spans s.index (get s) h.few real.0 (is-place k s r e))).keeps
                    s' (Fits-next n (suc s.index) s s' h a _ (omega arith)))))
        | inr e ↦ rw (eat_missing k s e) tt
      ];
    }

    -- A closing token whose location ends what starts at `start`.
    pub close_then :
        {A : Type 0} (n : ℕ) (start : Location) (k : TokenType) (text : Bytes)
        (f : Location → Parser A)
        → IsPlace k
        → Behind tokens lines start n
        → ((stop : Location) → Spans start stop → Keeps tokens lines n (f stop))
        → Keeps tokens lines n (here >>= λ stop. eat_text k text >>= λ _. f stop)
    unfolding here
    close_then n start k text f r b g = record {
      keeps = λ s h. elim (Bool-cases (is_text k text s)) [
        | inl e ↦
            let real = get-real n s h (is_text-not_end k text s (omega arith) e) in
            rw (eat_text_there k text s e) (
              After->>= (suc s.index) s.index (move s) (λ _. f (get s).location)
                (move-After n s h (is_text-not_end k text s (omega arith) e))
                (λ _ s' a.
                  After-le tokens lines s.index s'.index (f (get s).location s')
                    (omega (arith, a.3))
                    ((g (get s).location
                        (b.spans s.index (get s) h.few real.0 (is_text-place k text s r e))).keeps
                      s' (Fits-next n (suc s.index) s s' h a n (omega (arith, h.few))))))
        | inr e ↦ rw (eat_text_missing k text s e) tt
      ];
    }
