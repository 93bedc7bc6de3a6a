-- ===== src/Parse/LoopEnds.antt =====
-- compiler/parse.cpp: the loops over items end within their fuel.
use aike.Base.{
  ℕ, zero, suc, ◌-◌, ◌≤◌, ◌≡◌, refl, ap, Bool, true, false, List, [], ◌∷◌, Bytes, if◌then◌else◌,
  length, arith, Bool-cases, inl, inr,
}
use aike.Types.Syntax.{unknown}
use aike.Mangle.Text.{codes}
use aike.Tokenize.Defs.{Line, TokenType, Token, atom, bracket}
use aike.Parse.Stream.{
  TokenStream, Parser, Parsed, ok, ◌>>=◌, pure, is_text, move, eat, eat_text, rounds,
}
use aike.Parse.Types.{
  add_item, separator, comma_loop, comma_list, argument_loop, argument_list, parse_unknown,
}
use aike.Parse.Steps.{
  IsReal, is_text-not_end, Fits, After, Eats, Keeps, Eats-Keeps, Eats-le, Keeps-le, Keeps-zero,
  Eats-zero, Keeps->>=, Eats->>=, After-le, pure-Keeps, fresh-Keeps, move-then,
}
use aike.Parse.Eating.{eat-Eats, eat_text-Eats}

module _ (tokens : List Token) (lines : List Line) where
  pub After-if :
      {A : Type 0} (i : ℕ) (b : Bool) (x y : Parsed (A × TokenStream))
      → (b ≡ true → After tokens lines i x)
      → (b ≡ false → After tokens lines i y)
      → After tokens lines i (if b then x else y)
  After-if i true x y h k = h refl
  After-if i false x y h k = k refl

module _ {tokens : List Token} {lines : List Line} where
  -- A stream that has not moved.
  pub stay :
      {n : ℕ} (s : TokenStream)
      → Fits tokens lines n s
      → (s.tokens ≡ tokens) × (s.lines ≡ lines) × (s.index ≤ length tokens) × (s.index ≤ s.index)
  stay s f = (f.same_tokens, f.same_lines, f.within, omega arith)

  pub text-Keeps :
      (n : ℕ) (k : TokenType) (text : Bytes) → IsReal k → Keeps tokens lines n (eat_text k text)
  text-Keeps n k text r = Eats-Keeps (eat_text-Eats n k text r)

  pub token-Keeps : (n : ℕ) (k : TokenType) → IsReal k → Keeps tokens lines n (eat k)
  token-Keeps n k r = Eats-Keeps (eat-Eats n k r)

  -- A loop whose fuel is that of the whole text.
  pub rounds-Keeps :
      {A : Type 0} (n : ℕ) (g : ℕ → Parser A)
      → ((fuel m : ℕ) → m ≤ n → m ≤ fuel → Keeps tokens lines m (g fuel))
      → Keeps tokens lines n (λ s. g (rounds s) s)
  rounds-Keeps n g k = record {
    keeps = λ s f.
        (k (rounds s) (suc (length tokens - s.index)) (omega (arith, f.few, f.within))
            (omega (arith, ap length f.same_tokens))).keeps
          s
          (record {
            same_tokens = f.same_tokens;
            same_lines = f.same_lines;
            within = f.within;
            few = omega (arith, f.within);
          });
  }

  pub rounds-Eats :
      {A : Type 0} (n : ℕ) (g : ℕ → Parser A)
      → ((fuel m : ℕ) → m ≤ n → m ≤ fuel → Eats tokens lines m (g fuel))
      → Eats tokens lines n (λ s. g (rounds s) s)
  rounds-Eats n g k = record {
    eats = λ s f.
        (k (rounds s) (suc (length tokens - s.index)) (omega (arith, f.few, f.within))
            (omega (arith, ap length f.same_tokens))).eats
          s
          (record {
            same_tokens = f.same_tokens;
            same_lines = f.same_lines;
            within = f.within;
            few = omega (arith, f.within);
          });
  }

  separator-Keeps :
      (n : ℕ) (k : TokenType) (close : Bytes) → Keeps tokens lines n (separator k close)
  unfolding separator
  separator-Keeps n k close = record {
    keeps = λ s f.
        After-if tokens lines s.index (is_text k close s) (ok (tt, s)) (eat_text atom (codes ",") s)
          (λ _. stay s f) (λ _. (text-Keeps n atom (codes ",") (omega arith)).keeps s f);
  }

  -- A round of a loop over items: the item, the separator and the rounds after it.
  item_round :
      {A B C : Type 0} (n : ℕ) (k : TokenType) (close : Bytes) (item : Parser A) (rest : Parser B)
      (g : A → B → C)
      → Eats tokens lines (suc n) item
      → Keeps tokens lines n rest
      → Keeps tokens lines
          (suc n)
          (item >>= λ x. separator k close >>= λ _. rest >>= λ xs. pure (g x xs))
  item_round n k close item rest g e r = Eats-Keeps (
      Eats->>= e
        λ x. Keeps->>= (separator-Keeps n k close) λ _. Keeps->>= r (λ xs. pure-Keeps n (g x xs)))

  comma_loop-Keeps :
      {A : Type 0} (fuel n : ℕ) (k : TokenType) (close : Bytes) (item : Parser A)
      → n ≤ fuel
      → Eats tokens lines n item
      → Keeps tokens lines n (comma_loop fuel k close item)
  unfolding comma_loop
  comma_loop-Keeps fuel zero k close item h e = Keeps-zero
  comma_loop-Keeps zero (suc n) k close item h e = absurd (omega arith)
  comma_loop-Keeps (suc fuel) (suc n) k close item h e =
      let round =
        item_round n k close item (comma_loop fuel k close item) (λ x xs. x ∷ xs) e
          (comma_loop-Keeps fuel n k close item (omega arith)
            (Eats-le n (suc n) (omega arith) e)) in
      record {
        keeps = λ s f. elim (Bool-cases (is_text k close s)) [
          | inl t ↦ rw (t, After) (stay s f)
          | inr t ↦ rw (t, After) (round.keeps s f)
        ];
      }

  pub comma_list-Keeps :
      {A : Type 0} (n : ℕ) (k : TokenType) (close : Bytes) (item : Parser A)
      → Eats tokens lines n item
      → Keeps tokens lines n (comma_list k close item)
  unfolding comma_list
  comma_list-Keeps n k close item e =
      rounds-Keeps n (λ fuel. comma_loop fuel k close item)
        (λ fuel m le enough. comma_loop-Keeps fuel m k close item enough (Eats-le m n le e))

  argument_loop-Keeps :
      {A : Type 0} (fuel n : ℕ) (item : Parser A)
      → n ≤ fuel
      → Eats tokens lines n item
      → Keeps tokens lines n (argument_loop fuel item)
  unfolding argument_loop
  argument_loop-Keeps fuel zero item h e = Keeps-zero
  argument_loop-Keeps zero (suc n) item h e = absurd (omega arith)
  argument_loop-Keeps (suc fuel) (suc n) item h e =
      let round =
        item_round n bracket (codes ")") item (argument_loop fuel item) add_item e
          (argument_loop-Keeps fuel n item (omega arith) (Eats-le n (suc n) (omega arith) e)) in
      record {
        keeps = λ s f. elim (Bool-cases (is_text bracket (codes ")") s)) [
          | inl t ↦ rw (t, After) (stay s f)
          | inr t ↦ elim (Bool-cases (is_text atom (codes "...") s)) [
            | inl u ↦
                rw (t, After, u)
                  (After-le tokens lines s.index (suc s.index) _ (omega arith) (
                    move-then n s (pure ([], true)) f
                      (is_text-not_end atom (codes "...") s (omega arith) u)
                      (pure-Keeps n ([], true))))
            | inr u ↦ rw (t, After, u) (round.keeps s f)
          ]
        ];
      }

  pub argument_list-Keeps :
      {A : Type 0} (n : ℕ) (item : Parser A)
      → Eats tokens lines n item
      → Keeps tokens lines n (argument_list item)
  unfolding argument_list
  argument_list-Keeps n item e =
      rounds-Keeps n (λ fuel. argument_loop fuel item)
        (λ fuel m le enough. argument_loop-Keeps fuel m item enough (Eats-le m n le e))

  pub parse_unknown-Keeps : (n : ℕ) → Keeps tokens lines n parse_unknown
  unfolding parse_unknown
  parse_unknown-Keeps n = Keeps->>= (fresh-Keeps n) (λ a. pure-Keeps n (unknown a))

  pub Eats-all :
      {A : Type 0} {p : Parser A}
      → ((n : ℕ) → Eats tokens lines (suc n) p)
      → (n : ℕ) → Eats tokens lines n p
  Eats-all e zero = Eats-zero
  Eats-all e (suc n) = e n

  pub Keeps-all :
      {A : Type 0} {p : Parser A}
      → ((n : ℕ) → Keeps tokens lines (suc n) p)
      → (n : ℕ) → Keeps tokens lines n p
  Keeps-all e zero = Keeps-zero
  Keeps-all e (suc n) = e n

  -- A word that has been looked at is eaten, and then `p` goes on.
  pub word-After :
      {A : Type 0} (n : ℕ) (s : TokenStream) (k : TokenType) (text : Bytes) (p : Parser A)
      → IsReal k
      → Fits tokens lines (suc n) s
      → is_text k text s ≡ true
      → Keeps tokens lines n p
      → After tokens lines (suc s.index) ((move >>= λ _. p) s)
  word-After n s k text p r f t h = move-then n s p f (is_text-not_end k text s r t) h

  -- An optional part that starts with a token of its own.
  pub word_or-Keeps :
      {A : Type 0} (n : ℕ) (k : TokenType) (text : Bytes) (p q : Parser A)
      → IsReal k
      → Keeps tokens lines n p
      → Keeps tokens lines n q
      → Keeps tokens lines n (λ s. if is_text k text s then (move >>= λ _. p) s else q s)
  word_or-Keeps zero k text p q r hp hq = Keeps-zero
  word_or-Keeps (suc n) k text p q r hp hq = record {
    keeps = λ s f.
        After-if tokens lines s.index (is_text k text s) _ _
          (λ t.
            After-le tokens lines s.index (suc s.index) ((move >>= λ _. p) s) (omega arith)
              (word-After n s k text p r f t (Keeps-le n (suc n) (omega arith) hp)))
          (λ _. hq.keeps s f);
  }
