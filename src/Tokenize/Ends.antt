-- ===== src/Tokenize/Ends.antt =====
-- compiler/tokenize.cpp: what parseLines and getLocation give, and that the loops end.
use aike.Base.{
  ℕ, zero, suc, ◌+◌, ◌≤◌, ◌<◌, ◌≡◌, refl, Bool, true, false, List, [], ◌∷◌, ◌++◌, some, Bytes,
  if◌then◌else◌, leb, ◌==◌, length, arith, Bool-cases, inl, inr,
}
use aike.Tokenize.Defs.{Line, Lex, ok, panic, assertion, out_of_fuel, ◌>>=◌}
use aike.Tokenize.Lines.{
  scan_indent, scan_line, parse_lines, next_offset, drop_one, get_location, last_before,
}

-- The pass reports a problem, or it gives a value of which `P` holds: no assertion fails and the fuel
-- does not run out.
abbrev pub Ends : {A : Type 0} → (A → Type 0) → Lex A → Type 0
Ends P (ok a) = P a
Ends P (panic _ _) = Unit {0}
Ends P assertion = ⊥
Ends P out_of_fuel = ⊥

pub Ends->>= :
    {A B : Type 0} (P : A → Type 0) (Q : B → Type 0) (r : Lex A) (f : A → Lex B)
    → Ends P r
    → ((a : A) → P a → Ends Q (f a))
    → Ends Q (r >>= f)
Ends->>= P Q (ok a) f h k = k a h
Ends->>= P Q (panic p l) f h k = tt
Ends->>= P Q assertion f h k = h
Ends->>= P Q out_of_fuel f h k = h

pub Ends-if :
    {A : Type 0} (P : A → Type 0) (b : Bool) (x y : Lex A)
    → (b ≡ true → Ends P x)
    → (b ≡ false → Ends P y)
    → Ends P (if b then x else y)
Ends-if P true x y h k = h refl
Ends-if P false x y h k = k refl

-- The first line starts the text.
abbrev pub StartsText : List Line → Type 0
StartsText [] = ⊥
StartsText (l ∷ _) = l.offset ≡ 0

StartsText-append : (ls ms : List Line) → StartsText ls → StartsText (ls ++ ms)
StartsText-append [] ms h = absurd h
StartsText-append (l ∷ ls) ms h = h

length-scan_indent : (s : Bytes) → length (scan_indent s).1 ≤ length s
unfolding scan_indent
length-scan_indent [] = omega arith
length-scan_indent (ch ∷ s) = ground (arith, length-scan_indent s)

scan_line-Ends :
    (source : Bytes) (line indent offset : ℕ) (s : Bytes)
    → Ends (λ (p : ℕ × Bytes). length p.1 ≤ length s) (scan_line source line indent offset s)
unfolding scan_line
scan_line-Ends source line indent offset [] = omega arith
scan_line-Ends source line indent offset (ch ∷ s) =
    Ends-if _ (ch == 10) _ _ (λ e. omega arith)
      (λ e.
        Ends-if _ (ch == 9) _ _ (λ e'. tt)
          (λ e'. weaken _ (scan_line-Ends source line indent (suc offset) s)))
  where
    weaken :
        (r : Lex (ℕ × Bytes))
        → Ends (λ (p : ℕ × Bytes). length p.1 ≤ length s) r
        → Ends (λ (p : ℕ × Bytes). length p.1 ≤ suc (length s)) r
    weaken (ok p) h = omega arith
    weaken (panic p l) h = tt
    weaken assertion h = h
    weaken out_of_fuel h = h

pub length-drop_one : (s : Bytes) (n : ℕ) → length s ≤ suc n → length (drop_one s) ≤ n
length-drop_one [] n h = omega arith
length-drop_one (_ ∷ s) n h = omega arith

-- A round of parseLines, where the rounds after it give lines that start the text.
parse_lines-round :
    (fuel : ℕ) (source : Bytes) (lines : List Line) (offset ch : ℕ) (rest : Bytes)
    → ((o i : ℕ) (s : Bytes)
        → length s ≤ length rest
        → Ends StartsText
            (parse_lines fuel source (lines ++ record { indent = i; offset = offset } ∷ []) o s))
    → Ends StartsText (parse_lines (suc fuel) source lines offset (ch ∷ rest))
unfolding parse_lines
parse_lines-round fuel source lines offset ch rest k =
    Ends->>= (λ (p : ℕ × Bytes). length p.1 ≤ length (scan_indent (ch ∷ rest)).1) StartsText
      (scan_line source (length lines) (scan_indent (ch ∷ rest)).0
        (offset + (scan_indent (ch ∷ rest)).0) (scan_indent (ch ∷ rest)).1)
      _
      (scan_line-Ends source (length lines) (scan_indent (ch ∷ rest)).0
        (offset + (scan_indent (ch ∷ rest)).0) (scan_indent (ch ∷ rest)).1)
      (λ p le.
        k (next_offset p.0 p.1) (scan_indent (ch ∷ rest)).0 (drop_one p.1)
          (length-drop_one p.1 (length rest) (omega (arith, le, length-scan_indent (ch ∷ rest)))))

parse_lines-Ends :
    (fuel : ℕ) (source : Bytes) (lines : List Line) (offset : ℕ) (s : Bytes)
    → length s < fuel
    → StartsText lines
    → Ends StartsText (parse_lines fuel source lines offset s)
parse_lines-Ends zero source lines offset s lt h = absurd (omega arith)
parse_lines-Ends (suc fuel) source lines offset [] lt h = unfold parse_lines in h
parse_lines-Ends (suc fuel) source lines offset (ch ∷ rest) lt h =
    parse_lines-round fuel source lines offset ch rest
      (λ o i s le. parse_lines-Ends fuel source _ o s (omega arith) (StartsText-append lines _ h))

-- On a text that is not empty parseLines reports a tab or gives lines of which the first starts at 0.
pub parse_lines_start :
    (source : Bytes) (ch : ℕ) (rest : Bytes)
    → Ends StartsText (parse_lines (suc (length (ch ∷ rest))) source [] 0 (ch ∷ rest))
parse_lines_start source ch rest =
    parse_lines-round (length (ch ∷ rest)) source [] 0 ch rest
      (λ o i s le. parse_lines-Ends (length (ch ∷ rest)) source _ o s (omega arith) refl)

last_before-some :
    (line : ℕ) (f : ℕ × Line) (ls : List Line) (offset : ℕ)
    → (g : ℕ × Line) × (last_before line (some f) ls offset ≡ some g)
unfolding last_before
last_before-some line f [] offset = (f, refl)
last_before-some line f (l ∷ ls) offset = elim (Bool-cases (leb l.offset offset)) [
  | inl e ↦ rw e (last_before-some (suc line) (line, l) ls offset)
  | inr e ↦ (f, rw e)
]

-- getLocation finds a line for every offset, once the first line starts at 0.
pub get_location-Ends :
    (source : Bytes) (lines : List Line) (offset n : ℕ)
    → StartsText lines
    → Ends (λ _. Unit {0}) (get_location source lines offset n)
unfolding get_location last_before
get_location-Ends source [] offset n h = absurd h
get_location-Ends source (l ∷ ls) offset n h =
    let (g, e) = last_before-some 1 (0, l) ls offset in
    let first : leb l.offset offset ≡ true = rw h (ground arith) in rw (first, e) tt
