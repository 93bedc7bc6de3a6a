-- ===== src/Parse/Indentation.antt =====
-- compiler/parse.cpp: the indentation of the entries that parseIndent reads.
use aike.Base.{
  ℕ, zero, suc, ◌≤◌, ◌<◌, ◌≡◌, ◌≢◌, refl, ap, sym, ◌∙◌, subst, Bool, true, false, List, [], ◌∷◌,
  Option, none, some, leb, leb→le, ◌==◌, ==→eq, length, Bool-cases, ◌⊎◌, inl, inr, get_elem?,
  if◌then◌else◌, arith,
}
use aike.Types.Syntax.{Location}
use aike.Tokenize.Defs.{Line, end}
use aike.Parse.Stream.{
  TokenStream, Parser, ParseError, Parsed, ok, panic, ◌>>=◌, ◌>>◌, pure, get, here, is,
  get_line_indent, indent_of, fail, expected_indentation,
}
use aike.Parse.Layout.{check_first, end_line, leaves_block, after_entry, indent_loop, parse_indent}
use aike.Parse.Priority.{bind-ok, ok-pair}

-- The line of the location has this indentation.
unfoldable pub IsIndented : List Line → Location → ℕ → Type 0
IsIndented lines l i = (k : Line) × (get_elem? lines l.line ≡ some k) × (k.indent ≡ i)

-- The line at which the stream stands has this indentation.
abbrev pub IsAt : TokenStream → ℕ → Type 0
IsAt s i = IsIndented s.lines (get s).location i

-- The end of the line behind an entry, or the end of the tokens.
abbrev pub EndsLine : TokenStream → TokenStream → Type 0
EndsLine s n = ((is end s ≡ true) × (s ≡ n)) ⊎ (end_line s ≡ ok (tt, n))

-- Entries that each start on a line with this indentation.
unfoldable pub Entries : {A : Type 0} → Parser A → ℕ → TokenStream → List A → TokenStream → Type 0
Entries item first s [] s' = s ≡ s'
Entries item first s (x ∷ xs) s' =
    IsAt s first
    × (m : TokenStream) × (n : TokenStream) × (item s ≡ ok (x, m))
    × EndsLine m n
    × Entries item first n xs s'

-- No entry follows: the tokens end, or the line is not deeper than the start.
abbrev pub Leaves : ℕ → TokenStream → Type 0
Leaves start s = (is end s ≡ true) ⊎ ((i : ℕ) × IsAt s i × (i ≤ start))

get_line_indent-IsIndented :
    (l : Location) (s s' : TokenStream) (i : ℕ)
    → get_line_indent l s ≡ ok (i, s')
    → IsIndented s.lines l i × (s ≡ s')
unfolding get_line_indent IsIndented
get_line_indent-IsIndented l s s' i h = go (get_elem? s.lines l.line) refl h
  where
    go :
        (o : Option Line)
        → get_elem? s.lines l.line ≡ o
        → indent_of o s ≡ ok (i, s')
        → ((k : Line) × (get_elem? s.lines l.line ≡ some k) × (k.indent ≡ i)) × (s ≡ s')
    go none e h = cc
    go (some k) e h = let (a, b) = ok-pair h in ((k, e, a), b)

-- What leaves_block answers.
abbrev Goes : ℕ → ℕ → Bool → TokenStream → Type 0
Goes start first true n = Leaves start n
Goes start first false n = IsAt n first

leaves_block-Goes :
    (l : Location) (start first : ℕ) (s n : TokenStream) (b : Bool)
    → leaves_block (some l) start first s ≡ ok (b, n)
    → (s ≡ n) × Goes start first b n
unfolding leaves_block here
leaves_block-Goes l start first s n b h =
    let (i, s1, at, h1) = bind-ok (get_line_indent (get s).location s) _ b n h in
    let (indented, same) = get_line_indent-IsIndented (get s).location s s1 i at in
    go i s1 indented same (leb i start) (i == first) refl refl h1
  where
    go :
        (i : ℕ) (s1 : TokenStream)
        → IsAt s i
        → s ≡ s1
        → (c d : Bool) → leb i start ≡ c
        → (i == first) ≡ d
        → ((if c then pure true else if d then pure false else fail (expected_indentation first i))
              s1
            ≡ ok (b, n))
        → (s ≡ n) × Goes start first b n
    go i s1 at same true d le eq h1 =
        let (stop, there) = ok-pair h1 in
        (
          same ∙ there,
          subst (λ v. Goes start first v n) stop
              (subst (Leaves start) (same ∙ there) (inr (i, at, leb→le i start le))),
        )
    go i s1 at same false true le eq h1 =
        let (stop, there) = ok-pair h1 in
        (
          same ∙ there,
          subst (λ v. Goes start first v n) stop
              (subst (λ v. IsAt v first) (same ∙ there) (subst (IsAt s) (==→eq i first eq) at)),
        )
    go i s1 at same false false le eq h1 = cc

if_false : {A : Type 0} (c : Bool) (x y : A) → c ≡ false → (if c then x else y) ≡ y
if_false c x y h = rw h

after_entry-Goes :
    (l : Location) (start first : ℕ) (s n : TokenStream) (b : Bool)
    → after_entry (some l) start first s ≡ ok (b, n)
    → EndsLine s n × Goes start first b n
unfolding after_entry
after_entry-Goes l start first s n b h = elim (Bool-cases (is end s)) [
  | inl t ↦
      let (stop, there) = ok-pair (rw t at h) in
      (
        inl (t, there),
        subst (λ v. Goes start first v n) stop (inl (subst (λ v. is end v ≡ true) there t)),
      )
  | inr t ↦
      let (_, s1, ended, h1) =
        bind-ok (end_line s) (λ _. leaves_block (some l) start first) b n
          (sym (
              if_false (is end s) (ok (true, s)) ((end_line >> leaves_block (some l) start first) s)
                t)
            ∙ h) in
      let (same, goes) = leaves_block-Goes l start first s1 n b h1 in
      (inr (ended ∙ ap (λ v. ok (tt, v)) same), goes)
]

indent_loop-Entries :
    {A : Type 0} (fuel : ℕ) (l : Location) (start first : ℕ) (item : Parser A) (s s' : TokenStream)
    (xs : List A)
    → IsAt s first
    → indent_loop fuel (some l) start first item s ≡ ok (xs, s')
    → Entries item first s xs s' × Leaves start s'
unfolding indent_loop Entries
indent_loop-Entries zero l start first item s s' xs at h = cc
indent_loop-Entries {A = A} (suc fuel) l start first item s s' xs at h =
    elim (Bool-cases (is end s)) [
      | inl t ↦
          let (none_left, there) = ok-pair (rw (t, indent_loop) at h) in
          (
            subst (λ v. Entries item first s v s') none_left there,
            inl (subst (λ v. is end v ≡ true) there t),
          )
      | inr t ↦
          let (x, m, read, h1) = bind-ok (item s) _ xs s' (rw (t, indent_loop) at h) in
          let (stop, n, after, h2) = bind-ok (after_entry (some l) start first m) _ xs s' h1 in
          let (ended, goes) = after_entry-Goes l start first m n stop after in
          go x m n stop read ended goes h2
            (λ n s2 rest at on. indent_loop-Entries fuel l start first item n s2 rest at on)
    ]
  where
    go :
        (x : A) (m n : TokenStream) (stop : Bool)
        → item s ≡ ok (x, m)
        → EndsLine m n
        → Goes start first stop n
        → ((elim stop [ true ↦ pure [] | false ↦ indent_loop fuel (some l) start first item ]
                >>= λ rest. pure (x ∷ rest))
              n
            ≡ ok (xs, s'))
        → ((u u' : TokenStream) (rest : List A)
            → IsAt u first
            → indent_loop fuel (some l) start first item u ≡ ok (rest, u')
            → Entries item first u rest u' × Leaves start u')
        → Entries item first s xs s' × Leaves start s'
    go x m n true read ended goes h2 again =
        let (one, there) = ok-pair h2 in
        (
          subst (λ v. Entries item first s v s') one (at, m, n, read, ended, there),
          subst (Leaves start) there goes,
        )
    go x m n false read ended goes h2 again =
        let (rest, s2, read_on, h3) =
          bind-ok (indent_loop fuel (some l) start first item n) (λ rest. pure (x ∷ rest)) xs s'
            h2 in
        let (all, there) = ok-pair h3 in
        let (entries, leaves) = again n s2 rest goes read_on in
        (
          subst (λ v. Entries item first s v s') all
              (at, m, n, read, ended, subst (Entries item first n rest) there entries),
          subst (Leaves start) there leaves,
        )

check_first-deeper :
    (l : Location) (start first : ℕ) (s n : TokenStream)
    → check_first (some l) start first s ≡ ok (tt, n)
    → (start < first) × (s ≡ n)
unfolding check_first
check_first-deeper l start first s n h = elim (Bool-cases (leb first start)) [
  | inl t ↦ absurd (not_ok _ _ tt n (rw t at h))
  | inr t ↦ (not_le first start t, (ok-pair (rw t at h)).1)
]
  where
    not_ok :
        (e : ParseError) (l : Location) (u : Unit {0}) (n : TokenStream)
        → ◌≢◌ {A = Parsed (Unit {0} × TokenStream)} (panic e l) (ok (u, n))
    not_ok e l u n h = cc

    not_le : (a b : ℕ) → leb a b ≡ false → b < a
    not_le a b h = ground arith

-- parseIndent below a place, where it gives entries: each of them starts on a line with one and the
-- same indentation, which is deeper than that of the place; the line of each is ended behind it; and
-- it stops only at the end of the tokens or on a line that is not deeper than that of the place.
pub parse_indent-Entries :
    {A : Type 0} (l : Location) (item : Parser A) (s s' : TokenStream) (xs : List A)
    → parse_indent (some l) item s ≡ ok (xs, s')
    → (start : ℕ) × (first : ℕ) × IsIndented s.lines l start
      × (start < first)
      × Entries item first s xs s'
      × Leaves start s'
unfolding parse_indent here
parse_indent-Entries l item s s' xs h =
    let (start, s1, at_start, h1) = bind-ok (get_line_indent l s) _ xs s' h in
    let (outer, same) = get_line_indent-IsIndented l s s1 start at_start in
    let (first, s2, at_first, h2) = bind-ok (get_line_indent (get s1).location s1) _ xs s' h1 in
    let (inner, same2) = get_line_indent-IsIndented (get s1).location s1 s2 first at_first in
    let (_, s3, checked, h3) = bind-ok (check_first (some l) start first s2) _ xs s' h2 in
    let (deeper, same3) = check_first-deeper l start first s2 s3 checked in
    let path = same ∙ (same2 ∙ same3) in
    let (entries, leaves) =
      indent_loop-Entries (suc (length s3.tokens)) l start first item s3 s' xs
        (subst (λ v. IsAt v first) (same2 ∙ same3) inner) h3 in
    (
      start,
      first,
      outer,
      deeper,
      subst (λ v. Entries item first v xs s') (sym path) entries,
      leaves,
    )
