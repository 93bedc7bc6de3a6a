-- ===== src/Parse/Priority.antt =====
-- compiler/parse.cpp: parseExprClimb and parseExpr against the grammar of operators.
use aike.Base.{
  ℕ, zero, suc, ◌*◌, ◌≤◌, ◌<◌, ◌≡◌, ◌≢◌, refl, sym, ◌∙◌, subst, true, false, Bytes, length, arith,
  Bool-cases, inl, inr,
}
use aike.Types.Syntax.{Location}
use aike.Tree.Ast.{Ast, BinaryOp}
use aike.Parse.Stream.{
  TokenStream, Parser, Parsed, ok, panic, assertion, out_of_fuel, bind, ◌>>=◌, get, here, move,
}
use aike.Parse.Operators.{OpDef, parse_binary_op, lower_binary_op}
use aike.Parse.Terms.{Number}
use aike.Parse.Whole.{
  parse_primary, goes_on, climb, climb_right, parse_expr_climb, expr_on, parse_expr,
}

-- An expression as the grammar has it: operands, and operators with their places.
pub data OpTree : Type 0 where
  operand : Ast → OpTree
  binary : OpDef BinaryOp → Location → OpTree → OpTree → OpTree

abbrev pub lowered : OpTree → Ast
lowered (operand a) = a
lowered (binary op l left right) = lower_binary_op op (lowered left) (lowered right) l

-- The operands and operators of the tree, from left to right, are what stands between two streams.
unfoldable pub Reads : Parser Ast → TokenStream → OpTree → TokenStream → Type 0
Reads primary s (operand a) s' = primary s ≡ ok (a, s')
Reads primary s (binary op l left right) s' =
    (m : TokenStream) × (n : TokenStream) × Reads primary s left m
    × (parse_binary_op m ≡ op)
    × ((get m).location ≡ l)
    × (move m ≡ ok (tt, n))
    × Reads primary n right s'

-- The operator at the top, if there is one, binds at least as tightly.
unfoldable pub IsAbove : ℕ → OpTree → Type 0
IsAbove p (operand a) = Unit {0}
IsAbove p (binary op l left right) = p ≤ op.priority

-- Operators that bind tighter are further down, and those of one priority group to the left.
unfoldable pub IsOrdered : OpTree → Type 0
unfolding IsAbove
IsOrdered (operand a) = Unit {0}
IsOrdered (binary op l left right) =
    (0 < op.priority)
    × IsAbove op.priority left
    × IsAbove (suc op.priority) right
    × IsOrdered left
    × IsOrdered right

pub IsAbove-le : (p q : ℕ) (t : OpTree) → p ≤ q → IsAbove q t → IsAbove p t
unfolding IsAbove
IsAbove-le p q (operand a) h r = tt
IsAbove-le p q (binary op l left right) h r = omega (arith, h, r)

-- What the climb gives from a stream: a tree whose top binds at least as tightly as the limit, and
-- which the next operator does not extend.
record Climbs (primary : Parser Ast) (s : TokenStream) (limit : ℕ) (e : Ast) (s' : TokenStream)
    : Type 0 where
  tree : OpTree
  value : lowered tree ≡ e
  reads : Reads primary s tree s'
  ordered : IsOrdered tree
  above : IsAbove limit tree
  stops : goes_on (parse_binary_op s').priority limit ≡ false

pub bind-ok :
    {A B : Type 0} (r : Parsed (A × TokenStream)) (f : A → Parser B) (b : B) (s' : TokenStream)
    → bind r f ≡ ok (b, s')
    → (a : A) × (s : TokenStream) × (r ≡ ok (a, s)) × (f a s ≡ ok (b, s'))
bind-ok (ok (a, s)) f b s' h = (a, s, refl, h)
bind-ok (panic e l) f b s' h = cc
bind-ok assertion f b s' h = cc
bind-ok out_of_fuel f b s' h = cc

goes_on-true : (p limit : ℕ) → goes_on p limit ≡ true → (0 < p) × (limit ≤ p)
goes_on-true p limit h = ground arith

goes_on-false : (p limit : ℕ) → goes_on p limit ≡ false → p ≤ limit
goes_on-false p limit h = ground arith

goes_on-suc : (p q : ℕ) → goes_on p (suc q) ≡ false → p ≤ q
goes_on-suc p q h = ground arith

goes_on-zero : (p : ℕ) → goes_on p 0 ≡ false → p ≡ 0
goes_on-zero p h = ground arith

climb-zero :
    (primary : Parser Ast) (left e : Ast) (limit : ℕ) (s s' : TokenStream)
    → climb zero primary left limit s ≢ ok (e, s')
unfolding climb
climb-zero primary left e limit s s' h = cc

right-zero :
    (primary : Parser Ast) (right e : Ast) (p : ℕ) (s s' : TokenStream)
    → climb_right zero primary right p s ≢ ok (e, s')
unfolding climb
right-zero primary right e p s s' h = cc

climb-stop :
    (fuel : ℕ) (primary : Parser Ast) (left : Ast) (limit : ℕ) (s : TokenStream)
    → goes_on (parse_binary_op s).priority limit ≡ false
    → climb (suc fuel) primary left limit s ≡ ok (left, s)
unfolding climb
climb-stop fuel primary left limit s stop = rw (stop, climb)

climb-go :
    (fuel : ℕ) (primary : Parser Ast) (left : Ast) (limit : ℕ) (s : TokenStream)
    → goes_on (parse_binary_op s).priority limit ≡ true
    → climb (suc fuel) primary left limit s
      ≡ (move >>= λ _. primary >>= λ first.
            climb_right fuel primary first (parse_binary_op s).priority >>= λ right.
            climb fuel primary
              (lower_binary_op (parse_binary_op s) left right (get s).location)
              limit)
          s
unfolding climb here
climb-go fuel primary left limit s go = rw (go, climb)

right-stop :
    (fuel : ℕ) (primary : Parser Ast) (right : Ast) (p : ℕ) (s : TokenStream)
    → goes_on (parse_binary_op s).priority (suc p) ≡ false
    → climb_right (suc fuel) primary right p s ≡ ok (right, s)
unfolding climb
right-stop fuel primary right p s stop = rw (stop, climb_right)

right-go :
    (fuel : ℕ) (primary : Parser Ast) (right : Ast) (p : ℕ) (s : TokenStream)
    → goes_on (parse_binary_op s).priority (suc p) ≡ true
    → climb_right (suc fuel) primary right p s
      ≡ (climb fuel primary right (parse_binary_op s).priority >>= λ e.
            climb_right fuel primary e p)
          s
unfolding climb
right-go fuel primary right p s go = rw (go, climb_right)

pub ok-pair :
    {A : Type 0} {a b : A} {s u : TokenStream}
    → ◌≡◌ {A = Parsed (A × TokenStream)} (ok (a, s)) (ok (b, u))
    → (a ≡ b) × (s ≡ u)
ok-pair h = (cc, cc)

-- The climb stops at once.
Climbs-here :
    (primary : Parser Ast) (s0 s s' : TokenStream) (t : OpTree) (limit : ℕ) (e : Ast)
    → Reads primary s0 t s
    → IsOrdered t
    → IsAbove limit t
    → goes_on (parse_binary_op s).priority limit ≡ false
    → ◌≡◌ {A = Parsed (Ast × TokenStream)} (ok (lowered t, s)) (ok (e, s'))
    → Climbs primary s0 limit e s'
Climbs-here primary s0 s s' t limit e r o a stop h =
    let (same, at) = ok-pair h in
    subst (λ v. Climbs primary s0 limit e v) at
      (record { tree = t; value = same; reads = r; ordered = o; above = a; stops = stop })

mutual
  unfolding Reads IsOrdered IsAbove

  climb-Climbs :
      (fuel : ℕ) (primary : Parser Ast) (s0 s s' : TokenStream) (t : OpTree) (limit : ℕ) (e : Ast)
      → Reads primary s0 t s
      → IsOrdered t
      → IsAbove limit t
      → IsAbove (parse_binary_op s).priority t
      → climb fuel primary (lowered t) limit s ≡ ok (e, s')
      → Climbs primary s0 limit e s'
  climb-Climbs zero primary s0 s s' t limit e r o a n h =
      absurd (climb-zero primary (lowered t) e limit s s' h)
  climb-Climbs (suc fuel) primary s0 s s' t limit e r o a n h =
      elim (Bool-cases (goes_on (parse_binary_op s).priority limit)) [
        | inr stop ↦
            Climbs-here primary s0 s s' t limit e r o a stop
              (sym (climb-stop fuel primary (lowered t) limit s stop) ∙ h)
        | inl go ↦
            let op = parse_binary_op s in
            let (pos, low) = goes_on-true op.priority limit go in
            let (_, s1, moved, h1) =
              bind-ok (move s) _ e s' (sym (climb-go fuel primary (lowered t) limit s go) ∙ h) in
            let (first, s2, read, h2) = bind-ok (primary s1) _ e s' h1 in
            let (right, s3, rest, h3) =
              bind-ok (climb_right fuel primary first op.priority s2) _ e s' h2 in
            let c =
              right-Climbs fuel primary s1 s2 s3 (operand first) op.priority right read tt tt tt
                rest in
            climb-Climbs fuel primary s0 s3 s' (binary op (get s).location t c.tree) limit e
              (s, s1, r, refl, refl, moved, c.reads) (pos, n, c.above, o, c.ordered) low
              (goes_on-suc (parse_binary_op s3).priority op.priority c.stops)
              (subst
                (λ v.
                  climb fuel primary (lower_binary_op op (lowered t) v (get s).location) limit s3
                  ≡ ok (e, s'))
                (sym c.value) h3)
      ]

  right-Climbs :
      (fuel : ℕ) (primary : Parser Ast) (s0 s s' : TokenStream) (t : OpTree) (p : ℕ) (e : Ast)
      → Reads primary s0 t s
      → IsOrdered t
      → IsAbove (suc p) t
      → IsAbove (parse_binary_op s).priority t
      → climb_right fuel primary (lowered t) p s ≡ ok (e, s')
      → Climbs primary s0 (suc p) e s'
  right-Climbs zero primary s0 s s' t p e r o a n h =
      absurd (right-zero primary (lowered t) e p s s' h)
  right-Climbs (suc fuel) primary s0 s s' t p e r o a n h =
      elim (Bool-cases (goes_on (parse_binary_op s).priority (suc p))) [
        | inr stop ↦
            Climbs-here primary s0 s s' t (suc p) e r o a stop
              (sym (right-stop fuel primary (lowered t) p s stop) ∙ h)
        | inl go ↦
            let op = parse_binary_op s in
            let (pos, low) = goes_on-true op.priority (suc p) go in
            let (mid, s1, rest, h1) =
              bind-ok (climb fuel primary (lowered t) op.priority s) _ e s'
                (sym (right-go fuel primary (lowered t) p s go) ∙ h) in
            let c = climb-Climbs fuel primary s0 s s1 t op.priority mid r o n n rest in
            right-Climbs fuel primary s0 s1 s' c.tree p e c.reads c.ordered
              (IsAbove-le (suc p) op.priority c.tree low c.above)
              (IsAbove-le (parse_binary_op s1).priority op.priority c.tree
                (goes_on-false (parse_binary_op s1).priority op.priority c.stops) c.above)
              (subst (λ v. climb_right fuel primary v p s1 ≡ ok (e, s')) (sym c.value) h1)
      ]

-- parseExpr, where it gives a tree: the tokens it has read are operands, as parsePrimary reads them,
-- with binary operators between them, and the tree groups them by priority, with those of one
-- priority to the left. It has gone on for as long as an operator follows.
pub parse_expr-IsOrdered :
    (strtod : Bytes → Number) (s s' : TokenStream) (e : Ast)
    → parse_expr strtod s ≡ ok (e, s')
    → (t : OpTree) × (lowered t ≡ e)
      × IsOrdered t
      × ((parse_binary_op s').priority ≡ 0)
      × Reads (parse_primary strtod (expr_on (length s.tokens) strtod)) s t s'
unfolding parse_expr parse_expr_climb Reads IsOrdered IsAbove
parse_expr-IsOrdered strtod s s' e h =
    let primary = parse_primary strtod (expr_on (length s.tokens) strtod) in
    let (first, s1, read, h1) = bind-ok (primary s) _ e s' h in
    let c =
      climb-Climbs (2 * suc (length s1.tokens)) primary s s1 s' (operand first) 0 e read tt tt tt
        h1 in
    (c.tree, c.value, c.ordered, goes_on-zero (parse_binary_op s').priority c.stops, c.reads)
