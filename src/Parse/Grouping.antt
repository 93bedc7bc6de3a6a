-- ===== src/Parse/Grouping.antt =====
-- compiler/parse.cpp: parseExpr against a grouping that takes one operator after the other.
use aike.Base.{
  ℕ, suc, ◌<◌, ◌≡◌, refl, ap, sym, ◌∙◌, subst, List, [], ◌∷◌, ◌++◌, Bytes, length, arith, ltb,
  lt→ltb, le→ltb, if◌then◌else◌,
}
use aike.Types.Syntax.{Location}
use aike.Tree.Ast.{Ast, BinaryOp}
use aike.Parse.Stream.{TokenStream, Parser, ok, get, move}
use aike.Parse.Operators.{OpDef, parse_binary_op}
use aike.Parse.Terms.{Number}
use aike.Parse.Whole.{parse_primary, expr_on, parse_expr}
use aike.Parse.Priority.{
  OpTree, operand, binary, lowered, Reads, IsAbove, IsOrdered, IsAbove-le, parse_expr-IsOrdered,
}

-- An operator, its place, and the operand behind it.
pub record Link : Type 0 where
  pub op : OpDef BinaryOp
  pub location : Location
  pub right : Ast

-- The operator goes below those on the right edge that bind looser, and takes the rest as its left side.
unfoldable attach : OpTree → Link → OpTree
attach (operand a) k = binary k.op k.location (operand a) (operand k.right)
attach (binary o l left right) k =
    if ltb o.priority k.op.priority
    then binary o l left (attach right k)
    else binary k.op k.location (binary o l left right) (operand k.right)

unfoldable pub grouped : OpTree → List Link → OpTree
unfolding attach
grouped t [] = t
grouped t (k ∷ ks) = grouped (attach t k) ks

-- The links stand between two streams.
unfoldable pub Chain : Parser Ast → TokenStream → List Link → TokenStream → Type 0
Chain primary s [] s' = s ≡ s'
Chain primary s (k ∷ ks) s' =
    (m : TokenStream) × (n : TokenStream) × (parse_binary_op s ≡ k.op)
    × (0 < k.op.priority)
    × ((get s).location ≡ k.location)
    × (move s ≡ ok (tt, m))
    × (primary m ≡ ok (k.right, n))
    × Chain primary n ks s'

abbrev first : OpTree → Ast
first (operand a) = a
first (binary o l left right) = first left

abbrev links : OpTree → List Link
links (operand a) = []
links (binary o l left right) =
    links left ++ (record { op = o; location = l; right = first right } ∷ links right)

-- Every link binds tighter.
unfoldable AllOver : ℕ → List Link → Type 0
AllOver p [] = Unit {0}
AllOver p (k ∷ ks) = (p < k.op.priority) × AllOver p ks

AllOver-++ : (p : ℕ) (ks js : List Link) → AllOver p ks → AllOver p js → AllOver p (ks ++ js)
unfolding AllOver
AllOver-++ p [] js h g = g
AllOver-++ p (k ∷ ks) js (h, hs) g = (h, AllOver-++ p ks js hs g)

AllOver-links : (p : ℕ) (t : OpTree) → IsOrdered t → IsAbove (suc p) t → AllOver p (links t)
unfolding AllOver IsOrdered IsAbove
AllOver-links p (operand a) o h = tt
AllOver-links p (binary op l left right) (pos, al, ar, ol, or) h =
    AllOver-++ p (links left) _ (AllOver-links p left ol (IsAbove-le (suc p) op.priority left h al))
      (h, AllOver-links p right or (IsAbove-le (suc p) (suc op.priority) right (omega arith) ar))

attach-above :
    (t : OpTree) (k : Link)
    → IsAbove k.op.priority t
    → attach t k ≡ binary k.op k.location t (operand k.right)
unfolding attach IsAbove
attach-above (operand a) k h = refl
attach-above (binary o l left right) k h = rw (le→ltb o.priority k.op.priority h)

grouped-++ : (t : OpTree) (ks js : List Link) → grouped t (ks ++ js) ≡ grouped (grouped t ks) js
unfolding grouped
grouped-++ t [] js = refl
grouped-++ t (k ∷ ks) js = grouped-++ (attach t k) ks js

grouped-under :
    (o : OpDef BinaryOp) (l : Location) (left right : OpTree) (ks : List Link)
    → AllOver o.priority ks
    → grouped (binary o l left right) ks ≡ binary o l left (grouped right ks)
unfolding grouped attach AllOver
grouped-under o l left right [] h = refl
grouped-under o l left right (k ∷ ks) (h, hs) =
    rw (lt→ltb o.priority k.op.priority h) (grouped-under o l left (attach right k) ks hs)

-- An ordered tree is the grouping of its links.
grouped-links : (t : OpTree) → IsOrdered t → grouped (operand (first t)) (links t) ≡ t
unfolding IsOrdered grouped
grouped-links (operand a) o = refl
grouped-links (binary op l left right) (pos, al, ar, ol, or) =
    let k : Link = record { op = op; location = l; right = first right } in
    grouped-++ (operand (first left)) (links left) (k ∷ links right)
    ∙ (ap (λ v. grouped (attach v k) (links right)) (grouped-links left ol)
        ∙ (ap (λ v. grouped v (links right)) (attach-above left k al)
            ∙ (grouped-under op l left (operand (first right)) (links right)
                  (AllOver-links op.priority right or ar)
                ∙ ap (binary op l left) (grouped-links right or))))

Chain-++ :
    (primary : Parser Ast) (s m s' : TokenStream) (ks js : List Link)
    → Chain primary s ks m
    → Chain primary m js s'
    → Chain primary s (ks ++ js) s'
unfolding Chain
Chain-++ primary s m s' [] js h g = subst (λ v. Chain primary v js s') (sym h) g
Chain-++ primary s m s' (k ∷ ks) js (u, v, op, pos, place, moved, read, h) g =
    (u, v, op, pos, place, moved, read, Chain-++ primary v m s' ks js h g)

-- The first operand, and the links behind it.
Reads-Chain :
    (primary : Parser Ast) (s s' : TokenStream) (t : OpTree)
    → IsOrdered t
    → Reads primary s t s'
    → (m : TokenStream) × (primary s ≡ ok (first t, m)) × Chain primary m (links t) s'
unfolding Reads Chain IsOrdered
Reads-Chain primary s s' (operand a) o h = (s', h, refl)
Reads-Chain primary s s' (binary op l left right) (pos, al, ar, ol, or)
      (m, n, rl, is_op, place, moved, rr) =
    let (u, read, before) = Reads-Chain primary s m left ol rl in
    let (v, next, behind) = Reads-Chain primary n s' right or rr in
    (
      u,
      read,
      Chain-++ primary u m s' (links left) _ before (n, v, is_op, pos, place, moved, next, behind),
    )

-- parseExpr, where it gives a tree, has read an operand and links of an operator and an operand, for
-- as long as an operator follows, and the tree is the one that results when each link in turn is put
-- into the tree of those in front of it: above what stands at its right end and binds at least as
-- tightly, and below what binds looser.
pub parse_expr-grouped :
    (strtod : Bytes → Number) (s s' : TokenStream) (e : Ast)
    → parse_expr strtod s ≡ ok (e, s')
    → let primary = parse_primary strtod (expr_on (length s.tokens) strtod) in
      (a : Ast) × (m : TokenStream) × (ks : List Link) × (primary s ≡ ok (a, m))
      × Chain primary m ks s'
      × ((parse_binary_op s').priority ≡ 0)
      × (e ≡ lowered (grouped (operand a) ks))
parse_expr-grouped strtod s s' e h =
    let primary = parse_primary strtod (expr_on (length s.tokens) strtod) in
    let (t, value, o, stop, r) = parse_expr-IsOrdered strtod s s' e h in
    let (m, read, chain) = Reads-Chain primary s s' t o r in
    (first t, m, links t, read, chain, stop, sym value ∙ ap lowered (sym (grouped-links t o)))
