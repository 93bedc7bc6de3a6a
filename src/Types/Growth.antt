-- ===== src/Types/Growth.antt =====
-- compiler/type.cpp: what typeUnify leaves as it was, and what it does to the constraints.
use aike.Base.{
  ℕ, ◌≡◌, refl, Bool, true, false, [], ◌∷◌, List, Option, none, some, arith, ◌==◌, ◌&&◌,
  if◌then◌else◌,
}
use aike.Types.Syntax.{
  Ty, Tys, unknown, void, bool, integer, float, string, tuple, array, pointer, function, inst,
  generic, nil, cons, size,
}
use aike.Types.Unify.{
  Answer, yes, no, aborts, is_resolved, same_pointer, unify, unify_all, and_then, TypeConstraints,
  find, assign, set_binding, is_node, add_unknowns, add_type, try_add, type_unify,
}
use aike.Types.Traverse.{type_occurs}

-- A relation between the constraints before and after, which each use of the handler keeps.
module _ {C : Type 0} (R : C → C → Type 0) (rel_refl : (c : C) → R c c)
    (rel_trans : (a b c : C) → R a b → R b c → R a c) (f : Ty → Ty → C → Answer × C)
    (step : (l r : Ty) (c : C) → R c (f l r c).1) where
  R-and_then :
      (c : C) (p : Answer × C) (k : C → Answer × C)
      → R c p.1
      → ((d : C) → R d (k d).1)
      → R c (and_then p k).1
  R-and_then c (yes, d) k h t = rel_trans c d (k d).1 h (t d)
  R-and_then c (no, d) k h t = h
  R-and_then c (aborts, d) k h t = h

  R-if :
      (b : Bool) (c : C) (a : Answer) (p : Answer × C) → R c p.1 → R c (if b then p else (a, c)).1
  R-if true c a p h = h
  R-if false c a p h = rel_refl c

  R-enter : (b : Bool) (c : C) (p : Answer × C) → R c p.1 → R c (if b then (yes, c) else p).1
  R-enter true c p h = rel_refl c
  R-enter false c p h = h

  mutual
    unfolding unify

    unify-rel : (l r : Ty) (c : C) → R c (unify (some f) l r c).1
    unify-rel (tuple ls) (tuple rs) c = R-if _ c no _ (unify_all-rel ls rs c)
    unify-rel (array l) (array r) c = unify-rel l r c
    unify-rel (pointer l) (pointer r) c = unify-rel l r c
    unify-rel (function ls l v) (function rs r w) c =
        R-if _ c no _ (R-and_then c _ _ (unify_all-rel ls rs c) (λ d. unify-rel l r d))
    unify-rel (inst n k ls d g) (inst m j rs e g') c =
        R-if (is_resolved d g && is_resolved e g') c aborts _ (
          R-if ((same_pointer d e && same_pointer g g') && (size ls == size rs)) c no _
            (unify_all-rel ls rs c))
    unify-rel (unknown i) (unknown j) c = R-enter (i == j) c _ (step (unknown i) (unknown j) c)
    unify-rel void void c = rel_refl c
    unify-rel bool bool c = rel_refl c
    unify-rel integer integer c = rel_refl c
    unify-rel float float c = rel_refl c
    unify-rel string string c = rel_refl c
    unify-rel (generic i n k) (generic j m l) c = rel_refl c
    unify-rel (unknown i) r c = step (unknown i) r c
    unify-rel l (unknown j) c = step l (unknown j) c
    unify-rel l r c = rel_refl c

    unify_all-rel : (ls rs : Tys) (c : C) → R c (unify_all (some f) ls rs c).1
    unify_all-rel (cons l ls) (cons r rs) c =
        R-and_then c _ _ (unify-rel l r c) (λ d. unify_all-rel ls rs d)
    unify_all-rel nil rs c = rel_refl c
    unify_all-rel (cons l ls) nil c = rel_refl c

-- The look-up after `data[lhs] = rhs`.
pub find-assign :
    (i j : ℕ) (t : Ty) (m : List (ℕ × Ty))
    → find i (assign j t m) ≡ (if j == i then some t else find i m)
find-assign i j t [] = refl
find-assign i j t ((k, s) ∷ m) = ground (arith, find-assign i j t m)

abbrev pub Keeps : TypeConstraints → TypeConstraints → Type 0
Keeps c d = (k : ℕ) (s : Ty) → find k c.bindings ≡ some s → find k d.bindings ≡ some s

pub set_binding-Keeps :
    (i : ℕ) (t : Ty) (c : TypeConstraints) → find i c.bindings ≡ none → Keeps c (set_binding i t c)
unfolding set_binding
set_binding-Keeps i t c e k s h = ground (arith, find-assign k i t c.bindings)

if-Keeps :
    (b : Bool) (c : TypeConstraints) (p q : Answer × TypeConstraints)
    → Keeps c p.1
    → Keeps c q.1
    → Keeps c (if b then p else q).1
if-Keeps true c p q h k = h
if-Keeps false c p q h k = k

-- `li` and `ri` are what the two searches found.
add_unknowns-Keeps :
    (i j : ℕ) (li ri : Option Ty) (c : TypeConstraints)
    → find i c.bindings ≡ li
    → find j c.bindings ≡ ri
    → Keeps c (add_unknowns i j li ri c).1
unfolding add_unknowns
add_unknowns-Keeps i j none none c p q = set_binding-Keeps i (unknown j) c p
add_unknowns-Keeps i j none (some r) c p q =
    if-Keeps (is_node i r) c _ _ (λ k s h. h) (set_binding-Keeps i r c p)
add_unknowns-Keeps i j (some l) none c p q =
    if-Keeps (is_node j l) c _ _ (λ k s h. h) (set_binding-Keeps j l c q)
add_unknowns-Keeps i j (some l) (some r) c p q = λ k s h. h

pub add_type-Keeps :
    (i : ℕ) (t : Ty) (li : Option Ty) (c : TypeConstraints)
    → find i c.bindings ≡ li
    → Keeps c (add_type i t li c).1
unfolding add_type
add_type-Keeps i t (some l) c p = λ k s h. h
add_type-Keeps i t none c p =
    if-Keeps (type_occurs t (unknown i)) c _ _ (λ k s h. h) (set_binding-Keeps i t c p)

try_add-Keeps : (l r : Ty) (c : TypeConstraints) → Keeps c (try_add l r c).1
unfolding try_add
try_add-Keeps (unknown i) (unknown j) c = add_unknowns-Keeps i j _ _ c refl refl
try_add-Keeps (unknown i) t c = add_type-Keeps i t _ c refl
try_add-Keeps t (unknown i) c = add_type-Keeps i t _ c refl
try_add-Keeps l r c = λ k s h. h

pub unify-Keeps : (l r : Ty) (c : TypeConstraints) → Keeps c (unify (some try_add) l r c).1
unify-Keeps =
    unify-rel Keeps (λ c k s h. h) (λ a b c p q k s h. q k s (p k s h)) try_add try_add-Keeps

pub unify_all-Keeps :
    (ls rs : Tys) (c : TypeConstraints) → Keeps c (unify_all (some try_add) ls rs c).1
unify_all-Keeps =
    unify_all-rel Keeps (λ c k s h. h) (λ a b c p q k s h. q k s (p k s h)) try_add try_add-Keeps

-- No binding is ever lost or changed: what was bound before typeUnify is bound to the same type
-- after it, whether it succeeds or fails.
pub type_unify-keeps :
    (l r : Ty) (c : TypeConstraints) (i : ℕ) (t : Ty)
    → find i c.bindings ≡ some t
    → find i (type_unify l r c).1.bindings ≡ some t
unfolding type_unify
type_unify-keeps = unify-Keeps
