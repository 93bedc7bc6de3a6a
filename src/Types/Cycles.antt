-- ===== src/Types/Cycles.antt =====
-- compiler/type.cpp: where tryAdd, given two Unknown nodes, goes wrong.
use aike.Base.{
  ℕ, zero, suc, ◌≡◌, ◌≢◌, refl, true, false, List, Option, none, some, arith, ◌==◌, ==→eq, ne→==,
  ==_refl, ||→one, if◌then◌else◌, Option-cases, inl, inr,
}
use aike.Types.Syntax.{
  Ty, Tys, unknown, tuple, array, pointer, function, inst, nil, cons, is_unknown,
}
use aike.Types.Unify.{
  Answer, yes, no, unify, TypeConstraints, find, set_binding, is_node, add_unknowns, try_add,
  type_unify,
}
use aike.Types.Traverse.{type_occurs, occurs_any}
use aike.Types.Rewrite.{rewrite_all, rewrite_inside, rewrite_type, rewrite}
use aike.Types.Growth.{find-assign}

module _ (i : ℕ) (g : Ty → Option (Ty × ℕ)) where
  -- `g` does not return on a type that holds the Unknown node at `i`.
  abbrev Hangs : Type 0
  Hangs = (t : Ty) → type_occurs t (unknown i) ≡ true → g t ≡ none

  rewrite_all-hangs :
      Hangs → (ts : Tys) → occurs_any ts (unknown i) ≡ true → rewrite_all g ts ≡ none
  unfolding rewrite_all type_occurs
  rewrite_all-hangs h nil o = cc
  rewrite_all-hangs h (cons t ts) o =
      elim (||→one (type_occurs t (unknown i)) (occurs_any ts (unknown i)) o) [
        | inl p ↦ rw (h t p)
        | inr p ↦ ground (arith, rewrite_all-hangs h ts p)
      ]

  rewrite_inside-hangs :
      Hangs
      → (t : Ty) → is_unknown t ≡ false
      → type_occurs t (unknown i) ≡ true
      → rewrite_inside g t ≡ none
  unfolding rewrite_inside type_occurs
  rewrite_inside-hangs h (tuple ts) u o = rw (rewrite_all-hangs h ts o)
  rewrite_inside-hangs h (array t) u o = rw (h t o)
  rewrite_inside-hangs h (pointer t) u o = rw (h t o)
  rewrite_inside-hangs h (function ts t v) u o =
      elim (||→one (occurs_any ts (unknown i)) (type_occurs t (unknown i)) o) [
        | inl p ↦ rw (rewrite_all-hangs h ts p)
        | inr p ↦ elim (Option-cases (rewrite_all g ts)) [
          | inl e ↦ rw e
          | inr (r, e) ↦ rw (e, h t p)
        ]
      ]
  rewrite_inside-hangs h (inst n l ts d e) u o = rw (rewrite_all-hangs h ts o)
  rewrite_inside-hangs h t u o = cc

-- A binding of an Unknown node to a type that holds it.
rewrite_type-hangs :
    (i : ℕ) (t : Ty) (m : List (ℕ × Ty))
    → find i m ≡ some t
    → is_unknown t ≡ false
    → type_occurs t (unknown i) ≡ true
    → (fuel : ℕ) (s : Ty) → type_occurs s (unknown i) ≡ true
    → rewrite_type fuel m s ≡ none
unfolding rewrite_type type_occurs
rewrite_type-hangs i t m e u o zero s p = refl
rewrite_type-hangs i t m e u o (suc fuel) (unknown k) p =
    rw (==→eq k i p, e, rewrite_inside-hangs i _ (rewrite_type-hangs i t m e u o fuel) t u o)
rewrite_type-hangs i t m e u o (suc fuel) s p =
    rw (rewrite_inside-hangs i _ (rewrite_type-hangs i t m e u o fuel) s refl p)

-- The first branch of tryAdd: both nodes are Unknown, and only the one on the right is bound.
add-bound :
    (i j : ℕ) (t : Ty) (c : TypeConstraints)
    → (i == j) ≡ false
    → is_unknown t ≡ false
    → find i c.bindings ≡ none
    → find j c.bindings ≡ some t
    → type_unify (unknown i) (unknown j) c ≡ (yes, set_binding i t c)
unfolding type_unify unify try_add add_unknowns
add-bound i j t c d u p q = rw (d, p, q) (not_node t u)
  where
    not_node :
        (t : Ty)
        → is_unknown t ≡ false
        → ◌≡◌ {A = Answer × TypeConstraints}
            (if is_node i t then (no, c) else (yes, set_binding i t c))
            (yes, set_binding i t c)
    not_node (unknown k) u = cc
    not_node t u = refl

-- tryAdd makes no occurs check between two Unknown nodes: where the right one is bound to a type that
-- holds the left one, as after `b = [a]` and `a = b`, typeUnify succeeds, and `rewrite` of the left
-- node then does not return, whatever the fuel.
pub unify_cycle-rewrite :
    (i j : ℕ) (t : Ty) (c : TypeConstraints)
    → i ≢ j
    → find i c.bindings ≡ none
    → find j c.bindings ≡ some t
    → is_unknown t ≡ false
    → type_occurs t (unknown i) ≡ true
    → ((type_unify (unknown i) (unknown j) c).0 ≡ yes)
      × ((fuel : ℕ) → rewrite fuel (unknown i) (type_unify (unknown i) (unknown j) c).1 ≡ none)
unfolding rewrite set_binding
unify_cycle-rewrite i j t c n p q u o =
    rw (add-bound i j t c (ne→== i j n) u p q) (refl, λ fuel. rw (hangs fuel))
  where
    hangs : (fuel : ℕ) → rewrite_type fuel (set_binding i t c).bindings (unknown i) ≡ none
    hangs fuel =
        rewrite_type-hangs i t (set_binding i t c).bindings
          (rw (find-assign i i t c.bindings, ==_refl i)) u o fuel (unknown i)
          (unfold type_occurs in ==_refl i)

first_add :
    (i j : ℕ) (c : TypeConstraints)
    → i ≢ j
    → find i c.bindings ≡ none
    → find j c.bindings ≡ none
    → type_unify (unknown i) (unknown j) c ≡ (yes, set_binding i (unknown j) c)
unfolding type_unify unify try_add add_unknowns
first_add i j c n p q = rw (ne→== i j n, p, q)

second_add :
    (i j : ℕ) (c : TypeConstraints)
    → i ≢ j
    → find i c.bindings ≡ some (unknown j)
    → type_unify (unknown i) (unknown j) c ≡ (no, c)
unfolding type_unify unify try_add add_unknowns
second_add i j c n p = elim (Option-cases (find j c.bindings)) [
  | inl e ↦ rw (ne→== i j n, p, e, ==_refl j)
  | inr (t, e) ↦ rw (ne→== i j n, p, e)
]

-- tryAdd answers false for two Unknown nodes that are bound to one another already: where the same
-- equation between two unbound nodes is asked for twice, the first call succeeds and the second one
-- fails, although the constraints are those of the first.
pub type_unify-again :
    (i j : ℕ) (c : TypeConstraints)
    → i ≢ j
    → find i c.bindings ≡ none
    → find j c.bindings ≡ none
    → ((type_unify (unknown i) (unknown j) c).0 ≡ yes)
      × (type_unify (unknown i) (unknown j) (type_unify (unknown i) (unknown j) c).1
          ≡ (no, (type_unify (unknown i) (unknown j) c).1))
unfolding set_binding
type_unify-again i j c n p q = rw (first_add i j c n p q) (
  refl,
  second_add i j (set_binding i (unknown j) c) n
      (rw (find-assign i i (unknown j) c.bindings, ==_refl i)),
)
