-- ===== src/Types/Solutions.antt =====
-- compiler/type.cpp: typeUnify against its meaning, the valuations that solve the constraints.
use aike.Base.{
  ℕ, ◌≡◌, refl, sym, ◌∙◌, Bool, true, false, Option, none, some, ◌==◌, ◌&&◌, ==→eq, if◌then◌else◌,
  Bool-cases, inl, inr,
}
use aike.Types.Syntax.{
  Ty, Tys, unknown, void, bool, integer, float, string, tuple, array, pointer, function, inst,
  generic, nil, cons, size,
}
use aike.Types.Unify.{
  Answer, yes, no, aborts, is_resolved, same_pointer, unify, unify_all, and_then, TypeConstraints,
  find, assign, set_binding, is_node, add_unknowns, add_type, try_add, type_unify,
}
use aike.Types.Content.{content, content_all}
use aike.Types.Traverse.{type_occurs}
use aike.Types.Growth.{find-assign}

-- `v` gives each bound Unknown node the content of the type that it is bound to.
pub record Solves (v : ℕ → Ty) (c : TypeConstraints) : Type 0 where
  pub agrees : (i : ℕ) (t : Ty) → find i c.bindings ≡ some t → v i ≡ content v t

module _ (v : ℕ → Ty) where
  set_binding-Solves :
      (i : ℕ) (t : Ty) (c : TypeConstraints)
      → v i ≡ content v t
      → Solves v c
      → Solves v (set_binding i t c)
  unfolding set_binding
  set_binding-Solves i t c e s = record { agrees = at }
    where
      at : (k : ℕ) (u : Ty) → find k (assign i t c.bindings) ≡ some u → v k ≡ content v u
      at k u h = elim (Bool-cases (i == k)) [
        | inl same ↦
            let found : some t ≡ some u = sym (rw same at (find-assign k i t c.bindings)) ∙ h in
            cc (==→eq i k same)
        | inr other ↦ s.agrees k u (sym (rw other at (find-assign k i t c.bindings)) ∙ h)
      ]

  if-Solves :
      (b : Bool) (p q : Answer × TypeConstraints)
      → Solves v p.1
      → Solves v q.1
      → Solves v (if b then p else q).1
  if-Solves true p q h k = h
  if-Solves false p q h k = k

  add_unknowns-Solves :
      (i j : ℕ) (li ri : Option Ty) (c : TypeConstraints)
      → find i c.bindings ≡ li
      → find j c.bindings ≡ ri
      → v i ≡ v j
      → Solves v c
      → Solves v (add_unknowns i j li ri c).1
  unfolding add_unknowns content
  add_unknowns-Solves i j none none c p q e s = set_binding-Solves i (unknown j) c e s
  add_unknowns-Solves i j none (some r) c p q e s =
      if-Solves (is_node i r) _ _ s (set_binding-Solves i r c (e ∙ s.agrees j r q) s)
  add_unknowns-Solves i j (some l) none c p q e s =
      if-Solves (is_node j l) _ _ s (set_binding-Solves j l c (sym e ∙ s.agrees i l p) s)
  add_unknowns-Solves i j (some l) (some r) c p q e s = s

  add_type-Solves :
      (i : ℕ) (t : Ty) (li : Option Ty) (c : TypeConstraints)
      → v i ≡ content v t
      → Solves v c
      → Solves v (add_type i t li c).1
  unfolding add_type
  add_type-Solves i t (some l) c e s = s
  add_type-Solves i t none c e s =
      if-Solves (type_occurs t (unknown i)) _ _ s (set_binding-Solves i t c e s)

  try_add-Solves :
      (l r : Ty) (c : TypeConstraints)
      → content v l ≡ content v r
      → Solves v c
      → Solves v (try_add l r c).1
  unfolding try_add content
  try_add-Solves (unknown i) (unknown j) c e s = add_unknowns-Solves i j _ _ c refl refl e s
  try_add-Solves (unknown i) t c e s = add_type-Solves i t _ c e s
  try_add-Solves t (unknown i) c e s = add_type-Solves i t _ c (sym e) s
  try_add-Solves l r c e s = s

  Solves-and_then :
      (p : Answer × TypeConstraints) (k : TypeConstraints → Answer × TypeConstraints)
      → Solves v p.1
      → ((d : TypeConstraints) → Solves v d → Solves v (k d).1)
      → Solves v (and_then p k).1
  Solves-and_then (yes, d) k h t = t d h
  Solves-and_then (no, d) k h t = h
  Solves-and_then (aborts, d) k h t = h

  mutual
    unfolding unify content

    unify-Solves :
        (l r : Ty) (c : TypeConstraints)
        → content v l ≡ content v r
        → Solves v c
        → Solves v (unify (some try_add) l r c).1
    unify-Solves (tuple ls) (tuple rs) c e s = if-Solves _ _ _ (unify_all-Solves ls rs c (cc) s) s
    unify-Solves (array l) (array r) c e s = unify-Solves l r c (cc) s
    unify-Solves (pointer l) (pointer r) c e s = unify-Solves l r c (cc) s
    unify-Solves (function ls l f) (function rs r g) c e s =
        if-Solves _ _ _
          (Solves-and_then _ _ (unify_all-Solves ls rs c (cc) s) (λ d t. unify-Solves l r d (cc) t))
          s
    unify-Solves (inst n k ls d g) (inst m j rs d' g') c e s =
        if-Solves (is_resolved d g && is_resolved d' g') _ _
          (if-Solves ((same_pointer d d' && same_pointer g g') && (size ls == size rs)) _ _
            (unify_all-Solves ls rs c (cc) s) s)
          s
    unify-Solves (unknown i) (unknown j) c e s =
        if-Solves (i == j) _ _ s (try_add-Solves (unknown i) (unknown j) c e s)
    unify-Solves void void c e s = s
    unify-Solves bool bool c e s = s
    unify-Solves integer integer c e s = s
    unify-Solves float float c e s = s
    unify-Solves string string c e s = s
    unify-Solves (generic i n k) (generic j m l) c e s = s
    unify-Solves (unknown i) r c e s = try_add-Solves (unknown i) r c e s
    unify-Solves l (unknown j) c e s = try_add-Solves l (unknown j) c e s
    unify-Solves l r c e s = s

    unify_all-Solves :
        (ls rs : Tys) (c : TypeConstraints)
        → content_all v ls ≡ content_all v rs
        → Solves v c
        → Solves v (unify_all (some try_add) ls rs c).1
    unify_all-Solves (cons l ls) (cons r rs) c e s =
        Solves-and_then _ _ (unify-Solves l r c (cc) s) (λ d t. unify_all-Solves ls rs d (cc) t)
    unify_all-Solves nil rs c e s = s
    unify_all-Solves (cons l ls) nil c e s = s

-- typeUnify only records consequences: a valuation that solves the constraints and makes the two
-- types equal solves the constraints that typeUnify leaves, whether it succeeds or fails.
pub type_unify-Solves :
    (v : ℕ → Ty) (l r : Ty) (c : TypeConstraints)
    → content v l ≡ content v r
    → Solves v c
    → Solves v (type_unify l r c).1
unfolding type_unify
type_unify-Solves = unify-Solves
