-- ===== src/Types/Soundness.antt =====
-- compiler/type.cpp: when a success of typeUnify makes the two types equal.
use aike.Base.{
  ℕ, ◌≡◌, refl, sym, ◌∙◌, Bool, true, false, Option, none, some, arith, ◌==◌, ==→eq, ◌&&◌, &&→both,
  if◌then◌else◌, Bool-cases, ◌⊎◌, ◌≢◌, inl, inr,
}
use aike.Types.Syntax.{
  Ty, Tys, unknown, void, bool, integer, float, string, tuple, array, pointer, function, inst,
  generic, nil, cons, size, is_unknown,
}
use aike.Types.Unify.{
  Answer, yes, no, aborts, is_resolved, unify, unify_all, and_then, TypeConstraints, find,
  set_binding, is_node, same_flag, same_pointer, add_unknowns, add_type, try_add, type_unify,
  type_equals,
}
use aike.Types.Content.{content, content_all, same_flag→eq, same_pointer→eq}
use aike.Types.Traverse.{type_occurs, type_known, all_known}
use aike.Types.Growth.{
  find-assign, Keeps, set_binding-Keeps, add_type-Keeps, unify-Keeps, unify_all-Keeps,
}
use aike.Types.Equality.{
  plain, type_equals-content, no-ne-yes, aborts-ne-yes, ==-suc, zero-ne-suc, suc-ne-zero,
}
use aike.Types.Solutions.{Solves}

mutual
  unfolding content type_known

  known-content :
      (v : ℕ → Ty) (l r : Ty)
      → type_known l ≡ true
      → content plain l ≡ content plain r
      → content v l ≡ content v r
  known-content v (unknown i) r k e = cc
  known-content v (tuple ls) (tuple rs) k e = cc (known-content_all v ls rs k (cc))
  known-content v (array l) (array r) k e = cc (known-content v l r k (cc))
  known-content v (pointer l) (pointer r) k e = cc (known-content v l r k (cc))
  known-content v (function ls l f) (function rs r g) k e =
      let both = &&→both (all_known ls) (type_known l) k in
      cc (known-content_all v ls rs both.0 (cc), known-content v l r both.1 (cc))
  known-content v (inst _ _ ls d g) (inst _ _ rs d' g') k e = cc (known-content_all v ls rs k (cc))
  known-content v void void k e = refl
  known-content v bool bool k e = refl
  known-content v integer integer k e = refl
  known-content v float float k e = refl
  known-content v string string k e = refl
  known-content v (generic _ _ _) (generic _ _ _) k e = refl
  known-content v l r k e = cc

  known-content_all :
      (v : ℕ → Ty) (ls rs : Tys)
      → all_known ls ≡ true
      → content_all plain ls ≡ content_all plain rs
      → content_all v ls ≡ content_all v rs
  known-content_all v nil nil k e = refl
  known-content_all v (cons l ls) (cons r rs) k e =
      let both = &&→both (type_known l) (all_known ls) k in
      cc (known-content v l r both.0 (cc), known-content_all v ls rs both.1 (cc))
  known-content_all v nil (cons r rs) k e = cc
  known-content_all v (cons l ls) nil k e = cc

unknown_content : (t : Ty) → is_unknown t ≡ false → unknown 0 ≡ content plain t → ⊥
unfolding content
unknown_content (unknown i) u e = cc
unknown_content t u e = cc

-- Every Unknown node is bound to another one or to a type without Unknown nodes.
pub record IsFlat (c : TypeConstraints) : Type 0 where
  pub flat :
      (i : ℕ) (t : Ty) → find i c.bindings ≡ some t → (type_known t ≡ true) ⊎ (is_unknown t ≡ true)

bound_equal :
    (v : ℕ → Ty) (l t : Ty)
    → (type_known l ≡ true) ⊎ (is_unknown l ≡ true)
    → is_unknown t ≡ false
    → type_equals l t ≡ yes
    → content v l ≡ content v t
bound_equal v l t (inl k) u e = known-content v l t k (type_equals-content l t e)
bound_equal v (unknown j) t (inr _) u e =
    absurd (unknown_content t u (unfold content in type_equals-content (unknown j) t e))
bound_equal v l t (inr n) u e = cc

module _ (v : ℕ → Ty) where
  -- What the constraints after a step say, for the earlier ones.
  Solves-back : (c d : TypeConstraints) → Keeps c d → Solves v d → Solves v c
  Solves-back c d k s = record { agrees = λ i t h. s.agrees i t (k i t h) }

  IsFlat-back : (c d : TypeConstraints) → Keeps c d → IsFlat d → IsFlat c
  IsFlat-back c d k f = record { flat = λ i t h. f.flat i t (k i t h) }

  find-set_binding :
      (i : ℕ) (t : Ty) (c : TypeConstraints) → Solves v (set_binding i t c) → v i ≡ content v t
  unfolding set_binding
  find-set_binding i t c s = s.agrees i t (ground (arith, find-assign i i t c.bindings))

  is_node→eq : (i : ℕ) (t : Ty) → is_node i t ≡ true → content v t ≡ v i
  unfolding content
  is_node→eq i (unknown j) h = cc (==→eq i j h)
  is_node→eq i t h = cc

  add_unknowns_sound :
      (i j : ℕ) (li ri : Option Ty) (c : TypeConstraints)
      → find i c.bindings ≡ li
      → find j c.bindings ≡ ri
      → (add_unknowns i j li ri c).0 ≡ yes
      → Solves v (add_unknowns i j li ri c).1
      → v i ≡ v j
  unfolding add_unknowns content
  add_unknowns_sound i j none none c p q ok s = find-set_binding i (unknown j) c s
  add_unknowns_sound i j none (some r) c p q ok s = elim (Bool-cases (is_node i r)) [
    | inl e ↦ absurd (ground arith)
    | inr e ↦
        let s' : Solves v (set_binding i r c) = rw e at s in
        find-set_binding i r c s' ∙ sym (s'.agrees j r (set_binding-Keeps i r c p j r q))
  ]
  add_unknowns_sound i j (some l) none c p q ok s = elim (Bool-cases (is_node j l)) [
    | inl e ↦ absurd (ground arith)
    | inr e ↦
        let s' : Solves v (set_binding j l c) = rw e at s in
        s'.agrees i l (set_binding-Keeps j l c q i l p) ∙ sym (find-set_binding j l c s')
  ]
  add_unknowns_sound i j (some l) (some r) c p q ok s = cc

  add_type_sound :
      (i : ℕ) (t : Ty) (li : Option Ty) (c : TypeConstraints)
      → find i c.bindings ≡ li
      → is_unknown t ≡ false
      → (add_type i t li c).0 ≡ yes
      → IsFlat c
      → Solves v (add_type i t li c).1
      → v i ≡ content v t
  unfolding add_type
  add_type_sound i t (some l) c p u ok f s = s.agrees i l p ∙ bound_equal v l t (f.flat i l p) u ok
  add_type_sound i t none c p u ok f s = elim (Bool-cases (type_occurs t (unknown i))) [
    | inl e ↦ absurd (ground arith)
    | inr e ↦ let s' : Solves v (set_binding i t c) = rw e at s in find-set_binding i t c s'
  ]

  -- A success whose constraints are flat and solved.
  record IsSolved (p : Answer × TypeConstraints) : Type 0 where
    succeeded : p.0 ≡ yes
    is_flat : IsFlat p.1
    solved : Solves v p.1

  IsSolved-if :
      (b : Bool) (a : Answer) (p : Answer × TypeConstraints) (c : TypeConstraints)
      → (a ≢ yes)
      → IsSolved (if b then p else (a, c))
      → (b ≡ true) × IsSolved p
  IsSolved-if true a p c n s = (refl, s)
  IsSolved-if false a p c n s = absurd (n s.succeeded)

  IsSolved-enter :
      (b : Bool) (p : Answer × TypeConstraints) (c : TypeConstraints)
      → IsSolved (if b then (yes, c) else p)
      → (b ≡ true) ⊎ IsSolved p
  IsSolved-enter true p c s = inl refl
  IsSolved-enter false p c s = inr s

  IsSolved-and_then :
      (p : Answer × TypeConstraints) (k : TypeConstraints → Answer × TypeConstraints)
      → ((d : TypeConstraints) → Keeps d (k d).1)
      → IsSolved (and_then p k)
      → IsSolved p × IsSolved (k p.1)
  IsSolved-and_then (yes, c) k keep s = (
    record {
      succeeded = refl;
      is_flat = IsFlat-back c (k c).1 (keep c) s.is_flat;
      solved = Solves-back c (k c).1 (keep c) s.solved;
    },
    s,
  )
  IsSolved-and_then (no, c) k keep s = cc s.succeeded
  IsSolved-and_then (aborts, c) k keep s = cc s.succeeded

  try_add_sound :
      (i : ℕ) (t : Ty) (c : TypeConstraints)
      → is_unknown t ≡ false
      → IsSolved (add_type i t (find i c.bindings) c)
      → v i ≡ content v t
  try_add_sound i t c u s =
      add_type_sound i t (find i c.bindings) c refl u s.succeeded
        (IsFlat-back c _ (add_type-Keeps i t (find i c.bindings) c refl) s.is_flat) s.solved

  mutual
    unfolding unify content try_add

    unify_sound_rec :
        (l r : Ty) (c : TypeConstraints)
        → IsSolved (unify (some try_add) l r c)
        → content v l ≡ content v r
    unify_sound_rec (tuple ls) (tuple rs) c s =
        let p = IsSolved-if (size ls == size rs) no _ c no-ne-yes s in
        cc (unify_all_sound ls rs c p.0 p.1)
    unify_sound_rec (array l) (array r) c s = cc (unify_sound_rec l r c s)
    unify_sound_rec (pointer l) (pointer r) c s = cc (unify_sound_rec l r c s)
    unify_sound_rec (function ls l f) (function rs r g) c s =
        let p = IsSolved-if (size ls == size rs && same_flag f g) no _ c no-ne-yes s in
        let b = &&→both (size ls == size rs) (same_flag f g) p.0 in
        let q =
          IsSolved-and_then (unify_all (some try_add) ls rs c) _ (λ d. unify-Keeps l r d) p.1 in
        cc (unify_all_sound ls rs c b.0 q.0, unify_sound_rec l r _ q.1, same_flag→eq f g b.1)
    unify_sound_rec (inst n k ls d g) (inst m j rs d' g') c s =
        let r = IsSolved-if (is_resolved d g && is_resolved d' g') aborts _ c aborts-ne-yes s in
        let p =
          IsSolved-if ((same_pointer d d' && same_pointer g g') && (size ls == size rs)) no _ c
            no-ne-yes r.1 in
        let b = &&→both (same_pointer d d' && same_pointer g g') (size ls == size rs) p.0 in
        let q = &&→both (same_pointer d d') (same_pointer g g') b.0 in
        cc (unify_all_sound ls rs c b.1 p.1, same_pointer→eq d d' q.0, same_pointer→eq g g' q.1)
    unify_sound_rec (unknown i) (unknown j) c s = elim (IsSolved-enter (i == j) _ c s) [
      | inl e ↦ cc (==→eq i j e)
      | inr p ↦ add_unknowns_sound i j _ _ c refl refl p.succeeded p.solved
    ]
    unify_sound_rec void void c s = refl
    unify_sound_rec bool bool c s = refl
    unify_sound_rec integer integer c s = refl
    unify_sound_rec float float c s = refl
    unify_sound_rec string string c s = refl
    unify_sound_rec (generic i n k) (generic j m l) c s = refl
    unify_sound_rec (unknown i) r c s = try_add_sound i r c refl s
    unify_sound_rec l (unknown j) c s = sym (try_add_sound j l c refl s)
    unify_sound_rec l r c s = cc s.succeeded

    unify_all_sound :
        (ls rs : Tys) (c : TypeConstraints)
        → (size ls == size rs) ≡ true
        → IsSolved (unify_all (some try_add) ls rs c)
        → content_all v ls ≡ content_all v rs
    unify_all_sound nil nil c e s = refl
    unify_all_sound (cons l ls) (cons r rs) c e s =
        let q = IsSolved-and_then (unify (some try_add) l r c) _ (λ d. unify_all-Keeps ls rs d) s in
        cc (unify_sound_rec l r c q.0, unify_all_sound ls rs _ (==-suc (size ls) (size rs) e) q.1)
    unify_all_sound nil (cons r rs) c e s = absurd (zero-ne-suc (size rs) e)
    unify_all_sound (cons l ls) nil c e s = absurd (suc-ne-zero (size ls) e)

-- When typeUnify succeeds and every Unknown node is bound, if at all, to another Unknown node or to
-- a type with none inside, then each valuation that solves the constraints it leaves makes the two
-- types equal.
pub type_unify_sound :
    (v : ℕ → Ty) (l r : Ty) (c : TypeConstraints)
    → (type_unify l r c).0 ≡ yes
    → IsFlat (type_unify l r c).1
    → Solves v (type_unify l r c).1
    → content v l ≡ content v r
unfolding type_unify
type_unify_sound v l r c ok f s =
    unify_sound_rec v l r c (record { succeeded = ok; is_flat = f; solved = s })
