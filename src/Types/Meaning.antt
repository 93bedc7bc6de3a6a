-- ===== src/Types/Meaning.antt =====
-- compiler/type.cpp: what TypeConstraints::rewrite keeps.
use aike.Base.{
  ℕ, zero, suc, ◌≤◌, ◌≡◌, refl, ap, ap₂, sym, ◌∙◌, [], Option, none, some, arith, inl, inr,
  Option-cases,
}
use aike.Types.Syntax.{Ty, Tys, unknown, tuple, array, pointer, function, inst, nil, cons}
use aike.Types.Unify.{TypeConstraints, find}
use aike.Types.Content.{content, content_all, nowhere}
use aike.Types.Solutions.{Solves}
use aike.Types.Rewrite.{look_up, rewrite_all, rewrite_inside, rewrite_type, rewrite, ◌>>=◌}

>>=-eq-some :
    {A B : Type 0} (m : Option A) (f : A → Option B) {b : B}
    → (m >>= f) ≡ some b
    → (a : A) × (m ≡ some a) × (f a ≡ some b)
>>=-eq-some none f h = cc
>>=-eq-some (some a) f h = (a, refl, h)

some_fst :
    {A B : Type 0} {a b : A} {x y : B}
    → ◌≡◌ {A = Option (A × B)} (some (a, x)) (some (b, y))
    → b ≡ a
some_fst h = cc

some_snd :
    {A B : Type 0} {a b : A} {x y : B}
    → ◌≡◌ {A = Option (A × B)} (some (a, x)) (some (b, y))
    → y ≡ x
some_snd h = cc

module _ (g : Ty → Option (Ty × ℕ)) (v : ℕ → Ty) where
  abbrev Preserves : Type 0
  Preserves = (t s : Ty) (n : ℕ) → g t ≡ some (s, n) → content v s ≡ content v t

  rewrite_all-content :
      Preserves
      → (ts ss : Tys) (n : ℕ) → rewrite_all g ts ≡ some (ss, n)
      → content_all v ss ≡ content_all v ts
  unfolding rewrite_all content
  rewrite_all-content p nil ss n h = cc
  rewrite_all-content p (cons t ts) ss n h =
      let a = >>=-eq-some (g t) _ h in
      let b = >>=-eq-some (rewrite_all g ts) _ a.2 in
      ap (content_all v) (some_fst b.2)
      ∙ ap₂ cons (p t a.0.0 a.0.1 a.1) (rewrite_all-content p ts b.0.0 b.0.1 b.1)

  rewrite_inside-content :
      Preserves → (t s : Ty) (n : ℕ) → rewrite_inside g t ≡ some (s, n) → content v s ≡ content v t
  unfolding rewrite_inside content
  rewrite_inside-content p (tuple ts) s n h =
      let a = >>=-eq-some (rewrite_all g ts) _ h in
      ap (content v) (some_fst a.2) ∙ ap tuple (rewrite_all-content p ts a.0.0 a.0.1 a.1)
  rewrite_inside-content p (array t) s n h =
      let a = >>=-eq-some (g t) _ h in
      ap (content v) (some_fst a.2) ∙ ap array (p t a.0.0 a.0.1 a.1)
  rewrite_inside-content p (pointer t) s n h =
      let a = >>=-eq-some (g t) _ h in
      ap (content v) (some_fst a.2) ∙ ap pointer (p t a.0.0 a.0.1 a.1)
  rewrite_inside-content p (function ts t f) s n h =
      let a = >>=-eq-some (rewrite_all g ts) _ h in
      let b = >>=-eq-some (g t) _ a.2 in
      ap (content v) (some_fst b.2)
      ∙ ap₂ (λ x y. function x y f) (rewrite_all-content p ts a.0.0 a.0.1 a.1) (p t b.0.0 b.0.1 b.1)
  rewrite_inside-content p (inst m l ts d e) s n h =
      let a = >>=-eq-some (rewrite_all g ts) _ h in
      ap (content v) (some_fst a.2)
      ∙ ap (λ x. inst [] nowhere x d e) (rewrite_all-content p ts a.0.0 a.0.1 a.1)
  rewrite_inside-content p t s n h = ap (content v) (some_fst h)

look_up-content :
    (v : ℕ → Ty) (c : TypeConstraints)
    → Solves v c
    → (t : Ty) → content v (look_up t c.bindings).0 ≡ content v t
unfolding content
look_up-content v c s (unknown i) = elim (Option-cases (find i c.bindings)) [
  | inl e ↦ rw e
  | inr (u, e) ↦ rw e (sym (s.agrees i u e))
]
look_up-content v c s t = refl

rewrite_type-content :
    (v : ℕ → Ty) (c : TypeConstraints)
    → Solves v c
    → (fuel : ℕ) → Preserves (rewrite_type fuel c.bindings) v
unfolding rewrite_type
rewrite_type-content v c s zero = λ t u n h. cc
rewrite_type-content v c s (suc fuel) = λ t u n h.
    let a =
      >>=-eq-some (rewrite_inside (rewrite_type fuel c.bindings) (look_up t c.bindings).0) _ h in
    let e =
      rewrite_inside-content _ v (rewrite_type-content v c s fuel) (look_up t c.bindings).0 a.0.0
        a.0.1 a.1 in
    ap (content v) (some_fst a.2) ∙ e ∙ look_up-content v c s t

-- When `rewrite` returns, the type that it returns is equal to the given one under every valuation
-- that solves the constraints, the bindings are unchanged, and `rewrites` has not gone down.
pub rewrite-content :
    (v : ℕ → Ty) (c d : TypeConstraints) (fuel : ℕ) (t s : Ty)
    → Solves v c
    → rewrite fuel t c ≡ some (s, d)
    → (content v s ≡ content v t) × (d.bindings ≡ c.bindings) × (c.rewrites ≤ d.rewrites)
unfolding rewrite
rewrite-content v c d fuel t s sol h =
    let a = >>=-eq-some (rewrite_type fuel c.bindings t) _ h in
    (
      ap (content v) (some_fst a.2) ∙ rewrite_type-content v c sol fuel t a.0.0 a.0.1 a.1,
      ap (λ x. x.bindings) (some_snd a.2),
      rw (ap (λ x. x.rewrites) (some_snd a.2)) (omega arith),
    )
