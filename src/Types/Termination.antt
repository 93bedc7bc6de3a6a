-- ===== src/Types/Termination.antt =====
-- compiler/type.cpp: TypeConstraints::rewrite returns where no bound type leads back to its node.
use aike.Base.{
  ℕ, zero, suc, ◌+◌, ◌≤◌, ◌<◌, ◌≡◌, refl, false, List, Option, some, arith, inl, inr, Option-cases,
}
use aike.Types.Syntax.{
  Ty, Tys, unknown, tuple, array, pointer, function, inst, nil, cons, is_unknown,
}
use aike.Types.Unify.{TypeConstraints, find}
use aike.Types.Rewrite.{look_up, rewrite_all, rewrite_inside, rewrite_type, rewrite, ◌>>=◌}

-- Every Unknown node in the type has a rank below `r`.
unfoldable mutual
  pub Below : (ℕ → ℕ) → ℕ → Ty → Type 0
  Below rank r (unknown i) = rank i < r
  Below rank r (tuple ts) = BelowAll rank r ts
  Below rank r (array t) = Below rank r t
  Below rank r (pointer t) = Below rank r t
  Below rank r (function ts t _) = BelowAll rank r ts × Below rank r t
  Below rank r (inst _ _ ts _ _) = BelowAll rank r ts
  Below rank r _ = Unit {0}

  pub BelowAll : (ℕ → ℕ) → ℕ → Tys → Type 0
  BelowAll rank r nil = Unit {0}
  BelowAll rank r (cons t ts) = Below rank r t × BelowAll rank r ts

-- A node that is bound to more than another Unknown node ranks above all that its type holds.
pub record IsRanked (rank : ℕ → ℕ) (m : List (ℕ × Ty)) : Type 0 where
  pub falls : (i : ℕ) (t : Ty) → find i m ≡ some t → is_unknown t ≡ false → Below rank (rank i) t

-- From the fuel `n` on, `g` returns.
abbrev Returns : {A : Type 0} → ℕ → (ℕ → Option A) → Type 0
Returns {A} n g = (fuel : ℕ) → n ≤ fuel → (a : A) × (g fuel ≡ some a)

Returns->>= :
    {A B : Type 0} (n k : ℕ) (g : ℕ → Option A) (h : A → ℕ → Option B)
    → Returns n g
    → ((a : A) → Returns k (h a))
    → Returns (n + k) (λ fuel. g fuel >>= λ a. h a fuel)
Returns->>= n k g h r s fuel le =
    let p = r fuel (omega arith) in let q = s p.0 fuel (omega arith) in (q.0, rw p.1 q.1)

Returns-some : {A : Type 0} (n : ℕ) (a : A) → Returns n (λ _. some a)
Returns-some n a fuel le = (a, refl)

module _ (m : List (ℕ × Ty)) where
  abbrev Ends : Ty → Type 0
  Ends t = (n : ℕ) × Returns n (λ fuel. rewrite_type fuel m t)

  abbrev EndsInside : Ty → Type 0
  EndsInside t = (n : ℕ) × Returns n (λ fuel. rewrite_inside (rewrite_type fuel m) t)

  -- One unit of fuel takes `rewrite` to the inside of a type that it does not look up, or has.
  Ends-step : (t s : Ty) (k : ℕ) → look_up t m ≡ (s, k) → EndsInside s → Ends t
  unfolding rewrite_type
  Ends-step t s k e (n, r) = (suc n, step)
    where
      step : Returns (suc n) (λ fuel. rewrite_type fuel m t)
      step zero le = absurd (omega arith)
      step (suc fuel) le = let p = r fuel (omega arith) in ((p.0.0, k + p.0.1), rw (e, p.1))

  module _ (rank : ℕ → ℕ) (r : ℕ) (nodes : (i : ℕ) → rank i < r → Ends (unknown i)) where
    -- An Unknown node ends by hypothesis, any other type if its inside does.
    Ends-of_inside : (t : Ty) → Below rank r t → EndsInside t → Ends t
    unfolding Below
    Ends-of_inside (unknown i) b e = nodes i b
    Ends-of_inside t b e = Ends-step t t 0 refl e

    mutual
      unfolding Below rewrite_inside rewrite_all

      Ends-inside : (t : Ty) → Below rank r t → EndsInside t
      Ends-inside (tuple ts) b =
          let (n, e) = Ends-parts ts b in (n + 0, Returns->>= n 0 _ _ e (λ a. Returns-some 0 _))
      Ends-inside (array t) b =
          let (n, e) = Ends-of_inside t b (Ends-inside t b) in
          (n + 0, Returns->>= n 0 _ _ e (λ a. Returns-some 0 _))
      Ends-inside (pointer t) b =
          let (n, e) = Ends-of_inside t b (Ends-inside t b) in
          (n + 0, Returns->>= n 0 _ _ e (λ a. Returns-some 0 _))
      Ends-inside (function ts t f) b =
          let (n, e) = Ends-parts ts b.0 in
          let (k, d) = Ends-of_inside t b.1 (Ends-inside t b.1) in
          (
            n + (k + 0),
            Returns->>= n (k + 0) _ _ e (λ a. Returns->>= k 0 _ _ d (λ a'. Returns-some 0 _)),
          )
      Ends-inside (inst x l ts d g) b =
          let (n, e) = Ends-parts ts b in (n + 0, Returns->>= n 0 _ _ e (λ a. Returns-some 0 _))
      Ends-inside t b = (0, Returns-some 0 _)

      Ends-parts :
          (ts : Tys)
          → BelowAll rank r ts
          → (n : ℕ) × Returns n (λ fuel. rewrite_all (rewrite_type fuel m) ts)
      Ends-parts nil b = (0, Returns-some 0 _)
      Ends-parts (cons t ts) b =
          let (n, e) = Ends-of_inside t b.0 (Ends-inside t b.0) in
          let (k, d) = Ends-parts ts b.1 in
          (
            n + (k + 0),
            Returns->>= n (k + 0) _ _ e (λ a. Returns->>= k 0 _ _ d (λ a'. Returns-some 0 _)),
          )

  Ends-bound :
      (rank : ℕ → ℕ) (r : ℕ)
      → ((i : ℕ) → rank i < r → Ends (unknown i))
      → (t : Ty) → (is_unknown t ≡ false → Below rank r t)
      → EndsInside t
  unfolding rewrite_inside
  Ends-bound rank r nodes (unknown k) b = (0, Returns-some 0 _)
  Ends-bound rank r nodes t b = Ends-inside rank r nodes t (b refl)

  -- The rank of a node bounds how often a look-up leads into a composite type.
  Ends-node : (rank : ℕ → ℕ) → IsRanked rank m → (r : ℕ) (i : ℕ) → rank i < r → Ends (unknown i)
  unfolding rewrite_inside
  Ends-node rank q zero i b = absurd (omega arith)
  Ends-node rank q (suc r) i b = elim (Option-cases (find i m)) [
    | inl e ↦ Ends-step (unknown i) (unknown i) 0 (rw e) (0, Returns-some 0 _)
    | inr (t, e) ↦
        Ends-step (unknown i) t 1 (rw e)
          (Ends-bound rank (rank i) (λ k lt. Ends-node rank q r k (omega arith)) t (q.falls i t e))
  ]

-- Where the constraints can be ranked so that no bound type leads back to its own node, `rewrite`
-- returns on every type, for all fuel from some bound on.
pub rewrite_total :
    (rank : ℕ → ℕ) (c : TypeConstraints) (t : Ty) (r : ℕ)
    → IsRanked rank c.bindings
    → Below rank r t
    → (n : ℕ) × ((fuel : ℕ) → n ≤ fuel → (p : Ty × TypeConstraints) × (rewrite fuel t c ≡ some p))
unfolding rewrite
rewrite_total rank c t r q b =
    let nodes = Ends-node c.bindings rank q r in
    let (n, e) =
      Ends-of_inside c.bindings rank r nodes t b (Ends-inside c.bindings rank r nodes t b) in
    (
      n,
      λ fuel le. let p = e fuel le in ((p.0.0, record c { rewrites = c.rewrites + p.0.1 }), rw p.1),
    )
