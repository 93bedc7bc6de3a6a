-- ===== src/Types/Rewrite.antt =====
-- compiler/type.cpp: TypeConstraints::rewrite. A binding is followed once and its type is then
-- rewritten inside, so the recursion is on fuel; `none` is the recursion that does not return.
use aike.Base.{ℕ, zero, suc, ◌+◌, List, Option, none, some}
use aike.Types.Syntax.{Ty, Tys, unknown, tuple, array, pointer, function, inst, nil, cons}
use aike.Types.Unify.{TypeConstraints, find}

infixl 1 ◌>>=◌
abbrev pub ◌>>=◌ {ℓ κ} : {A : Type ℓ} {B : Type κ} → Option A → (A → Option B) → Option B
none >>= f = none
some a >>= f = f a

abbrev pub or_same : Ty → Option Ty → Ty × ℕ
or_same t none = (t, 0)
or_same t (some s) = (s, 1)

-- The look-up at the head of `rewrite`, with the increment of `rewrites`.
abbrev pub look_up : Ty → List (ℕ × Ty) → Ty × ℕ
look_up (unknown i) m = or_same (unknown i) (find i m)
look_up t m = (t, 0)

-- `rw` is the recursive call; a list is rewritten from left to right.
unfoldable pub rewrite_all : (Ty → Option (Ty × ℕ)) → Tys → Option (Tys × ℕ)
rewrite_all rewrite_one nil = some (nil, 0)
rewrite_all rewrite_one (cons t ts) = do
  (t', n) ← rewrite_one t
  (ts', k) ← rewrite_all rewrite_one ts
  some (cons t' ts', n + k)

unfoldable pub rewrite_inside : (Ty → Option (Ty × ℕ)) → Ty → Option (Ty × ℕ)
unfolding rewrite_all
rewrite_inside rewrite_one (tuple ts) = do
  (ts', n) ← rewrite_all rewrite_one ts
  some (tuple ts', n)
rewrite_inside rewrite_one (array t) = do (t', n) ← rewrite_one t; some (array t', n)
rewrite_inside rewrite_one (pointer t) = do (t', n) ← rewrite_one t; some (pointer t', n)
rewrite_inside rewrite_one (function args ret v) = do
  (args', n) ← rewrite_all rewrite_one args
  (ret', k) ← rewrite_one ret
  some (function args' ret' v, n + k)
rewrite_inside rewrite_one (inst m l args d g) = do
  (args', n) ← rewrite_all rewrite_one args
  some (inst m l args' d g, n)
rewrite_inside rewrite_one t = some (t, 0)

-- The rewritten type, and how often `rewrites` was incremented.
unfoldable pub rewrite_type : ℕ → List (ℕ × Ty) → Ty → Option (Ty × ℕ)
unfolding rewrite_inside
rewrite_type zero m t = none
rewrite_type (suc fuel) m t = do
  let (t', hits) = look_up t m
  (s, n) ← rewrite_inside (rewrite_type fuel m) t'
  some (s, hits + n)

-- The method: the type, and the constraints with the count of rewrites.
unfoldable pub rewrite : ℕ → Ty → TypeConstraints → Option (Ty × TypeConstraints)
unfolding rewrite_type
rewrite fuel t c = do
  (s, n) ← rewrite_type fuel c.bindings t
  some (s, record c { rewrites = c.rewrites + n })
