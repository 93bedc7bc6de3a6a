-- ===== src/Base/Lists.antt =====
-- Lists over the native numbers.
use Prim.Native.Nat.{ℕ, zero, suc, ◌+◌}
use mathlib.Core.Path.{◌≡◌}
use mathlib.Core.Option.{Option, none, some}
use mathlib.Core.Logic.{◌⊎◌, inl, inr}
use mathlib.Core.List.{List, [], ◌∷◌, ◌++◌}
use native.Mathlib.Omega.{arith}

module _ {ℓ} {A : Type ℓ} where
  abbrev pub length : List A → ℕ
  length [] = 0
  length (_ ∷ xs) = suc (length xs)

  abbrev pub get_elem? : List A → ℕ → Option A
  get_elem? [] i = none
  get_elem? (x ∷ xs) zero = some x
  get_elem? (x ∷ xs) (suc i) = get_elem? xs i

  pub length-append : (xs ys : List A) → length (xs ++ ys) ≡ length xs + length ys
  length-append [] ys = omega arith
  length-append (_ ∷ xs) ys = omega (arith, length-append xs ys)

-- Membership with its place kept.
module _ {A : Type 0} where
  abbrev pub Elem : A → List A → Type 0
  Elem a [] = ⊥
  Elem a (x ∷ xs) = (x ≡ a) ⊎ Elem a xs

  pub Elem-append : (a : A) (xs ys : List A) → Elem a xs ⊎ Elem a ys → Elem a (xs ++ ys)
  Elem-append a [] ys (inl h) = absurd h
  Elem-append a [] ys (inr h) = h
  Elem-append a (x ∷ xs) ys (inl (inl h)) = inl h
  Elem-append a (x ∷ xs) ys (inl (inr h)) = inr (Elem-append a xs ys (inl h))
  Elem-append a (x ∷ xs) ys (inr h) = inr (Elem-append a xs ys (inr h))

  pub Elem-of_append : (a : A) (xs ys : List A) → Elem a (xs ++ ys) → Elem a xs ⊎ Elem a ys
  Elem-of_append a [] ys h = inr h
  Elem-of_append a (x ∷ xs) ys (inl h) = inl (inl h)
  Elem-of_append a (x ∷ xs) ys (inr h) = elim (Elem-of_append a xs ys h) [
    | inl k ↦ inl (inr k)
    | inr k ↦ inr k
  ]
