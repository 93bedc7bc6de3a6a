-- ===== src/Mangle/Clashes.antt =====
-- compiler/mangle.cpp: which types have a mangled name, and which share one.
use aike.Base.{
  ℕ, suc, ◌≡◌, refl, ap, ◌∙◌, true, &&→both, [], ◌++◌, Option, none, some, Bytes, append_assoc,
}
use aike.Types.Syntax.{
  Ty, Tys, unknown, void, bool, integer, float, string, tuple, array, pointer, function, inst,
  generic, nil, cons, Location,
}
use aike.Types.Traverse.{type_known, all_known}
use aike.Mangle.Text.{codes}
use aike.Mangle.Symbols.{◌>>=◌, mangle_name, mangle_with, mangle_all, mangle}

-- No Generic node, and every generic that an Instance refers to has a name by `resolve`.
unfoldable mutual
  pub Resolves : (ℕ → Option Bytes) → Ty → Type 0
  Resolves r (tuple ts) = ResolvesAll r ts
  Resolves r (array t) = Resolves r t
  Resolves r (pointer t) = Resolves r t
  Resolves r (function ts t _) = ResolvesAll r ts × Resolves r t
  Resolves r (inst _ _ ts _ none) = ResolvesAll r ts
  Resolves r (inst _ _ ts _ (some g)) = (s : Bytes) × (r g ≡ some s)
  Resolves r (generic _ _ _) = ⊥
  Resolves r _ = Unit {0}

  pub ResolvesAll : (ℕ → Option Bytes) → Tys → Type 0
  ResolvesAll r nil = Unit {0}
  ResolvesAll r (cons t ts) = Resolves r t × ResolvesAll r ts

>>=-some :
    {A B : Type 0} (m : Option A) (f : A → Option B)
    → ((a : A) × (m ≡ some a))
    → ((a : A) → (b : B) × (f a ≡ some b))
    → (b : B) × ((m >>= f) ≡ some b)
>>=-some m f (a, e) k = let (b, h) = k a in (b, ap (λ o. o >>= f) e ∙ h)

mutual
  unfolding Resolves mangle_with type_known

  mangle_with-some :
      (r : ℕ → Option Bytes) (t : Ty)
      → type_known t ≡ true
      → Resolves r t
      → (s : Bytes) × (mangle_with r t ≡ some s)
  mangle_with-some r (unknown i) k h = cc
  mangle_with-some r void k h = (_, refl)
  mangle_with-some r bool k h = (_, refl)
  mangle_with-some r integer k h = (_, refl)
  mangle_with-some r float k h = (_, refl)
  mangle_with-some r string k h = (_, refl)
  mangle_with-some r (tuple ts) k h =
      >>=-some (mangle_all r ts) _ (mangle_all-some r ts k h) (λ s. (_, refl))
  mangle_with-some r (array t) k h =
      >>=-some (mangle_with r t) _ (mangle_with-some r t k h) (λ s. (_, refl))
  mangle_with-some r (pointer t) k h =
      >>=-some (mangle_with r t) _ (mangle_with-some r t k h) (λ s. (_, refl))
  mangle_with-some r (function ts t v) k h =
      let b = &&→both (all_known ts) (type_known t) k in
      >>=-some (mangle_with r t) _ (mangle_with-some r t b.1 h.1)
        (λ s. >>=-some (mangle_all r ts) _ (mangle_all-some r ts b.0 h.0) (λ s'. (_, refl)))
  mangle_with-some r (inst n l ts d none) k h =
      >>=-some (mangle_all r ts) _ (mangle_all-some r ts k h) (λ s. (_, refl))
  mangle_with-some r (inst n l ts d (some g)) k h = h
  mangle_with-some r (generic _ _ _) k h = absurd h

  mangle_all-some :
      (r : ℕ → Option Bytes) (ts : Tys)
      → all_known ts ≡ true
      → ResolvesAll r ts
      → (s : Bytes) × (mangle_all r ts ≡ some s)
  mangle_all-some r nil k h = ([], refl)
  mangle_all-some r (cons t ts) k h =
      let b = &&→both (type_known t) (all_known ts) k in
      >>=-some (mangle_with r t) _ (mangle_with-some r t b.0 h.0)
        (λ s. >>=-some (mangle_all r ts) _ (mangle_all-some r ts b.1 h.1) (λ s'. (_, refl)))

-- Every known type whose generics resolve has a mangled name: no internal compiler error is met.
pub mangle_total :
    (fuel : ℕ) (instantiate : ℕ → Ty) (t : Ty)
    → type_known t ≡ true
    → Resolves (λ g. mangle fuel instantiate (instantiate g)) t
    → (s : Bytes) × (mangle (suc fuel) instantiate t ≡ some s)
unfolding mangle
mangle_total fuel instantiate t = mangle_with-some (λ g. mangle fuel instantiate (instantiate g)) t

-- What the two kinds of type make of the mangled names of their arguments.
clash :
    (o : Option Bytes)
    → (o >>= λ args. some (
        codes "N"
        ++ (mangle_name (codes "tuple") ++ ((codes "I" ++ (args ++ codes "E")) ++ codes "E"))))
      ≡ (o >>= λ fields. some (codes "N5tupleI" ++ (fields ++ codes "EE")))
unfolding mangle_name
clash none = refl
clash (some s) =
    ap (λ text. some (codes "N5tupleI" ++ text)) (append_assoc s (codes "E") (codes "E"))

-- Two pairs of different types share their mangled names: a tuple and a struct named `tuple` with the
-- same type arguments, and the built-in string and a struct named `string` with none.
pub mangle_clash :
    (fuel : ℕ) (instantiate : ℕ → Ty) (l : Location) (d : Option ℕ) (t : Ty) (ts : Tys)
    → (mangle (suc fuel) instantiate (inst (codes "tuple") l (cons t ts) d none)
        ≡ mangle (suc fuel) instantiate (tuple (cons t ts)))
      × (mangle (suc fuel) instantiate (inst (codes "string") l nil d none)
          ≡ mangle (suc fuel) instantiate string)
unfolding mangle mangle_with
mangle_clash fuel instantiate l d t ts =
    (clash (mangle_all (λ g. mangle fuel instantiate (instantiate g)) (cons t ts)), refl)
