-- ===== src/Types/Equality.antt =====
-- compiler/type.cpp: what typeUnify and typeEquals decide with no constraints.
use aike.Base.{
  ℕ, suc, ◌≡◌, refl, ap, ◌↔◌, ◌≢◌, Bool, true, false, none, arith, ◌==◌, ◌&&◌, &&→both,
  if◌then◌else◌, Bool-cases, inl, inr,
}
use aike.Types.Syntax.{
  Ty, Tys, unknown, void, bool, integer, float, string, tuple, array, pointer, function, inst,
  generic, nil, cons, size,
}
use aike.Types.Unify.{
  Answer, yes, no, aborts, is_resolved, unify, unify_all, and_then, same_pointer, same_flag,
  type_equals,
}
use aike.Types.Content.{
  content, content_all, size-eq_of_content, same_pointer→eq, same_pointer_refl, same_flag→eq,
  same_flag_refl,
}

abbrev pub plain : ℕ → Ty
plain _ = unknown 0

pub and_then-yes {ℓ} :
    {C : Type ℓ} (p : Answer × C) (k : C → Answer × C)
    → (and_then p k).0 ≡ yes
    → (p.0 ≡ yes) × ((k p.1).0 ≡ yes)
and_then-yes (yes, c) k h = (refl, h)
and_then-yes (no, c) k h = cc
and_then-yes (aborts, c) k h = cc

pub if-yes {ℓ} :
    {C : Type ℓ} (b : Bool) (a : Answer) (p : Answer × C) (c : C)
    → (a ≢ yes)
    → (if b then p else (a, c)).0 ≡ yes
    → (b ≡ true) × (p.0 ≡ yes)
if-yes true a p c n h = (refl, h)
if-yes false a p c n h = absurd (n h)

pub no-ne-yes : no ≢ yes
no-ne-yes h = cc

pub aborts-ne-yes : aborts ≢ yes
aborts-ne-yes h = cc

pub ==-suc : (a b : ℕ) → (suc a == suc b) ≡ true → (a == b) ≡ true
==-suc a b h = ground arith

pub suc-ne-zero : (a : ℕ) → (suc a == 0) ≡ true → ⊥
suc-ne-zero a h = ground arith

pub zero-ne-suc : (a : ℕ) → (0 == suc a) ≡ true → ⊥
zero-ne-suc a h = ground arith

mutual
  unfolding unify content

  equals→content :
      (l r : Ty) (c : Unit {0}) → (unify none l r c).0 ≡ yes → content plain l ≡ content plain r
  equals→content (tuple ls) (tuple rs) c h =
      let t = if-yes (size ls == size rs) no (unify_all none ls rs c) c no-ne-yes h in
      cc (equals_all→content ls rs c t.0 t.1)
  equals→content (array l) (array r) c h = cc (equals→content l r c h)
  equals→content (pointer l) (pointer r) c h = cc (equals→content l r c h)
  equals→content (function ls l v) (function rs r w) c h =
      let t = if-yes (size ls == size rs && same_flag v w) no _ c no-ne-yes h in
      let s = &&→both (size ls == size rs) (same_flag v w) t.0 in
      let p = and_then-yes (unify_all none ls rs c) _ t.1 in
      cc (equals_all→content ls rs c s.0 p.0, equals→content l r _ p.1, same_flag→eq v w s.1)
  equals→content (inst n k ls d g) (inst m j rs e f) c h =
      let r = if-yes (is_resolved d g && is_resolved e f) aborts _ c aborts-ne-yes h in
      let t =
        if-yes ((same_pointer d e && same_pointer g f) && (size ls == size rs)) no _ c no-ne-yes
          r.1 in
      let s = &&→both (same_pointer d e && same_pointer g f) (size ls == size rs) t.0 in
      let p = &&→both (same_pointer d e) (same_pointer g f) s.0 in
      cc (equals_all→content ls rs c s.1 t.1, same_pointer→eq d e p.0, same_pointer→eq g f p.1)
  equals→content (unknown i) (unknown j) c h = refl
  equals→content void void c h = refl
  equals→content bool bool c h = refl
  equals→content integer integer c h = refl
  equals→content float float c h = refl
  equals→content string string c h = refl
  equals→content (generic i n k) (generic j m l) c h = refl
  equals→content l r c h = cc

  equals_all→content :
      (ls rs : Tys) (c : Unit {0})
      → (size ls == size rs) ≡ true
      → (unify_all none ls rs c).0 ≡ yes
      → content_all plain ls ≡ content_all plain rs
  equals_all→content nil nil c e h = refl
  equals_all→content (cons l ls) (cons r rs) c e h =
      let p = and_then-yes (unify none l r c) _ h in
      cc (equals→content l r c p.0, equals_all→content ls rs _ (==-suc (size ls) (size rs) e) p.1)
  equals_all→content nil (cons r rs) c e h = absurd (zero-ne-suc (size rs) e)
  equals_all→content (cons l ls) nil c e h = absurd (suc-ne-zero (size ls) e)

-- Each Instance in the type points to a definition or to a generic, as name resolution leaves it.
unfoldable mutual
  pub IsResolved : Ty → Type 0
  IsResolved (tuple ts) = AllResolved ts
  IsResolved (array t) = IsResolved t
  IsResolved (pointer t) = IsResolved t
  IsResolved (function ts t v) = AllResolved ts × IsResolved t
  IsResolved (inst n l ts d g) = (is_resolved d g ≡ true) × AllResolved ts
  IsResolved t = Unit {0}

  pub AllResolved : Tys → Type 0
  AllResolved nil = Unit {0}
  AllResolved (cons t ts) = IsResolved t × AllResolved ts

mutual
  unfolding unify content IsResolved

  content→equals :
      (l r : Ty) (c : Unit {0})
      → IsResolved l
      → IsResolved r
      → content plain l ≡ content plain r
      → unify none l r c ≡ (yes, c)
  content→equals (tuple ls) (tuple rs) c a b h =
      rw (size-eq_of_content plain ls rs (cc)) (content→equals_all ls rs c a b (cc))
  content→equals (array l) (array r) c a b h = content→equals l r c a b (cc)
  content→equals (pointer l) (pointer r) c a b h = content→equals l r c a b (cc)
  content→equals (function ls l v) (function rs r w) c a b h =
      let e : v ≡ w = cc in
      rw
        (
          size-eq_of_content plain ls rs (cc),
          e,
          same_flag_refl w,
          content→equals_all ls rs c a.0 b.0 (cc),
        )
        (content→equals l r c a.1 b.1 (cc))
  content→equals (inst n k ls d g) (inst m j rs d' g') c a b h =
      let p : d ≡ d' = cc in
      let q : g ≡ g' = cc in
      rw
        (
          a.0,
          b.0,
          size-eq_of_content plain ls rs (cc),
          p,
          q,
          same_pointer_refl d',
          same_pointer_refl g',
        )
        (content→equals_all ls rs c a.1 b.1 (cc))
  content→equals (unknown i) (unknown j) c a b h = elim (Bool-cases (i == j)) [
    | inl e ↦ rw e
    | inr e ↦ rw e
  ]
  content→equals void void c a b h = refl
  content→equals bool bool c a b h = refl
  content→equals integer integer c a b h = refl
  content→equals float float c a b h = refl
  content→equals string string c a b h = refl
  content→equals (generic i n k) (generic j m l) c a b h = refl
  content→equals l r c a b h = cc

  content→equals_all :
      (ls rs : Tys) (c : Unit {0})
      → AllResolved ls
      → AllResolved rs
      → content_all plain ls ≡ content_all plain rs
      → unify_all none ls rs c ≡ (yes, c)
  content→equals_all nil nil c a b h = refl
  content→equals_all (cons l ls) (cons r rs) c a b h =
      rw (content→equals l r c a.0 b.0 (cc)) (content→equals_all ls rs c a.1 b.1 (cc))
  content→equals_all nil (cons r rs) c a b h = cc
  content→equals_all (cons l ls) nil c a b h = cc

-- Of types whose Instances each point to a definition or to a generic, typeEquals holds exactly of two
-- with the same content once every Unknown node is read as one and the same: it looks at neither the
-- addresses of Unknown and Generic nodes nor the names and locations of Instance nodes.
pub type_equals_iff :
    (l r : Ty)
    → IsResolved l
    → IsResolved r
    → (type_equals l r ≡ yes) ↔ (content plain l ≡ content plain r)
unfolding type_equals
type_equals_iff l r a b = (equals→content l r tt, λ h. ap (λ p. p.0) (content→equals l r tt a b h))

-- A success, whatever the types.
pub type_equals-content : (l r : Ty) → type_equals l r ≡ yes → content plain l ≡ content plain r
unfolding type_equals
type_equals-content l r = equals→content l r tt
