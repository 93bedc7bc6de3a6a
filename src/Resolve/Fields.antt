-- ===== src/Resolve/Fields.antt =====
-- compiler/resolve.cpp: resolveFieldRef. The reference that it changes in place is returned.
use aike.Base.{
  ℕ, ◌≡◌, refl, ap, subst, some→eq, Bool, true, false, List, [], ◌∷◌, Option, none, some, Bytes,
}
use aike.Types.Syntax.{Ty, TyDef, Location, is_unknown}
use aike.Tree.Ast.{FieldRef}
use aike.Resolve.Members.{find_member}

-- `output->error`: the member, its place, and the type that has none of that name.
pub record NoMember : Type 0 where
  pub name : Bytes
  pub location : Location
  pub type : Ty

pub record Resolved : Type 0 where
  pub field : FieldRef
  pub answer : Bool
  pub errors : List NoMember

-- The answer to `f.index >= 0`.
abbrev pub with_index : FieldRef → Ty → Option ℕ → Resolved
with_index f ty (some i) = record {
  field = record f { index = some i };
  answer = true;
  errors = [];
}
with_index f ty none = record {
  field = record f { index = none };
  answer = false;
  errors = record { name = f.name; location = f.location; type = ty } ∷ [];
}

abbrev pub unchanged : FieldRef → Resolved
unchanged f = record { field = f; answer = false; errors = [] }

-- `f.index < 0 && ty->kind != Ty::KindUnknown`, where findMember is called; `none` is its crash.
abbrev pub look_for : FieldRef → Ty → Option ℕ → Bool → Option (Option ℕ) → Option Resolved
look_for f ty none false none = none
look_for f ty none false (some found) = some (with_index f ty found)
look_for f ty none true found = some (unchanged f)
look_for f ty (some i) is_open found = some (unchanged f)

unfoldable pub resolve_field_ref : (ℕ → Option TyDef) → FieldRef → Ty → Option Resolved
unfolding find_member
resolve_field_ref defs f ty = look_for f ty f.index (is_unknown ty) (find_member defs ty f.name)

-- Where resolveFieldRef answers true, the reference had no index before, it has the one of the member
-- of its name now, no error is reported, and any later call, with whatever type, leaves it as it is
-- and answers false: the counter of resolveMembers counts a reference once.
pub resolve_field_ref_once :
    (defs : ℕ → Option TyDef) (f : FieldRef) (ty later : Ty) (r : Resolved)
    → resolve_field_ref defs f ty ≡ some r
    → r.answer ≡ true
    → (f.index ≡ none)
      × (find_member defs ty f.name ≡ some r.field.index)
      × (r.errors ≡ [])
      × (resolve_field_ref defs r.field later ≡ some (unchanged r.field))
unfolding resolve_field_ref
resolve_field_ref_once defs f ty later r h a =
    go f.index (is_unknown ty) (find_member defs ty f.name) refl refl h
  where
    Once : Resolved → Type 0
    Once r =
        (f.index ≡ none)
        × (find_member defs ty f.name ≡ some r.field.index)
        × (r.errors ≡ [])
        × (resolve_field_ref defs r.field later ≡ some (unchanged r.field))

    go :
        (i : Option ℕ) (u : Bool) (o : Option (Option ℕ))
        → f.index ≡ i
        → find_member defs ty f.name ≡ o
        → look_for f ty i u o ≡ some r
        → Once r
    go (some i) u o e d k = cc (a, ap (λ x. x.answer) (some→eq k))
    go none true o e d k = cc (a, ap (λ x. x.answer) (some→eq k))
    go none false none e d k = cc
    go none false (some none) e d k = cc (a, ap (λ x. x.answer) (some→eq k))
    go none false (some (some j)) e d k = subst Once (some→eq k) (e, d, refl, refl)
