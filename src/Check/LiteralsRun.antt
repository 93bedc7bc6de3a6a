-- ===== src/Check/LiteralsRun.antt =====
-- compiler/typecheck.cpp: a complete struct literal, and the rules for identifiers, members, blocks and
-- calls, on nodes that have their types.
use aike.Base.{
  ℕ, suc, ◌≡◌, refl, Bool, true, false, not, ◌&&◌, List, [], ◌∷◌, Option, some, ◌⊎◌, inl, inr,
}
use aike.Types.Syntax.{Ty, TyDef, StructField, Location, inst}
use aike.Tree.Ast.{FieldInits, FieldRef, no_inits, init}
use aike.Check.State.{is_null, not_initialized}
use aike.Check.Literals.{
  own_or_fresh, is_marked, mark_field, mark_inits, report_missing, validate_struct, def_at,
  validate_literal_struct,
}
use aike.Check.Typing.{Marks, AllInitialized, StructIsComplete}
use aike.Check.Runs.{Runs, Runs->>=, pure-Runs, report_if-Runs}

pub own_or_fresh-Runs : (o : Option Ty) (t : Ty) → o ≡ some t → Runs (own_or_fresh o) t
own_or_fresh-Runs o t h = rw h (pure-Runs refl)

mark_field-Runs :
    (m : List ℕ) (f : FieldRef) (o : Option ℕ) (i : ℕ)
    → o ≡ some i
    → is_marked m i ≡ false
    → Runs (mark_field m f o) (i ∷ m)
unfolding mark_field
mark_field-Runs m f o i h new = rw (h, new) (pure-Runs refl)

mark_inits-Runs : (fs : FieldInits) (m m' : List ℕ) → Marks fs m m' → Runs (mark_inits fs m) m'
unfolding mark_inits Marks
mark_inits-Runs no_inits m m' h = pure-Runs h
mark_inits-Runs (init f e fs) m m' (i, at, new, rest) =
    Runs->>= _ (mark_field-Runs m f f.index i at new) (mark_inits-Runs fs (i ∷ m) m' rest)

filled :
    (b : Bool) (o : Option ℕ) → (b ≡ true) ⊎ ((e : ℕ) × (o ≡ some e)) → (not b && is_null o) ≡ false
filled b o (inl h) = rw h
filled true o (inr (e, h)) = refl
filled false o (inr (e, h)) = rw h

report_missing-Runs :
    (fs : List StructField) (i : ℕ) (m : List ℕ) (l : Location)
    → AllInitialized fs i m
    → Runs (report_missing fs i m l) tt
unfolding report_missing AllInitialized
report_missing-Runs [] i m l h = pure-Runs refl
report_missing-Runs (f ∷ fs) i m l (one, rest) =
    Runs->>= _
      (report_if-Runs (not_initialized f.name) l (not (is_marked m i) && is_null f.expr)
        (filled (is_marked m i) f.expr one))
      (report_missing-Runs fs (suc i) m l rest)

validate_struct-Runs :
    (o : Option TyDef) (def : TyDef) (fs : FieldInits) (m : List ℕ) (l : Location)
    → o ≡ some def
    → Marks fs [] m
    → AllInitialized def.fields 0 m
    → Runs (validate_struct o fs l) tt
unfolding validate_struct
validate_struct-Runs o def fs m l h marks all =
    rw h (Runs->>= _ (mark_inits-Runs fs [] m marks) (report_missing-Runs def.fields 0 m l all))

pub validate_literal_struct-Runs :
    (defs : ℕ → Option TyDef) (t : Ty) (fs : FieldInits) (l : Location)
    → StructIsComplete defs t fs
    → Runs (validate_literal_struct defs t fs l) tt
unfolding validate_literal_struct StructIsComplete
validate_literal_struct-Runs defs (inst n k args d g) fs l (def, m, at, marks, all) =
    validate_struct-Runs (def_at defs d) def fs m l at marks all
validate_literal_struct-Runs defs t fs l h = absurd h
