-- ===== src/Check/LiteralsHold.antt =====
-- compiler/typecheck.cpp: the rules of typing hold at a node that is finished with no report.
use aike.Base.{
  ℕ, suc, ◌≡◌, refl, Bool, true, false, not, ◌&&◌, List, [], ◌∷◌, Option, none, some, if◌then◌else◌,
  inl, inr, ◌⊎◌,
}
use aike.Types.Syntax.{Ty, TyDef, StructField, Location, tuple, array, inst, cons}
use aike.Tree.Ast.{Asts, FieldInits, FieldRef, no_inits, init}
use aike.Check.State.{◌>>◌, pure, error, is_null, not_initialized, already_initialized}
use aike.Check.Literals.{
  own_or_fresh, is_marked, mark_field, mark_inits, report_missing, validate_struct, def_at,
  validate_literal_struct, tuple_type, fields_of_tuple, array_type, element_of_array, fresh_for,
}
use aike.Check.Typing.{Marks, AllInitialized, StructIsComplete}
use aike.Check.Ensures.{
  Ensures, Ensures->>=, Ensures-mono, pure-Ensures, stop-Ensures, error-Ensures, fresh-Ensures,
  report_if-Ensures,
}

-- A step of which only its result is used.
abbrev pub Anything : {A : Type 0} → A → Type 0
Anything a = Unit {0}

pub own_or_fresh-Ensures : (o : Option Ty) → Ensures (own_or_fresh o) (λ t. Unit {0})
own_or_fresh-Ensures none = fresh-Ensures
own_or_fresh-Ensures (some t) = pure-Ensures _ tt

pub fields_of_tuple-Ensures : (t : Ty) → Ensures (fields_of_tuple t) (λ ts. t ≡ tuple ts)
fields_of_tuple-Ensures (tuple ts) = pure-Ensures _ refl
fields_of_tuple-Ensures t = stop-Ensures

pub element_of_array-Ensures : (t : Ty) → Ensures (element_of_array t) (λ u. t ≡ array u)
element_of_array-Ensures (array t) = pure-Ensures _ refl
element_of_array-Ensures t = stop-Ensures

fresh_for-Ensures : (as_ : Asts) → Ensures (fresh_for as_) (λ ts. Unit {0})
unfolding fresh_for
fresh_for-Ensures Asts.nil = pure-Ensures _ tt
fresh_for-Ensures (Asts.cons _ as_) =
    Ensures->>= fresh-Ensures
      λ t. Ensures->>= (fresh_for-Ensures as_) λ ts. pure-Ensures (cons t ts) (λ _ _. tt)

pub tuple_type-Ensures : (o : Option Ty) (as_ : Asts) → Ensures (tuple_type o as_) (λ t. Unit {0})
unfolding tuple_type
tuple_type-Ensures none as_ =
    Ensures->>= (fresh_for-Ensures as_) λ ts. pure-Ensures (tuple ts) (λ _. tt)
tuple_type-Ensures (some t) as_ = pure-Ensures _ tt

pub array_type-Ensures : (o : Option Ty) → Ensures (array_type o) (λ t. Unit {0})
unfolding array_type
array_type-Ensures none = Ensures->>= fresh-Ensures λ t. pure-Ensures (array t) (λ _. tt)
array_type-Ensures (some t) = pure-Ensures _ tt

mark_field-Ensures :
    (m : List ℕ) (f : FieldRef) (o : Option ℕ)
    → Ensures
        (mark_field m f o)
        (λ m'. (i : ℕ) × (o ≡ some i) × (is_marked m i ≡ false) × (m' ≡ i ∷ m))
unfolding mark_field
mark_field-Ensures m f none = stop-Ensures
mark_field-Ensures m f (some i) = go (is_marked m i) refl
  where
    go :
        (b : Bool)
        → is_marked m i ≡ b
        → Ensures
            (if b then (do error (already_initialized f.name) f.location; pure m) else pure (i ∷ m))
            (λ m'. (j : ℕ) × (some i ≡ some j) × (is_marked m j ≡ false) × (m' ≡ j ∷ m))
    go true e = Ensures->>= (error-Ensures {P = λ _. ⊥} _ _) λ _. pure-Ensures m (λ h. absurd h)
    go false e = pure-Ensures (i ∷ m) (i, refl, e, refl)

mark_inits-Ensures :
    (fs : FieldInits) (m : List ℕ) → Ensures (mark_inits fs m) (λ m'. Marks fs m m')
unfolding mark_inits Marks
mark_inits-Ensures no_inits m = pure-Ensures _ refl
mark_inits-Ensures (init f e fs) m = Ensures->>= (mark_field-Ensures m f f.index) λ m'.
    Ensures-mono (mark_inits-Ensures fs m')
      (λ m'' rest (i, at, new, eq). (i, at, new, rw (← eq) rest))

-- A field that is neither marked nor has an initializer of its own is reported.
filled :
    (b : Bool) (o : Option ℕ) → (not b && is_null o) ≡ false → (b ≡ true) ⊎ ((e : ℕ) × (o ≡ some e))
filled true o h = inl refl
filled false (some e) h = inr (e, refl)
filled false none h = cc

report_missing-Ensures :
    (fs : List StructField) (i : ℕ) (m : List ℕ) (l : Location)
    → Ensures (report_missing fs i m l) (λ u. AllInitialized fs i m)
unfolding report_missing AllInitialized
report_missing-Ensures [] i m l = pure-Ensures _ tt
report_missing-Ensures (f ∷ fs) i m l =
    Ensures->>=
      (report_if-Ensures (not (is_marked m i) && is_null f.expr) (not_initialized f.name) l)
      λ _.
        Ensures-mono (report_missing-Ensures fs (suc i) m l)
          (λ _ rest one. (filled (is_marked m i) f.expr one, rest))

validate_struct-Ensures :
    (o : Option TyDef) (fs : FieldInits) (l : Location)
    → Ensures (validate_struct o fs l) (λ u.
      (def : TyDef) × (m : List ℕ) × (o ≡ some def) × Marks fs [] m × AllInitialized def.fields 0 m)
unfolding validate_struct
validate_struct-Ensures none fs l = stop-Ensures
validate_struct-Ensures (some def) fs l = Ensures->>= (mark_inits-Ensures fs []) λ m.
    Ensures-mono (report_missing-Ensures def.fields 0 m l)
      (λ _ all marks. (def, m, refl, marks, all))

pub validate_literal_struct-Ensures :
    (defs : ℕ → Option TyDef) (t : Ty) (fs : FieldInits) (l : Location)
    → Ensures (validate_literal_struct defs t fs l) (λ u. StructIsComplete defs t fs)
unfolding validate_literal_struct StructIsComplete
validate_literal_struct-Ensures defs (inst n k args d g) fs l =
    validate_struct-Ensures (def_at defs d) fs l
validate_literal_struct-Ensures defs t fs l = error-Ensures _ _
