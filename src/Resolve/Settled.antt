-- ===== src/Resolve/Settled.antt =====
-- compiler/resolve.cpp: a second call of resolveMembers.
use aike.Base.{
  ℕ, ◌+◌, ◌≡◌, refl, sym, ap, subst, some→eq, Bool, true, false, List, [], ◌∷◌, Option, none, some,
}
use aike.Types.Syntax.{Ty, TyDef, is_unknown}
use aike.Resolve.Members.{find_member}
use aike.Tree.Ast.{Common, FieldRef, FieldInits, no_inits, init}
use aike.Resolve.Fields.{NoMember, Resolved, resolve_field_ref, look_for, unchanged}
use aike.Resolve.Visits.{
  report_all, of_resolved, ref_without_type, resolve_ref, ref_if_typed, resolve_member, with_one,
  with_two, resolve_refs,
}
use aike.Check.State.{Check, ◌>>=◌, pure, no_member}
use aike.Check.Ensures.{
  Ensures, Ensures->>=, Ensures-mono, pure-Ensures, stop-Ensures, error-Ensures,
}
use aike.Check.Runs.{Runs, Runs->>=, pure-Runs}

-- The step of a second pass, on the result of the first one, leaves it and counts nothing.
abbrev pub Settles : {A : Type 0} → (A → Check (A × ℕ)) → A × ℕ → Type 0
Settles again r = Runs (again r.0) (r.0, 0)

module _ {A B : Type 0} (f : A → B) (w : B → Check (B × ℕ)) (v : A → Check (A × ℕ))
    (Q : B → Type 0) where
  pub with_one-Settles :
      {p : Check (A × ℕ)}
      → ((a : A) → w (f a) ≡ with_one f (v a))
      → ((a : A) → Q (f a))
      → Ensures p (Settles v)
      → Ensures (with_one f p) (λ r. Settles w r × Q r.0)
  with_one-Settles same q h = Ensures->>= h λ a. pure-Ensures _ (λ s. (
    subst (λ x. Runs x (f a.0, 0)) (sym (same a.0))
        (Runs->>= (λ r. pure (f r.0, r.1)) s (pure-Runs refl)),
    q a.0,
  ))

module _ {A B C : Type 0} (f : A → B → C) (w : C → Check (C × ℕ)) (v : A → Check (A × ℕ))
    (u : B → Check (B × ℕ)) (Q : C → Type 0) {P : A × ℕ → Type 0} {R : B × ℕ → Type 0}
    {p : Check (A × ℕ)} {q : Check (B × ℕ)} where
  pub with_two-Settles :
      ((a : A) (b : B) → w (f a b) ≡ with_two f (v a) (u b))
      → ((a : A) (b : B) → Q (f a b))
      → ((a : A × ℕ) → P a → Settles v a)
      → ((b : B × ℕ) → R b → Settles u b)
      → Ensures p P
      → Ensures q R
      → Ensures (with_two f p q) (λ r. Settles w r × Q r.0)
  with_two-Settles same k hp hq first second = Ensures->>= first λ a. Ensures->>= second λ b.
      pure-Ensures _ (λ sb sa. (
        subst (λ x. Runs x (f a.0 b.0, 0)) (sym (same a.0 b.0))
            (Runs->>= (λ r. u b.0 >>= λ q. pure (f r.0 q.0, r.1 + q.1)) (hp a sa)
              (Runs->>= (λ q. pure (f a.0 q.0, 0 + q.1)) (hq b sb) (pure-Runs refl))),
        k a.0 b.0,
      ))

report_all-Ensures : (es : List NoMember) → Ensures (report_all es) (λ u. es ≡ [])
unfolding report_all
report_all-Ensures [] = pure-Ensures _ refl
report_all-Ensures (e ∷ es) =
    Ensures->>= (error-Ensures (no_member e.name e.type) e.location)
      λ _. Ensures-mono (report_all-Ensures es) (λ _ _ no. absurd no)

-- The references of the initializers, which second visits find.
abbrev pub RefsAre : FieldInits → List FieldRef → Type 0
RefsAre no_inits gs = gs ≡ []
RefsAre (init f e fs) [] = ⊥
RefsAre (init f e fs) (g ∷ gs) = (f ≡ g) × RefsAre fs gs

abbrev pub AsMany : FieldInits → List FieldRef → Type 0
AsMany no_inits gs = gs ≡ []
AsMany (init f e fs) [] = ⊥
AsMany (init f e fs) (g ∷ gs) = AsMany fs gs

module _ (defs : ℕ → Option TyDef) where
  -- A reference that is resolved without a report, or left open, stays as it is.
  resolve_field_ref-again :
      (f : FieldRef) (t : Ty) (r : Resolved)
      → resolve_field_ref defs f t ≡ some r
      → r.errors ≡ []
      → resolve_field_ref defs r.field t ≡ some (unchanged r.field)
  unfolding resolve_field_ref
  resolve_field_ref-again f t r h quiet =
      go f.index (is_unknown t) (find_member defs t f.name) refl h
    where
      go :
          (i : Option ℕ) (u : Bool) (o : Option (Option ℕ))
          → look_for f t i u o ≡ look_for f t f.index (is_unknown t) (find_member defs t f.name)
          → look_for f t i u o ≡ some r
          → resolve_field_ref defs r.field t ≡ some (unchanged r.field)
      go (some i) u o e k =
          subst (λ x. resolve_field_ref defs x.field t ≡ some (unchanged x.field)) (some→eq k)
            (sym e)
      go none true o e k =
          subst (λ x. resolve_field_ref defs x.field t ≡ some (unchanged x.field)) (some→eq k)
            (sym e)
      go none false none e k = cc
      go none false (some none) e k = cc (quiet, ap (λ x. x.errors) (some→eq k))
      go none false (some (some j)) e k =
          subst (λ x. resolve_field_ref defs x.field t ≡ some (unchanged x.field)) (some→eq k) refl

  of_resolved-Settles :
      (f : FieldRef) (t : Ty)
      → Ensures
          (of_resolved (resolve_field_ref defs f t))
          (Settles (λ g. of_resolved (resolve_field_ref defs g t)))
  unfolding report_all
  of_resolved-Settles f t = go (resolve_field_ref defs f t) refl
    where
      go :
          (o : Option Resolved)
          → resolve_field_ref defs f t ≡ o
          → Ensures (of_resolved o) (Settles (λ g. of_resolved (resolve_field_ref defs g t)))
      go none e = stop-Ensures
      go (some r) e = Ensures->>= (report_all-Ensures r.errors) λ _. pure-Ensures _ (λ quiet.
          subst (λ o. Runs (of_resolved o) (r.field, 0))
            (sym (resolve_field_ref-again f t r e quiet)) (pure-Runs refl))

  resolve_ref-Settles :
      (f : FieldRef) (t : Option Ty)
      → Ensures (resolve_ref defs f t) (Settles (λ g. resolve_ref defs g t))
  unfolding resolve_ref
  resolve_ref-Settles f none = go f.index refl
    where
      go :
          (i : Option ℕ)
          → f.index ≡ i
          → Ensures (ref_without_type f i) (Settles (λ g. ref_without_type g g.index))
      go none e = stop-Ensures
      go (some i) e =
          pure-Ensures _ (subst (λ o. Runs (ref_without_type f o) (f, 0)) (sym e) (pure-Runs refl))
  resolve_ref-Settles f (some t) = of_resolved-Settles f t

  pub resolve_member-Settles :
      (c : Option Common) (f : FieldRef)
      → Ensures (resolve_member defs c f) (Settles (resolve_member defs c))
  unfolding resolve_member
  resolve_member-Settles none f = stop-Ensures
  resolve_member-Settles (some c) f = go c.type
    where
      go : (t : Option Ty) → Ensures (ref_if_typed defs f t) (Settles (λ g. ref_if_typed defs g t))
      go none = pure-Ensures _ (pure-Runs refl)
      go (some t) = of_resolved-Settles f t

  pub resolve_refs-Settles :
      (t : Option Ty) (fs : FieldInits)
      → Ensures (resolve_refs defs t fs) (λ r.
        AsMany fs r.0
        × ((later : FieldInits) → RefsAre later r.0 → Runs (resolve_refs defs t later) (r.0, 0)))
  unfolding resolve_refs
  resolve_refs-Settles t no_inits = pure-Ensures _ (refl, later)
    where
      later : (fs : FieldInits) → RefsAre fs [] → Runs (resolve_refs defs t fs) ([], 0)
      later no_inits h = pure-Runs refl
      later (init f e fs) h = absurd h
  resolve_refs-Settles t (init f e fs) = Ensures->>= (resolve_ref-Settles f t) λ g.
      Ensures->>= (resolve_refs-Settles t fs)
        λ gs. pure-Ensures _ (λ many one. (many.0, later g.0 gs.0 one many.1))
    where
      later :
          (g : FieldRef) (gs : List FieldRef)
          → Runs (resolve_ref defs g t) (g, 0)
          → ((fs : FieldInits) → RefsAre fs gs → Runs (resolve_refs defs t fs) (gs, 0))
          → (fs : FieldInits) → RefsAre fs (g ∷ gs)
          → Runs (resolve_refs defs t fs) (g ∷ gs, 0)
      later g gs one many no_inits h = cc
      later g gs one many (init f' e' fs') (same, h) =
          Runs->>= (λ a. resolve_refs defs t fs' >>= λ b. pure (a.0 ∷ b.0, a.1 + b.1))
            (subst (λ x. Runs (resolve_ref defs x t) (g, 0)) (sym same) one)
            (Runs->>= (λ b. pure (g ∷ b.0, 0 + b.1)) (many fs' h) (pure-Runs refl))
