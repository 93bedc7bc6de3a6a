-- ===== src/Check/Runs.antt =====
-- compiler/typecheck.cpp: steps of a pass with null constraints that change nothing and report nothing.
use aike.Base.{◌≡◌, refl, sym, ap, Bool, true, false, Option, none, some, if◌then◌else◌}
use aike.Types.Syntax.{Ty, Location}
use aike.Types.Traverse.{type_known, Member, found}
use aike.Types.Unify.{yes, type_equals, TypeConstraints}
use aike.Tree.Ast.{Ast, Common}
use aike.Tree.Visit.{ast_common}
use aike.Check.State.{
  Check, ok, Pass, Problem, ◌>>=◌, pure, if_verifying, report_if, or_null, type_in, ast_type,
  ast_location, type_must_know, unify_in, unify_types, type_must_equal, node_must_equal, of_member,
  is_null,
}
use aike.Check.Literals.{with_type}
use aike.Check.Typing.{HasType, Agrees, Fits}

pub record Runs {A : Type 0} (p : Check A) (a : A) : Type 0 where
  pub runs : (s : Pass) → s.constraints ≡ none → p s ≡ ok (a, s)

module _ {A B : Type 0} where
  pub Runs->>= :
      {p : Check A} (f : A → Check B) {a : A} {b : B} → Runs p a → Runs (f a) b → Runs (p >>= f) b
  Runs->>= {p} f {a} h k = record { runs = λ s n. rw (h.runs s n) (k.runs s n) }

module _ {A : Type 0} where
  pub pure-Runs : {a b : A} → a ≡ b → Runs (pure a) b
  pure-Runs e = record { runs = λ s n. ap (λ v. ok (v, s)) e }

pub or_null-Runs : {A : Type 0} {o : Option A} {a : A} → o ≡ some a → Runs (or_null o) a
or_null-Runs h = rw h (pure-Runs refl)

pub report_if-Runs : (p : Problem) (l : Location) (b : Bool) → b ≡ false → Runs (report_if b p l) tt
report_if-Runs p l b h = rw h (pure-Runs refl)

pub if_verifying-Runs : {p : Check (Unit {0})} → Runs p tt → Runs (if_verifying p) tt
if_verifying-Runs {p} h = record { runs = λ s n. go s n s.constraints n }
  where
    go :
        (s : Pass)
        → s.constraints ≡ none
        → (c : Option TypeConstraints) → c ≡ none
        → (if is_null c then p s else ok (tt, s)) ≡ ok (tt, s)
    go s n none e = h.runs s n
    go s n (some c) e = refl

pub ast_type-Runs : (n : Ast) (t : Ty) → HasType n t → Runs (ast_type n) t
unfolding ast_type
ast_type-Runs n t h = rw h (pure-Runs refl)

-- A node with a type is there, and has a location.
pub ast_location-Runs : (n : Ast) (t : Ty) → HasType n t → (l : Location) × Runs (ast_location n) l
unfolding ast_location
ast_location-Runs n t h = go (ast_common n) h
  where
    go :
        (o : Option Common)
        → type_in o ≡ some t
        → (l : Location) × Runs (or_null o >>= λ c. pure c.location) l
    go none e = cc
    go (some c) e = (c.location, pure-Runs refl)

pub of_member-Runs : (m : Member) (t : Ty) → m ≡ found t → Runs (of_member m) t
of_member-Runs m t h = rw h (pure-Runs refl)

pub type_must_know-Runs :
    (t : Ty) (l : Location) → type_known t ≡ true → Runs (type_must_know t l) tt
unfolding type_must_know
type_must_know-Runs t l h = record { runs = λ s n. rw h refl }

unify_types-Runs : (l r : Ty) → type_equals l r ≡ yes → Runs (unify_types l r) true
unfolding unify_types
unify_types-Runs l r h = record { runs = λ s n. go s s.constraints n }
  where
    go : (s : Pass) (c : Option TypeConstraints) → c ≡ none → unify_in c l r s ≡ ok (true, s)
    go s none e = rw h refl
    go s (some c) e = cc

pub type_must_equal-Runs : (t e : Ty) (l : Location) → Agrees t e → Runs (type_must_equal t e l) tt
unfolding type_must_equal
type_must_equal-Runs t e l (same, known) = Runs->>= _ (unify_types-Runs t e same) (
    Runs->>= _ (if_verifying-Runs (pure-Runs refl))
      (if_verifying-Runs (type_must_know-Runs t l known)))

pub node_must_equal-Runs : (n : Ast) (e : Ty) → Fits n e → Runs (node_must_equal n e) tt
unfolding node_must_equal
node_must_equal-Runs n e (t, has, agrees) =
    let (l, at) = ast_location-Runs n t has in
    Runs->>= _ (ast_type-Runs n t has) (Runs->>= _ at (type_must_equal-Runs t e l agrees))

-- A node that has its type gets it once more.
pub with_type_same : (t : Ty) (c : Common) → c.type ≡ some t → with_type t c ≡ c
with_type_same t c h = λ i. record c { type = sym h i }
