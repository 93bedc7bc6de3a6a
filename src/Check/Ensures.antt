-- ===== src/Check/Ensures.antt =====
-- compiler/typecheck.cpp: what holds after a step of a pass with null constraints that has not added a
-- report.
use aike.Base.{
  ◌≡◌, ◌≢◌, refl, Bool, true, false, not, ◌&&◌, List, [], ◌∷◌, ◌++◌, Option, none, some,
  if◌then◌else◌,
}
use aike.Types.Syntax.{Ty, Location}
use aike.Types.Traverse.{type_known, Member, found, assertion, ice}
use aike.Types.Unify.{Answer, yes, no, aborts, type_equals, TypeConstraints}
use aike.Tree.Ast.{Ast}
use aike.Tree.Visit.{ast_common}
use aike.Check.State.{
  Check, Checked, ok, fault, Pass, Problem, Report, Fault, bind, ◌>>=◌, pure, stop, error, fresh,
  if_verifying, report_if, or_null, type_in, ast_type, ast_location, is_first, type_must_know,
  of_answer, unify_in, unify_types, type_must_equal, node_must_equal, of_member, is_null, mismatch,
  unknown_type,
}
use aike.Check.Typing.{HasType, Agrees, Fits}

-- Where no report is there at the end, none was there before, and the result is as it should be.
abbrev pub Post : {A : Type 0} → (A → Type 0) → Pass → Checked (A × Pass) → Type 0
Post P s (ok (a, s')) = (s'.constraints ≡ none) × (s'.errors ≡ [] → (s.errors ≡ []) × P a)
Post P s (fault e) = Unit {0}

pub record Ensures {A : Type 0} (p : Check A) (P : A → Type 0) : Type 0 where
  pub ensures : (s : Pass) → s.constraints ≡ none → Post P s (p s)

module _ {A B : Type 0} {P : A → Type 0} {Q : B → Type 0} where
  Post-bind :
      (s : Pass) (r : Checked (A × Pass)) (f : A → Check B)
      → Post P s r
      → ((a : A) → Ensures (f a) (λ b. P a → Q b))
      → Post Q s (bind r f)
  Post-bind s (fault e) f h k = tt
  Post-bind s (ok (a, s')) f (n, h) k = go (f a s') ((k a).ensures s' n)
    where
      go : (r : Checked (B × Pass)) → Post (λ b. P a → Q b) s' r → Post Q s r
      go (fault e) g = tt
      go (ok (b, s'')) (m, g) =
          (m, λ e. let (quiet, q) = g e in let (before, p) = h quiet in (before, q p))

  pub Ensures->>= :
      {p : Check A} {f : A → Check B}
      → Ensures p P
      → ((a : A) → Ensures (f a) (λ b. P a → Q b))
      → Ensures (p >>= f) Q
  Ensures->>= {p} {f} h k = record { ensures = λ s n. Post-bind s (p s) f (h.ensures s n) k }

module _ {A : Type 0} {P : A → Type 0} where
  pub pure-Ensures : (a : A) → P a → Ensures (pure a) P
  pure-Ensures a h = record { ensures = λ s n. (n, λ e. (e, h)) }

  pub stop-Ensures : {e : Fault} → Ensures (stop {A = A} e) P
  stop-Ensures = record { ensures = λ s n. tt }

  pub Ensures-mono :
      {Q : A → Type 0} {p : Check A} → Ensures p P → ((a : A) → P a → Q a) → Ensures p Q
  Ensures-mono {Q} {p} h k = record { ensures = λ s n. go s (p s) (h.ensures s n) }
    where
      go : (s : Pass) (r : Checked (A × Pass)) → Post P s r → Post Q s r
      go s (fault e) g = tt
      go s (ok (a, s')) (m, g) = (m, λ e. let (before, q) = g e in (before, k a q))

append_one : {A : Type 0} (xs : List A) (x : A) → xs ++ x ∷ [] ≢ []
append_one [] x h = cc
append_one (y ∷ xs) x h = cc

pub error-Ensures : {P : Unit {0} → Type 0} (p : Problem) (l : Location) → Ensures (error p l) P
unfolding error
error-Ensures p l = record { ensures = λ s n. (n, λ e. absurd (append_one s.errors _ e)) }

pub fresh-Ensures : Ensures fresh (λ t. Unit {0})
unfolding fresh
fresh-Ensures = record { ensures = λ s n. (n, λ e. (e, tt)) }

pub report_if-Ensures :
    (b : Bool) (p : Problem) (l : Location) → Ensures (report_if b p l) (λ u. b ≡ false)
report_if-Ensures true p l = error-Ensures p l
report_if-Ensures false p l = pure-Ensures _ refl

pub if_verifying-Ensures :
    {p : Check (Unit {0})} {P : Unit {0} → Type 0} → Ensures p P → Ensures (if_verifying p) P
if_verifying-Ensures {p} {P} h = record { ensures = λ s n. go s n s.constraints n }
  where
    go :
        (s : Pass)
        → s.constraints ≡ none
        → (c : Option TypeConstraints) → c ≡ none
        → Post P s (if is_null c then p s else ok (tt, s))
    go s n none e = h.ensures s n
    go s n (some c) e = cc

pub or_null-Ensures : {A : Type 0} (o : Option A) → Ensures (or_null o) (λ a. o ≡ some a)
or_null-Ensures none = stop-Ensures
or_null-Ensures (some a) = pure-Ensures _ refl

pub ast_type-Ensures : (n : Ast) → Ensures (ast_type n) (λ t. HasType n t)
unfolding ast_type
ast_type-Ensures n = or_null-Ensures (type_in (ast_common n))

pub ast_location-Ensures : (n : Ast) → Ensures (ast_location n) (λ l. Unit {0})
unfolding ast_location
ast_location-Ensures n = Ensures->>= (or_null-Ensures (ast_common n)) λ c. pure-Ensures _ (λ h. tt)

pub of_member-Ensures : (m : Member) → Ensures (of_member m) (λ t. m ≡ found t)
of_member-Ensures (found t) = pure-Ensures _ refl
of_member-Ensures assertion = stop-Ensures
of_member-Ensures ice = stop-Ensures

pub type_must_know-Ensures :
    (t : Ty) (l : Location) → Ensures (type_must_know t l) (λ u. type_known t ≡ true)
unfolding type_must_know is_first
type_must_know-Ensures t l = record { ensures = λ s n. go s n (type_known t) s.errors refl }
  where
    go :
        (s : Pass)
        → s.constraints ≡ none
        → (b : Bool) (es : List Report) → s.errors ≡ es
        → Post
            (λ u. b ≡ true)
            s
            (report_if (not b && elim es [ [] ↦ true | _ ∷ _ ↦ false ]) (unknown_type t) l s)
    go s n true es e = (n, λ q. (q, refl))
    go s n false [] e = (error-Ensures {P = λ u. false ≡ true} (unknown_type t) l).ensures s n
    go s n false (x ∷ es) e = (n, λ q. cc)

of_answer-Ensures : (a : Answer) → Ensures (of_answer a) (λ b. b ≡ true → a ≡ yes)
of_answer-Ensures yes = pure-Ensures _ (λ h. refl)
of_answer-Ensures no = pure-Ensures _ (λ h. cc)
of_answer-Ensures aborts = stop-Ensures

pub unify_types-Ensures :
    (l r : Ty) → Ensures (unify_types l r) (λ b. b ≡ true → type_equals l r ≡ yes)
unfolding unify_types
unify_types-Ensures l r = record { ensures = λ s n. go s n s.constraints n }
  where
    go :
        (s : Pass)
        → s.constraints ≡ none
        → (c : Option TypeConstraints) → c ≡ none
        → Post (λ b. b ≡ true → type_equals l r ≡ yes) s (unify_in c l r s)
    go s n none e = (of_answer-Ensures (type_equals l r)).ensures s n
    go s n (some c) e = cc

pub not_false : (b : Bool) → not b ≡ false → b ≡ true
not_false true h = refl
not_false false h = cc

pub type_must_equal-Ensures :
    (t e : Ty) (l : Location) → Ensures (type_must_equal t e l) (λ u. Agrees t e)
unfolding type_must_equal
type_must_equal-Ensures t e l = Ensures->>= (unify_types-Ensures t e) λ same.
    Ensures->>= (if_verifying-Ensures (report_if-Ensures (not same) (mismatch e t) l)) λ _.
      Ensures-mono (if_verifying-Ensures (type_must_know-Ensures t l))
        (λ _ known is_same eq. (eq (not_false same is_same), known))

pub node_must_equal-Ensures : (n : Ast) (e : Ty) → Ensures (node_must_equal n e) (λ u. Fits n e)
unfolding node_must_equal
node_must_equal-Ensures n e = Ensures->>= (ast_type-Ensures n) λ t.
    Ensures->>= (ast_location-Ensures n)
      λ l. Ensures-mono (type_must_equal-Ensures t e l) (λ _ agrees _ has. (t, has, agrees))
