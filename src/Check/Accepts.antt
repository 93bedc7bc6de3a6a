-- ===== src/Check/Accepts.antt =====
-- compiler/typecheck.cpp: what typeckVerify has established where it reports nothing.
use aike.Base.{ℕ, ◌≡◌, ap, subst, ◌∙◌, false, List, [], ◌∷◌, Option, none}
use aike.Types.Syntax.{Ty, TyDef, Location}
use aike.Tree.Ast.{Ast}
use aike.Tree.Visit.{ast_common, visit_ast, visit_ast_types}
use aike.Check.State.{Pass, Checked, ok, fault, ast_location}
use aike.Check.Verify.{must_know_all, verify_node, verify_nodes, typeck_verify}
use aike.Check.Typing.{AllKnown, IsPresent, NodesKnown, Typed}
use aike.Check.Labels.{IsLabelled}
use aike.Check.Ensures.{
  Post, Ensures, Ensures->>=, Ensures-mono, pure-Ensures, type_must_know-Ensures, or_null-Ensures,
}
use aike.Check.Sound.{type_node-Typed}

must_know_all-Ensures :
    (ts : List Ty) (l : Location) → Ensures (must_know_all ts l) (λ u. AllKnown ts)
unfolding must_know_all
must_know_all-Ensures [] l = pure-Ensures _ tt
must_know_all-Ensures (t ∷ ts) l =
    Ensures->>= (type_must_know-Ensures t l)
      λ _. Ensures-mono (must_know_all-Ensures ts l) (λ _ rest one. (one, rest))

verify_node-Ensures :
    (n : Ast) → Ensures (verify_node n) (λ u. IsPresent n × AllKnown (visit_ast_types n))
unfolding verify_node ast_location
verify_node-Ensures n =
    Ensures->>= {P = λ l. IsPresent n}
      (Ensures->>= (or_null-Ensures (ast_common n)) λ c. pure-Ensures _ (λ h. (c, h)))
      λ l.
        Ensures-mono (must_know_all-Ensures (visit_ast_types n) l) (λ _ known there. (there, known))

verify_nodes-Ensures : (ns : List Ast) → Ensures (verify_nodes ns) (λ u. NodesKnown ns)
unfolding verify_nodes NodesKnown
verify_nodes-Ensures [] = pure-Ensures _ tt
verify_nodes-Ensures (n ∷ ns) =
    Ensures->>= (verify_node-Ensures n)
      λ _. Ensures-mono (verify_nodes-Ensures ns) (λ _ rest one. (one.0, one.1, rest))

typeck_verify-Ensures :
    (defs : ℕ → Option TyDef) (root : Ast)
    → IsLabelled root
    → Ensures
        (typeck_verify defs root)
        (λ root'. Typed defs root' × NodesKnown (visit_ast root' (λ _. false)))
unfolding typeck_verify
typeck_verify-Ensures defs root h = Ensures->>= (type_node-Typed defs root h) λ root'.
    Ensures->>= (verify_nodes-Ensures (visit_ast root' (λ _. false)))
      λ _. pure-Ensures _ (λ known typed. (typed, known))

ok-pair :
    {A : Type 0} {a b : A} {s u : Pass}
    → ◌≡◌ {A = Checked (A × Pass)} (ok (a, s)) (ok (b, u))
    → (a ≡ b) × (s ≡ u)
ok-pair h = (cc, cc)

pub Post-ok :
    {A : Type 0} (P : A → Type 0) (s s' : Pass) (r : Checked (A × Pass)) (a : A)
    → Post P s r
    → r ≡ ok (a, s')
    → s'.errors ≡ []
    → P a
Post-ok P s s' (ok (b, u)) a (n, h) e q =
    let (same, at) = ok-pair e in subst P same (h (ap (λ v. v.errors) at ∙ q)).1
Post-ok P s s' (fault f) a h e q = cc

-- Where typeckVerify, with null constraints, ends with no report on a tree whose literals and
-- statements have no type yet, or the one of their kind, the tree that it leaves obeys the typing
-- rules, and every type that a node of the walk over it holds is known.
pub typeck_verify-Typed :
    (defs : ℕ → Option TyDef) (root root' : Ast) (s s' : Pass)
    → IsLabelled root
    → s.constraints ≡ none
    → typeck_verify defs root s ≡ ok (root', s')
    → s'.errors ≡ []
    → Typed defs root' × NodesKnown (visit_ast root' (λ _. false))
typeck_verify-Typed defs root root' s s' h n e q =
    Post-ok (λ r. Typed defs r × NodesKnown (visit_ast r (λ _. false))) s s'
      (typeck_verify defs root s) root' ((typeck_verify-Ensures defs root h).ensures s n) e q
