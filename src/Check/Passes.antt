-- ===== src/Check/Passes.antt =====
-- compiler/typecheck.cpp: the trees in which typeckVerify finds nothing to report.
use aike.Base.{ℕ, ◌≡◌, refl, false, List, [], ◌∷◌, Option, none}
use aike.Types.Syntax.{Ty, TyDef, Location}
use aike.Tree.Ast.{Ast}
use aike.Tree.Visit.{visit_ast, visit_ast_types}
use aike.Check.State.{ast_location, Pass, ok, pure, ◌>>=◌}
use aike.Check.Verify.{must_know_all, verify_node, verify_nodes, typeck_verify}
use aike.Check.Typing.{AllKnown, NodesKnown, Typed}
use aike.Check.Runs.{Runs, Runs->>=, pure-Runs, or_null-Runs, type_must_know-Runs}
use aike.Check.Complete.{type_node-Runs}

must_know_all-Runs : (ts : List Ty) (l : Location) → AllKnown ts → Runs (must_know_all ts l) tt
unfolding must_know_all
must_know_all-Runs [] l h = pure-Runs refl
must_know_all-Runs (t ∷ ts) l (one, rest) =
    Runs->>= _ (type_must_know-Runs t l one) (must_know_all-Runs ts l rest)

verify_nodes-Runs : (ns : List Ast) → NodesKnown ns → Runs (verify_nodes ns) tt
unfolding verify_nodes verify_node NodesKnown ast_location
verify_nodes-Runs [] h = pure-Runs refl
verify_nodes-Runs (n ∷ ns) ((c, there), known, rest) =
    Runs->>= _
      (Runs->>= (must_know_all (visit_ast_types n))
        (Runs->>= _ (or_null-Runs there) (pure-Runs refl))
        (must_know_all-Runs (visit_ast_types n) c.location known))
      (verify_nodes-Runs ns rest)

-- On a tree that obeys the typing rules and in which every type that a node of the walk holds is
-- known, typeckVerify, with null constraints, comes to its end, whatever was reported before: it
-- reports nothing more, and leaves the tree as it is.
pub typeck_verify_accepts :
    (defs : ℕ → Option TyDef) (root : Ast) (s : Pass)
    → Typed defs root
    → NodesKnown (visit_ast root (λ _. false))
    → s.constraints ≡ none
    → typeck_verify defs root s ≡ ok (root, s)
unfolding typeck_verify
typeck_verify_accepts defs root s typed known n =
    (Runs->>= (λ r. verify_nodes (visit_ast r (λ _. false)) >>= λ _. pure r)
        (type_node-Runs defs root typed)
        (Runs->>= _ (verify_nodes-Runs (visit_ast root (λ _. false)) known) (pure-Runs refl))).runs
      s n
