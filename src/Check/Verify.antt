-- ===== src/Check/Verify.antt =====
-- compiler/typecheck.cpp: verifyNode and typeckVerify.
use aike.Base.{ℕ, List, [], ◌∷◌, Option, false}
use aike.Types.Syntax.{Ty, TyDef, Location}
use aike.Tree.Ast.{Ast}
use aike.Tree.Visit.{visit_ast, visit_ast_types}
use aike.Check.State.{Check, ◌>>=◌, ◌>>◌, pure, type_must_know, ast_location}
use aike.Check.Nodes.{type_node}

unfoldable pub must_know_all : List Ty → Location → Check (Unit {0})
unfolding type_must_know
must_know_all [] l = pure tt
must_know_all (t ∷ ts) l = do type_must_know t l; must_know_all ts l

unfoldable pub verify_node : Ast → Check (Unit {0})
unfolding visit_ast_types ast_location must_know_all
verify_node n = do l ← ast_location n; must_know_all (visit_ast_types n) l

-- `visitAst(root, verifyNode, output)` on the nodes of the walk.
unfoldable pub verify_nodes : List Ast → Check (Unit {0})
unfolding verify_node
verify_nodes [] = pure tt
verify_nodes (n ∷ ns) = do verify_node n; verify_nodes ns

-- The pass starts with null constraints.
unfoldable pub typeck_verify : (ℕ → Option TyDef) → Ast → Check Ast
unfolding type_node visit_ast verify_nodes
typeck_verify defs root = do
  root' ← type_node defs root
  verify_nodes (visit_ast root' (λ _. false))
  pure root'
