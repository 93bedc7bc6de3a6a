-- ===== src/Tree/Walks.antt =====
-- compiler/modules.cpp: which imports moduleGatherImports gives.
use aike.Base.{
  ◌↔◌, ◌≡◌, refl, sym, ap, ap₂, subst, map, Bytes, false, List, [], ◌∷◌, Elem, Elem-append,
  Elem-of_append, inl, inr,
}
use aike.Modules.Graph.{Import}
use aike.Types.Syntax.{Location}
use aike.Tree.Ast.{Ast, import_, module_}
use aike.Tree.Within.{IsWithin}
use aike.Tree.Reaching.{visit_ast-IsWithin}
use aike.Tree.Visit.{imports_of_node, imports_of_nodes, module_gather_imports, visit_ast}

-- The imports that a node stands for: an Import node the one of its name, a Module node those that the
-- compiler adds, each at the place of the node.
abbrev pub IsImportOf : Import → Ast → Type 0
IsImportOf i (import_ c n) = (i.0 ≡ n) × (i.1 ≡ c.location)
IsImportOf i (module_ c _ _ added) = Elem i.0 added × (i.1 ≡ c.location)
IsImportOf i _ = ⊥

-- The import comes from one of the nodes.
abbrev pub ComesFrom : Import → List Ast → Type 0
ComesFrom i ns = (n : Ast) × Elem n ns × IsImportOf i n

Elem-map_place :
    (i : Import) (l : Location) (ns : List Bytes)
    → Elem i (map (λ n. (n, l)) ns) ↔ (Elem i.0 ns × (i.1 ≡ l))
Elem-map_place i l [] = (λ h. absurd h, λ h. absurd h.0)
Elem-map_place i l (n ∷ ns) =
    let (to, from) = Elem-map_place i l ns in
    (
      λ h. elim h [
        | inl e ↦ (inl (ap (λ j. j.0) e), sym (ap (λ j. j.1) e))
        | inr p ↦ let (m, q) = to p in (inr m, q)
      ],
      λ h. elim h.0 [ inl e ↦ inl (ap₂ (λ m k. (m, k)) e (sym h.1)) | inr p ↦ inr (from (p, h.1)) ],
    )

imports_of_node_iff : (i : Import) (n : Ast) → Elem i (imports_of_node n) ↔ IsImportOf i n
unfolding imports_of_node
imports_of_node_iff i (import_ c n) = (
  λ h. elim h [ inl e ↦ (sym (ap (λ j. j.0) e), sym (ap (λ j. j.1) e)) | inr p ↦ absurd p ],
  λ h. inl (ap₂ (λ m k. (m, k)) (sym h.0) (sym h.1)),
)
imports_of_node_iff i (module_ c n b added) = Elem-map_place i c.location added
imports_of_node_iff i n = (λ h. absurd h, λ h. absurd h)

imports-ComesFrom : (i : Import) (ns : List Ast) → Elem i (imports_of_nodes ns) → ComesFrom i ns
unfolding imports_of_nodes
imports-ComesFrom i [] e = absurd e
imports-ComesFrom i (n ∷ ns) e =
    elim (Elem-of_append i (imports_of_node n) (imports_of_nodes ns) e) [
      | inl p ↦ (n, inl refl, (imports_of_node_iff i n).0 p)
      | inr p ↦ let (m, q, r) = imports-ComesFrom i ns p in (m, inr q, r)
    ]

ComesFrom-imports :
    (i : Import) (ns : List Ast) (n : Ast)
    → Elem n ns
    → IsImportOf i n
    → Elem i (imports_of_nodes ns)
unfolding imports_of_nodes
ComesFrom-imports i [] n e h = absurd e
ComesFrom-imports i (m ∷ ns) n (inl e) h =
    Elem-append i (imports_of_node m) (imports_of_nodes ns)
      (inl ((imports_of_node_iff i m).1 (subst (IsImportOf i) (sym e) h)))
ComesFrom-imports i (m ∷ ns) n (inr e) h =
    Elem-append i (imports_of_node m) (imports_of_nodes ns) (inr (ComesFrom-imports i ns n e h))

-- The imports that are gathered are exactly these: the name and the place of each Import node that
-- stands in the tree, at whatever depth, and each import added to a Module node that stands in it, at
-- the place of that node.
pub module_gather_imports_iff :
    (root : Ast) (i : Import)
    → Elem i (module_gather_imports root) ↔ ((n : Ast) × IsWithin n root × IsImportOf i n)
unfolding module_gather_imports
module_gather_imports_iff root i = (
  λ h.
      let (n, e, k) = imports-ComesFrom i (visit_ast root (λ _. false)) h in
      (n, (visit_ast-IsWithin n root).0 e, k),
  λ (n, w, k).
      ComesFrom-imports i (visit_ast root (λ _. false)) n ((visit_ast-IsWithin n root).1 w) k,
)
