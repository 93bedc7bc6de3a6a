-- ===== src/Tree/Visit.antt =====
-- compiler/visit.cpp: visitAst, visitAstInner and visitAstTypes; moduleGatherImports of
-- compiler/modules.cpp. A walk is the list of the nodes that it hands to the callback, in order; the
-- callback answers true to leave out what is below a node.
use aike.Base.{Bool, false, List, [], ◌∷◌, ◌++◌, Option, none, some, if◌then◌else◌, map}
use aike.Types.Syntax.{Ty}
use aike.Resolve.Members.{Variable}
use aike.Modules.Graph.{Import}
use aike.Tree.Ast.{
  Common, Ast, Asts, FieldInits, FieldDecls, literal_void, literal_bool, literal_integer,
  literal_float, literal_string, literal_tuple, literal_array, literal_struct, ident, member, block,
  module_, call, unary, binary, index, assign, if_, for_, while, fn, llvm, fn_decl, var_decl,
  ty_decl, import_, absent, nil, cons, no_inits, init, no_fields, field,
}

-- `if (f(node)) return;`
abbrev pub unless_stopped : (Ast → Bool) → Ast → List Ast → List Ast
unless_stopped stop n below = n ∷ (if stop n then [] else below)

-- `walk` visits a node, `inner` what is below it.
unfoldable mutual
  pub walk : (Ast → Bool) → Ast → List Ast
  walk stop absent = []
  walk stop (literal_tuple c as_) = unless_stopped stop (literal_tuple c as_) (walk_all stop as_)
  walk stop (literal_array c as_) = unless_stopped stop (literal_array c as_) (walk_all stop as_)
  walk stop (literal_struct c n fs) =
      unless_stopped stop (literal_struct c n fs) (walk_inits stop fs)
  walk stop (member c a f) = unless_stopped stop (member c a f) (walk stop a)
  walk stop (block c as_) = unless_stopped stop (block c as_) (walk_all stop as_)
  walk stop (module_ c n a is) = unless_stopped stop (module_ c n a is) (walk stop a)
  walk stop (call c a as_) = unless_stopped stop (call c a as_) (walk stop a ++ walk_all stop as_)
  walk stop (unary c op a) = unless_stopped stop (unary c op a) (walk stop a)
  walk stop (binary c op a b) = unless_stopped stop (binary c op a b) (walk stop a ++ walk stop b)
  walk stop (index c a b) = unless_stopped stop (index c a b) (walk stop a ++ walk stop b)
  walk stop (assign c a b) = unless_stopped stop (assign c a b) (walk stop a ++ walk stop b)
  walk stop (if_ c a b d) =
      unless_stopped stop (if_ c a b d) (walk stop a ++ (walk stop b ++ walk stop d))
  walk stop (for_ c v i a b) = unless_stopped stop (for_ c v i a b) (walk stop a ++ walk stop b)
  walk stop (while c a b) = unless_stopped stop (while c a b) (walk stop a ++ walk stop b)
  walk stop (fn_decl c v ts vs k a p m) =
      unless_stopped stop (fn_decl c v ts vs k a p m) (walk stop a)
  walk stop (fn c i a) = unless_stopped stop (fn c i a) (walk stop a)
  walk stop (var_decl c v a) = unless_stopped stop (var_decl c v a) (walk stop a)
  walk stop (ty_decl c n ts fs) = unless_stopped stop (ty_decl c n ts fs) (walk_fields stop fs)
  walk stop n = n ∷ []

  pub walk_all : (Ast → Bool) → Asts → List Ast
  walk_all stop nil = []
  walk_all stop (cons a as_) = walk stop a ++ walk_all stop as_

  pub walk_inits : (Ast → Bool) → FieldInits → List Ast
  walk_inits stop no_inits = []
  walk_inits stop (init f a fs) = walk stop a ++ walk_inits stop fs

  pub walk_fields : (Ast → Bool) → FieldDecls → List Ast
  walk_fields stop no_fields = []
  walk_fields stop (field f a fs) = walk stop a ++ walk_fields stop fs

unfoldable pub visit_ast : Ast → (Ast → Bool) → List Ast
unfolding walk
visit_ast n stop = walk stop n

-- astType, for the nodes that there are.
unfoldable pub ast_common : Ast → Option Common
ast_common (literal_void c) = some c
ast_common (literal_bool c _) = some c
ast_common (literal_integer c _) = some c
ast_common (literal_float c _) = some c
ast_common (literal_string c _) = some c
ast_common (literal_tuple c _) = some c
ast_common (literal_array c _) = some c
ast_common (literal_struct c _ _) = some c
ast_common (ident c _ _ _ _) = some c
ast_common (member c _ _) = some c
ast_common (block c _) = some c
ast_common (module_ c _ _ _) = some c
ast_common (call c _ _) = some c
ast_common (unary c _ _) = some c
ast_common (binary c _ _ _) = some c
ast_common (index c _ _) = some c
ast_common (assign c _ _) = some c
ast_common (if_ c _ _ _) = some c
ast_common (for_ c _ _ _ _) = some c
ast_common (while c _ _) = some c
ast_common (fn c _ _) = some c
ast_common (llvm c _) = some c
ast_common (fn_decl c _ _ _ _ _ _ _) = some c
ast_common (var_decl c _ _) = some c
ast_common (ty_decl c _ _ _) = some c
ast_common (import_ c _) = some c
ast_common absent = none

abbrev pub own_type : Option Common → List Ty
own_type none = []
own_type (some c) = elim c.type [ none ↦ [] | some t ↦ t ∷ [] ]

abbrev pub variable_type : Option Variable → List Ty
variable_type none = []
variable_type (some v) = v.type ∷ []

unfoldable pub field_types : FieldDecls → List Ty
field_types no_fields = []
field_types (field f _ fs) = f.type ∷ field_types fs

-- The types below the node's own one.
unfoldable pub held_types : Ast → List Ty
unfolding field_types
held_types (ident _ _ ts _ _) = ts
held_types (for_ _ v i _ _) = v.type ∷ variable_type i
held_types (fn_decl _ v _ _ _ _ _ _) = v.type ∷ []
held_types (var_decl _ v _) = v.type ∷ []
held_types (ty_decl _ _ _ fs) = field_types fs
held_types _ = []

unfoldable pub visit_ast_types : Ast → List Ty
unfolding ast_common held_types
visit_ast_types n = own_type (ast_common n) ++ held_types n

-- moduleGatherImportsNode on one node.
unfoldable pub imports_of_node : Ast → List Import
imports_of_node (module_ c _ _ is) = map (λ i. (i, c.location)) is
imports_of_node (import_ c n) = (n, c.location) ∷ []
imports_of_node _ = []

unfoldable pub imports_of_nodes : List Ast → List Import
unfolding imports_of_node
imports_of_nodes [] = []
imports_of_nodes (n ∷ ns) = imports_of_node n ++ imports_of_nodes ns

unfoldable pub module_gather_imports : Ast → List Import
unfolding visit_ast imports_of_nodes
module_gather_imports root = imports_of_nodes (visit_ast root (λ _. false))
