-- ===== src/Tree.antt =====
-- The syntax tree and the walk over it: compiler/ast.hpp, compiler/visit.cpp, and the imports that
-- compiler/modules.cpp gathers.
pub mod Ast
pub mod Visit
pub mod Within
pub mod Reaching
pub mod Walks
