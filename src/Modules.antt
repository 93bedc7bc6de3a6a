-- ===== src/Modules.antt =====
-- The order in which modules are compiled: compiler/modules.cpp.
pub mod Graph
pub mod Sort
pub mod Circular
pub mod Endless
pub mod Order
pub mod Depth
pub mod Acyclic
pub mod Ending
pub mod Paths
pub mod Load
pub mod Loading
pub mod Waiting
pub mod Ready
