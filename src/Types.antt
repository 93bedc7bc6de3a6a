-- ===== src/Types.antt =====
-- Types of the language: compiler/type.hpp and compiler/type.cpp.
pub mod Syntax
pub mod Traverse
pub mod Unify
pub mod Rewrite
pub mod Content
pub mod Equality
pub mod Growth
pub mod Solutions
pub mod Soundness
pub mod Cycles
pub mod Meaning
pub mod Termination
pub mod Reading
