-- ===== src/Mangle.antt =====
-- Names of types: compiler/mangle.cpp and typeName of compiler/type.cpp.
pub mod Text
pub mod Symbols
pub mod Names
pub mod Clashes
