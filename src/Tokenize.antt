-- ===== src/Tokenize.antt =====
-- Source text to tokens: compiler/tokenize.hpp and compiler/tokenize.cpp.
pub mod Defs
pub mod Lexer
pub mod Lines
pub mod Brackets
pub mod Newlines
pub mod Whole
pub mod Ends
pub mod Total
pub mod Nesting
pub mod Marks
pub mod Placed
