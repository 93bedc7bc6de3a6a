-- ===== src/Parse.antt =====
-- Tokens to the syntax tree: compiler/parse.hpp and compiler/parse.cpp.
pub mod Stream
pub mod Types
pub mod Layout
pub mod Operators
pub mod Terms
pub mod Statements
pub mod Whole
pub mod Steps
pub mod Eating
pub mod LoopEnds
pub mod TypeEnds
pub mod LayoutEnds
pub mod TermEnds
pub mod MemberEnds
pub mod PartEnds
pub mod StatementEnds
pub mod OperatorEnds
pub mod Priority
pub mod Grouping
pub mod Numbers
pub mod Indentation
pub mod Total
pub mod Front
