-- ===== src/Check.antt =====
-- The type checker: compiler/typecheck.cpp.
pub mod State
pub mod Literals
pub mod Rules
pub mod Operators
pub mod Nodes
pub mod Verify
pub mod Instances
pub mod Typing
pub mod Labels
pub mod Ensures
pub mod LiteralsHold
pub mod RulesHold
pub mod OperatorsHold
pub mod StatementsHold
pub mod Sound
pub mod Accepts
pub mod Runs
pub mod LiteralsRun
pub mod RulesRun
pub mod OperatorsRun
pub mod Complete
pub mod Passes
