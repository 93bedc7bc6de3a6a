-- ===== src/Resolve.antt =====
-- Name and member resolution: compiler/resolve.cpp.
pub mod NameMap
pub mod Scopes
pub mod Members
pub mod InRange
pub mod TypeNames
pub mod Fields
pub mod Visits
pub mod Settled
pub mod Again
