-- ===== src/Filter/Rules.antt =====
-- The host rules of core/crates/filter/src/domain_rules.rs. A line is a list of code points, and
-- so is a name that is kept, which is ASCII.
pub mod Names
pub mod Lines
pub mod Builder
pub mod Limits
pub mod Stored
pub mod Invariants
pub mod Kept
pub mod Spared
pub mod Exempted
pub mod Children
pub mod Keeping
pub mod Noted
pub mod Bounds
