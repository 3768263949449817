-- ===== src/Policy.antt =====
-- core/crates/policy: which connections the proxy may intercept, and how pins are learned.
pub mod Tests
pub mod Pattern
pub mod PatternSet
pub mod Times
pub mod PerSecond
pub mod Learning
pub mod Refusals
pub mod Decisions
