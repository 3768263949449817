-- ===== src/Mitm.antt =====
-- The parts of core/crates/mitm that keep a state of their own.
pub mod Throttle
pub mod Flight
pub mod Tests
