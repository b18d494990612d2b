-- ===== src/Harness.antt =====
-- crates/harness: the simulation that searches for a violation of the race rule.
pub mod Rng
pub mod Chaos
mod Examples
