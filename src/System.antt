-- ===== src/System.antt =====
-- The crates together: one guest behind the link of its host.
pub mod Session
pub mod Fleet
mod Examples
