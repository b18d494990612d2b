-- ===== src/Guestd.antt =====
-- crates/guestd: the supervisor inside each VM.
pub mod Channel
pub mod Framing
pub mod Guest
pub mod Wrap
pub mod Clock
pub mod Daemon
mod Examples
