-- ===== src/Proto.antt =====
-- crates/proto: the public contract that every other crate depends on.
pub mod Ids
pub mod Vsock
pub mod Fsm
pub mod Compat
pub mod Lines
pub mod Wire
mod Examples
