-- ===== src/Hostd.antt =====
-- crates/hostd: the daemon on each host.
pub mod Quiesce
pub mod Drain
pub mod Firecracker
pub mod Vm
pub mod Transfer
pub mod Uffd
pub mod GuestLink
pub mod Net
pub mod Migrate
pub mod Restore
pub mod Source
pub mod Daemon
pub mod Registry
mod Examples
