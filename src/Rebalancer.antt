-- ===== src/Rebalancer.antt =====
-- crates/rebalancer: the decision which VM to move where, and the driver that moves it.
pub mod Placement
pub mod Executor
pub mod Driver
pub mod Control
pub mod Client
mod Examples
