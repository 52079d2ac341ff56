-- ===== src/Math.antt =====
-- contracts/hub/src/math.rs: the pure computations of the hub.
pub mod Exchange
pub mod Share
pub mod Undelegate
pub mod Removal
pub mod Rebalance
pub mod Target
pub mod Deduct
pub mod Tests
