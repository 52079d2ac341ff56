-- ===== src/Hub/Tests.antt =====
-- Runs of the hub at concrete inputs.
pub mod Sample
mod Unbonding
mod Staking
mod Roles
mod Walks
mod Orders
mod Closings
mod Flow
