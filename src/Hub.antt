-- ===== src/Hub.antt =====
-- contracts/hub/src/execute.rs and contract.rs: the handlers of the hub.
pub mod Unbond
pub mod Reconcile
pub mod Withdraw
pub mod Ledger
pub mod Accounting
pub mod Bond
pub mod Reinvest
pub mod Validators
pub mod Ownership
pub mod Mining
pub mod Instantiate
pub mod Contract
pub mod Kept
pub mod Effect
pub mod Difficulty
pub mod Invariant
pub mod Choices
pub mod Guards
pub mod Tests
pub mod Queries
pub mod Replies
pub mod Migrate
pub mod Staking
