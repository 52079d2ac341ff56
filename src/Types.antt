-- ===== src/Types.antt =====
-- contracts/hub/src/types/staking.rs and the stored types of packages/steak/src/hub.rs. A `u64`, a
-- `u128` or a `Uint128` is a native number; a `Decimal` is its number of atoms (10^18 to the whole).
use liquid_staking.Base.{ℕ, String, Bool}

pub record Delegation : Type 0 where
  pub validator : String
  pub amount : ℕ
  pub denom : String

pub record Undelegation : Type 0 where
  pub validator : String
  pub amount : ℕ
  pub denom : String

pub record Redelegation : Type 0 where
  pub src : String
  pub dst : String
  pub amount : ℕ
  pub denom : String

-- `cosmwasm_std::Coin`
pub record Coin : Type 0 where
  pub denom : String
  pub amount : ℕ

pub record PendingBatch : Type 0 where
  pub id : ℕ
  pub usteak_to_burn : ℕ
  pub est_unbond_start_time : ℕ

pub record Batch : Type 0 where
  pub id : ℕ
  pub reconciled : Bool
  pub total_shares : ℕ
  pub amount_unclaimed : ℕ
  pub est_unbond_end_time : ℕ

pub record UnbondRequest : Type 0 where
  pub id : ℕ
  pub user : String
  pub shares : ℕ

pub data FeeType : Type 0 where
  wallet fee_split : FeeType

pub record UnbondRequestsByBatchResponseItem : Type 0 where
  pub user : String
  pub shares : ℕ

pub record UnbondRequestsByUserResponseItem : Type 0 where
  pub id : ℕ
  pub shares : ℕ

pub record ValidatorMiningPower : Type 0 where
  pub address : String
  pub mining_power : ℕ
