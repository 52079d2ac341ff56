-- ===== src/State.antt =====
-- contracts/hub/src/state.rs: the storage of the hub. An `Item` is an `Option`: `none` before it is
-- first saved and after it is removed.
use liquid_staking.Base.{
  ℕ, String, Option, List, Result, unauthorized_owner, load, ◌>>=◌, str_eq, require,
}
use liquid_staking.Types.{Coin, FeeType, PendingBatch, Batch, UnbondRequest}

pub record State : Type 0 where
  pub owner : Option String
  pub new_owner : Option String
  pub fee_account_type : Option FeeType
  pub fee_account : Option String
  pub fee_rate : Option ℕ
  pub max_fee_rate : Option ℕ
  pub denom : Option String
  pub steak_token : Option String
  pub epoch_period : Option ℕ
  pub unbond_period : Option ℕ
  pub validators : Option (List String)
  pub unlocked_coins : Option (List Coin)
  pub pending_batch : Option PendingBatch
  pub previous_batches : List (ℕ × Batch)
  pub unbond_requests : List ((ℕ × String) × UnbondRequest)
  pub validators_active : Option (List String)
  pub prev_denom : Option ℕ
  pub miner_entropy : Option String
  pub miner_entropy_draft : Option String
  pub miner_difficulty : Option ℕ
  pub miner_last_mined_timestamp : Option ℕ
  pub miner_last_mined_block : Option ℕ
  pub validator_mining_powers : List (String × ℕ)
  pub total_mining_power : Option ℕ

-- `State::assert_owner`
unfoldable pub assert_owner : State → String → Result (Unit {0})
assert_owner st sender = do owner ← load st.owner; require (str_eq sender owner) unauthorized_owner
