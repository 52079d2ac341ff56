-- ===== src/Hub/Instantiate.antt =====
-- `instantiate` of contracts/hub/src/execute.rs, on the storage of a new contract. The name, symbol,
-- decimals, label and marketing of the token, which the code only hands on, are left out.
use liquid_staking.Base.{
  ℕ, String, some, none, List, [], ◌∷◌, Result, ok, ◌>>=◌, ◌>>◌, leb, require, max_fee_too_high,
  fee_above_max,
}
use liquid_staking.Uint.{add_u64, decimal_fractional}
use liquid_staking.Types.{PendingBatch}
use liquid_staking.Chain.{Env, Chain, Response, reply_on_success, instantiate_token}
use liquid_staking.State.{State}
use liquid_staking.Hub.Ownership.{fee_type_of}

pub record InstantiateMsg : Type 0 where
  pub cw20_code_id : ℕ
  pub owner : String
  pub epoch_period : ℕ
  pub unbond_period : ℕ
  pub validators : List String
  pub denom : String
  pub fee_account_type : String
  pub fee_account : String
  pub fee_amount : ℕ
  pub max_fee_amount : ℕ

-- `REPLY_INSTANTIATE_TOKEN`
abbrev pub reply_instantiate_token : ℕ
reply_instantiate_token = 1

-- The storage of a new contract.
abbrev pub no_state : State
no_state = record {
  owner = none;
  new_owner = none;
  fee_account_type = none;
  fee_account = none;
  fee_rate = none;
  max_fee_rate = none;
  denom = none;
  steak_token = none;
  epoch_period = none;
  unbond_period = none;
  validators = none;
  unlocked_coins = none;
  pending_batch = none;
  previous_batches = [];
  unbond_requests = [];
  validators_active = none;
  prev_denom = none;
  miner_entropy = none;
  miner_entropy_draft = none;
  miner_difficulty = none;
  miner_last_mined_timestamp = none;
  miner_last_mined_block = none;
  validator_mining_powers = [];
  total_mining_power = none;
}

module _ (c : Chain) where
  unfoldable pub instantiate : Env → InstantiateMsg → State → Result (State × Response)
  instantiate env msg st = do
    require (leb msg.max_fee_amount decimal_fractional) max_fee_too_high
    require (leb msg.fee_amount msg.max_fee_amount) fee_above_max
    fee_type ← fee_type_of msg.fee_account_type
    owner ← c.addr_validate msg.owner
    fee_account ← c.addr_validate msg.fee_account
    start_time ← add_u64 env.time msg.epoch_period
    let pending : PendingBatch = record {
      id = 1;
      usteak_to_burn = 0;
      est_unbond_start_time = start_time;
    }
    let st' = record st {
      owner = some owner;
      epoch_period = some msg.epoch_period;
      unbond_period = some msg.unbond_period;
      validators = some msg.validators;
      unlocked_coins = some [];
      prev_denom = some 0;
      denom = some msg.denom;
      max_fee_rate = some msg.max_fee_amount;
      fee_rate = some msg.fee_amount;
      fee_account_type = some fee_type;
      fee_account = some fee_account;
      pending_batch = some pending;
      validators_active = some msg.validators;
      miner_entropy = some env.contract;
      miner_entropy_draft = some env.contract;
      miner_difficulty = some 1;
      miner_last_mined_timestamp = some env.time;
      miner_last_mined_block = some env.height;
      total_mining_power = some 0;
    }
    ok (
      st',
      reply_on_success (instantiate_token msg.owner msg.cw20_code_id env.contract)
            reply_instantiate_token
          ∷ [],
    )
