-- ===== src/Chain.antt =====
-- What the hub takes from the chain that runs it: the block, the answers to its queries, address
-- checks, SHA-256, and the messages that it sends. Messages stand for what
-- contracts/hub/src/types/staking.rs and contracts/hub/src/helpers.rs encode into bytes.
use liquid_staking.Base.{ℕ, String, Option, List, Result}
use liquid_staking.Uint.{CosmwasmMath}
use liquid_staking.Types.{Delegation, Undelegation, Redelegation, Coin}

-- `Env`: the time of the block in seconds, its height, and the address of the contract.
pub record Env : Type 0 where
  pub time : ℕ
  pub height : ℕ
  pub contract : String

-- The queries of one call, `deps.querier` and `deps.api`, and the hash function. A delegation is
-- asked for by delegator and validator, a balance by account and denomination.
pub record Chain : Type 0 where
  pub math : CosmwasmMath
  pub query_delegation : String → String → Result (Option ℕ)
  pub query_all_delegations : String → Result (List String)
  pub query_validator : String → Result (Option String)
  pub query_balance : String → String → Result ℕ
  pub query_total_supply : String → Result ℕ
  pub addr_validate : String → Result String
  -- The hexadecimal SHA-256 digest of two texts, and of two texts and eight bytes of a number.
  pub sha256_pair : String → String → String
  pub sha256_proof : String → String → ℕ → String

-- The messages that a contract sends to itself.
pub data SelfCall : Type 0 where
  submit_batch harvest reinvest : SelfCall

pub data Msg : Type 0 where
  delegate : Delegation → Msg
  undelegate : Undelegation → Msg
  redelegate : Redelegation → Msg
  withdraw_reward : String → Msg
  -- token, recipient, amount
  mint : String → String → ℕ → Msg
  -- token, amount
  burn : String → ℕ → Msg
  -- recipient, coin
  bank_send : String → Coin → Msg
  fee_split_deposit : String → Coin → Msg
  -- administrator, code id, minter
  instantiate_token : String → ℕ → String → Msg
  call_self : String → SelfCall → Msg

-- `Response::add_message`, and `SubMsg::reply_on_success` with the id of the reply.
pub data SubMsg : Type 0 where
  message : Msg → SubMsg
  reply_on_success : Msg → ℕ → SubMsg

abbrev pub Response : Type 0
Response = List SubMsg
