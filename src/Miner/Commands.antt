-- ===== src/Miner/Commands.antt =====
-- packages/dpow-miner-cli/src/main.rs: the commands that the miner runs, and the environment that it
-- reads. What runs a command, reads and writes JSON, and holds the environment is a parameter;
-- sleeping, printing and the text that `update_entropy` draws at random stand outside.

use liquid_staking.Base.{
  ℕ, String, Bool, Option, List, [], ◌∷◌, Result, ok, err, ok_or, ◌>>=◌, if◌then◌else◌, ltb, panic,
  not_encoded, bad_json, missing_data, not_run,
}
use liquid_staking.Uint.{u64_limit}
use liquid_staking.Text.{parse_u128}
use liquid_staking.Hub.Contract as Contract
use liquid_staking.Hub.Contract.{ExecuteMsg}
use liquid_staking.Hub.Queries.Dispatch as Dispatch
use liquid_staking.Hub.Queries.Dispatch.{QueryMsg}
use liquid_staking.Miner.Cli.{MinedProof, MinerParams}

-- What a finished process leaves, its texts as they are read.
pub record Output : Type 0 where
  pub success : Bool
  pub stdout : String
  pub stderr : String

-- The machine: the environment, processes (`none` where one cannot be run) and `serde_json`, with its
-- type of values.
pub record Host : Type 1 where
  pub Value : Type 0
  pub env_var : String → Option String
  pub output : List String → Option Output
  -- `jq` on a text
  pub jq : String → Result Output
  pub query_to_string : QueryMsg → Option String
  pub execute_to_string : ExecuteMsg → Option String
  pub value_from_str : String → Option Value
  pub get : Value → String → Option Value
  pub params_from_value : Value → Option MinerParams

-- `parse::<u64>().unwrap()`
abbrev within_u64 : Result ℕ → Result ℕ
within_u64 (err e) = err panic
within_u64 (ok n) = if ltb n u64_limit then ok n else err panic

unfoldable pub parse_u64 : String → Result ℕ
unfolding within_u64
parse_u64 s = within_u64 (parse_u128 s)

-- The options behind each transaction, up to the format of the output.
abbrev fees : List String → List String
fees rest =
    "--chain-id" ∷ "joe-1" ∷ "--gas" ∷ "auto" ∷ "--gas-adjustment" ∷ "1.5" ∷ "--gas-prices"
    ∷ "0.025ujoe" ∷ "--fees" ∷ "0.025ujoe" ∷ "--broadcast-mode" ∷ "block" ∷ "-y" ∷ "--output" ∷ rest

-- `joed tx wasm execute` with the contract, the message, the sender and the node.
unfoldable pub execute_command : String → String → String → String → String → List String
unfolding fees
execute_command contract message sender node format =
    "joed"
    ∷ "tx"
    ∷ "wasm"
    ∷ "execute"
    ∷ contract
    ∷ message
    ∷ "--from"
    ∷ sender
    ∷ "--node"
    ∷ node
    ∷ fees (format ∷ [])

-- `joed q wasm contract-state smart` with the contract, the query and the node.
unfoldable pub query_command : String → String → String → List String
query_command contract query node =
    "joed" ∷ "q" ∷ "wasm" ∷ "contract-state" ∷ "smart" ∷ contract ∷ query ∷ "--node" ∷ node
    ∷ "--chain-id" ∷ "joe-1" ∷ "--output" ∷ "json" ∷ []

module _ (h : Host) where
  open h use {
    env_var, output, jq, query_to_string, execute_to_string, value_from_str, get, params_from_value,
  }

  -- `std::env::var(name).unwrap()`
  unfoldable pub get_var : String → Result String
  get_var name = ok_or (env_var name) panic

  unfoldable pub get_miner_address : Result String
  unfolding get_var
  get_miner_address = get_var "MINER_ADDRESS"

  unfoldable pub get_validator_address : Result String
  unfolding get_var
  get_validator_address = get_var "VALIDATOR_ADDRESS"

  unfoldable pub get_contract_address : Result String
  unfolding get_var
  get_contract_address = get_var "CONTRACT_ADDRESS"

  unfoldable pub get_rpc_url : Result String
  unfolding get_var
  get_rpc_url = get_var "RPC_URL"

  unfoldable pub get_speed_as_int : Result ℕ
  unfolding get_var
  get_speed_as_int = get_var "SPEED" >>= parse_u64

  unfoldable pub get_thread_count_as_int : Result ℕ
  unfolding get_var
  get_thread_count_as_int = get_var "THREAD_COUNT" >>= parse_u64

  unfoldable pub poll_miner_params : Result MinerParams
  poll_miner_params = do
    contract ← get_contract_address
    query ← ok_or (query_to_string Dispatch.miner_params) not_encoded
    node ← get_rpc_url
    joed ← ok_or (output (query_command contract query node)) panic
    parsed ← ok_or (value_from_str joed.stdout) bad_json
    found ← ok_or (get parsed "data") missing_data
    ok_or (params_from_value found) bad_json

  -- The command that `submit_proof` runs.
  unfoldable pub submission : MinedProof → Result (List String)
  submission proof = do
    contract ← get_contract_address
    validator ← get_validator_address
    message ← ok_or (execute_to_string (Contract.submit_proof proof.nonce validator)) panic
    sender ← get_miner_address
    node ← get_rpc_url
    ok (execute_command contract message sender node "text")

  unfoldable pub submit_proof : MinedProof → Result (Unit {0})
  submit_proof proof = do command ← submission proof; _ ← ok_or (output command) panic; ok tt

  -- What `jq` makes of the output of a transaction that went through.
  abbrev formatted : Output → Result Output
  formatted joed = if joed.success then jq joed.stdout else ok joed

  unfoldable pub update_entropy : String → Result String
  unfolding formatted
  update_entropy entropy = do
    contract ← get_contract_address
    message ← ok_or (execute_to_string (Contract.update_entropy entropy)) not_encoded
    sender ← get_miner_address
    node ← get_rpc_url
    joed ← ok_or (output (execute_command contract message sender node "json")) not_run
    _ ← formatted joed
    ok entropy
