-- ===== src/Miner/Delivered.antt =====
-- The miner of packages/dpow-miner-cli/src/main.rs and the hub together: the commands that `submit_proof`
-- runs for the proofs of the threads, as `execute` of contracts/hub/src/contract.rs gets them.
use liquid_staking.Base.{
  Bool, false, if◌then◌else◌, str_eq, ◌&&◌, ℕ, String, Option, none, some, List, [], ◌∷◌, ok, All,
  ◌+◌, ◌<◌, ◌≡◌, refl,
}
use liquid_staking.Uint.{u64_limit}
use liquid_staking.Chain.{Chain, Env, Response}
use liquid_staking.State.{State}
use liquid_staking.Hub.Contract.{ExecuteMsg, submit_proof, execute}
use liquid_staking.Hub.Queries.{miner_params}
use liquid_staking.Miner.Cli.{MinedProof, MinerParams}
use liquid_staking.Miner.Commands.{
  Host, submission, execute_command, get_contract_address, get_validator_address, get_miner_address,
  get_rpc_url,
}
use liquid_staking.Miner.Threads.{System, Reach, start}
use liquid_staking.Miner.Accepted.{IsMining, Succeeds, sent_proofs_accepted}

-- A transaction as `joed tx wasm execute` takes it from its command.
pub record Transaction : Type 0 where
  pub contract : String
  pub message : ExecuteMsg
  pub sender : String
  pub node : String

-- The words that stand in a command for the hub, with what is given beside them left out.
abbrev pub is_execute : List String → Bool
is_execute (joed ∷ tx ∷ wasm ∷ verb ∷ from ∷ node ∷ []) =
    str_eq joed "joed"
    && str_eq tx "tx"
    && str_eq wasm "wasm"
    && str_eq verb "execute"
    && str_eq from "--from"
    && str_eq node "--node"
is_execute words = false

-- The transaction of a command: contract and message by their places, sender and node by their flags.
abbrev pub transaction : (String → Option ExecuteMsg) → List String → Option Transaction
transaction read
      (joed ∷ tx ∷ wasm ∷ verb ∷ contract ∷ message ∷ from ∷ sender ∷ node_flag ∷ node ∷ _) =
    if is_execute (joed ∷ tx ∷ wasm ∷ verb ∷ from ∷ node_flag ∷ [])
    then (elim (read message) [
      | none ↦ none
      | some m ↦ some (record { contract = contract; message = m; sender = sender; node = node })
    ])
    else none
transaction read command = none

-- The environment of a miner, and JSON for its proofs that reads back as the message that was written.
pub record IsConfigured (h : Host) (read : String → Option ExecuteMsg)
    (contract miner validator : String) : Type 0 where
  pub node : String
  pub is_contract : h.env_var "CONTRACT_ADDRESS" ≡ some contract
  pub is_node : h.env_var "RPC_URL" ≡ some node
  pub is_miner : h.env_var "MINER_ADDRESS" ≡ some miner
  pub is_validator : h.env_var "VALIDATOR_ADDRESS" ≡ some validator
  pub reads_back :
      (nonce : ℕ)
      → (text : String) × (h.execute_to_string (submit_proof nonce validator) ≡ some text)
        × (read text ≡ some (submit_proof nonce validator))

-- The command for a proof goes to the contract, carries the nonce and the validator, and comes from the
-- miner.
submission-transaction :
    (h : Host) (read : String → Option ExecuteMsg) (contract miner validator : String)
    (proof : MinedProof) (e : IsConfigured h read contract miner validator)
    → (command : List String) × (submission h proof ≡ ok command)
      × (transaction read command
          ≡ some (record {
            contract = contract;
            message = submit_proof proof.nonce validator;
            sender = miner;
            node = e.node;
          }))
unfolding submission execute_command get_contract_address get_validator_address get_miner_address
    get_rpc_url
submission-transaction h read contract miner validator proof e =
    let (text, written, reads) = e.reads_back proof.nonce in
    (
      execute_command contract text miner e.node "text",
      rw (e.is_contract, e.is_validator, written, e.is_miner, e.is_node) refl,
      rw reads refl,
    )

-- The command for a proof is a transaction for the hub, to the node of the environment, which the hub
-- accepts.
abbrev pub Arrives : Chain → Env → Host → (String → Option ExecuteMsg) → State → MinedProof → Type 0
Arrives c env h read st proof =
    (command : List String) × (t : Transaction) × (submission h proof ≡ ok command)
    × (transaction read command ≡ some t)
    × (t.contract ≡ env.contract)
    × (h.env_var "RPC_URL" ≡ some t.node)
    × (st' : State) × (msgs : Response) × (execute c env (record { sender = t.sender; funds = [] })
          t.message st
        ≡ ok (st', msgs))

commands_delivered :
    (c : Chain) (env : Env) (h : Host) (read : String → Option ExecuteMsg)
    (miner validator : String) (st : State) (proofs : List MinedProof)
    → IsConfigured h read env.contract miner validator
    → All (λ (proof : MinedProof). Succeeds c env miner validator st proof.nonce) proofs
    → All (Arrives c env h read st) proofs
unfolding execute
commands_delivered c env h read miner validator st [] e a = tt
commands_delivered c env h read miner validator st (proof ∷ proofs) e
      ((st', msgs, accepted), rest) =
    let (command, runs, carries) =
      submission-transaction h read env.contract miner validator proof e in
    (
      (command, _, runs, carries, refl, e.is_node, st', msgs, accepted),
      commands_delivered c env h read miner validator st proofs e rest,
    )

-- From the threads of the miner to the hub: where the hub has answered them one pair of parameters
-- only and still answers it, is set up for mining at a block that is not before its last proof, and
-- its numbers have room, it accepts the transaction of each proof that they have submitted, which the
-- command addresses to it; the environment is set, with the hub's address, and the hub reads the JSON
-- that the miner writes.
pub submissions_delivered :
    (c : Chain) (env : Env) (h : Host) (read : String → Option ExecuteMsg)
    (miner validator : String) (speed threads : ℕ) (params : MinerParams) (st : State) (s : System)
    → Reach c.sha256_proof miner speed threads start s
    → All (λ (p : MinerParams). p ≡ params) s.polled
    → miner_params st ≡ ok (params.entropy, params.difficulty)
    → params.difficulty + 1 < u64_limit
    → IsMining c env validator st
    → IsConfigured h read env.contract miner validator
    → All (Arrives c env h read st) s.submitted
submissions_delivered c env h read miner validator speed threads params st s r same is_params room m
      e =
    commands_delivered c env h read miner validator st s.submitted e
      (sent_proofs_accepted c env miner validator speed threads params st s r same is_params room m)
