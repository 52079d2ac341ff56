-- ===== src/Hub/Mining.antt =====
-- The proof of work of contracts/hub/src/execute.rs: entropy, difficulty and mined proofs.
use text.Mathlib.Text.{starts_with}
use liquid_staking.Base.{
  ℕ, zero, suc, String, Bool, true, false, some, none, [], ◌∷◌, Result, ok, err, load, ok_or,
  unwrap_or, ◌>>=◌, ◌>>◌, if◌then◌else◌, ltb, require, ◌+◌, ◌-◌, ◌&&◌, overflow, unknown_validator,
  proof_too_weak,
}
use liquid_staking.Uint.{u128_limit, u64_limit, sub_uint}
use liquid_staking.Types.{wallet}
use liquid_staking.Store.{lookup, save, text_key}
use liquid_staking.Chain.{Env, Chain, Response, message, call_self, harvest}
use liquid_staking.State.{State}
use Prim.Native.String.{◌++◌ as append}

abbrev pub target_mining_duration_floor_seconds : ℕ
target_mining_duration_floor_seconds = 20

abbrev pub target_mining_duration_ceiling_seconds : ℕ
target_mining_duration_ceiling_seconds = 300

unfoldable pub create_difficulty_prefix : ℕ → String
create_difficulty_prefix zero = ""
create_difficulty_prefix (suc n) = append (create_difficulty_prefix n) "0"

-- `checked_add` of a `Uint64` and of a `Uint128`
abbrev pub checked_add : ℕ → ℕ → ℕ → Result ℕ
checked_add limit a b = if ltb (a + b) limit then ok (a + b) else err overflow

-- The difficulty after a mining duration, with a proof or without one.
unfoldable pub next_difficulty : ℕ → ℕ → Bool → Result ℕ
next_difficulty mining_duration difficulty did_submit_proof =
    if ltb target_mining_duration_ceiling_seconds mining_duration && ltb 1 difficulty
    then ok (difficulty - 1)
    else if ltb mining_duration target_mining_duration_floor_seconds && did_submit_proof
    then checked_add u64_limit difficulty 1
    else ok difficulty

unfoldable pub update_difficulty : ℕ → Bool → State → Result State
update_difficulty block_time did_submit_proof st = do
  last_mined ← load st.miner_last_mined_timestamp
  difficulty ← load st.miner_difficulty
  mining_duration ← sub_uint block_time last_mined
  next ← next_difficulty mining_duration difficulty did_submit_proof
  ok (record st { miner_difficulty = some next })

-- `or_else(|_| Ok(height - 1))`
abbrev pub last_mined_block : State → ℕ → Result ℕ
last_mined_block st height = elim st.miner_last_mined_block [
  | none ↦ sub_uint height 1
  | some b ↦ ok b
]

module _ (c : Chain) where
  unfoldable pub update_entropy : Env → String → State → Result (State × Response)
  update_entropy env entropy st = do
    draft ← load st.miner_entropy_draft
    st' ←
        update_difficulty env.time false
          (record st { miner_entropy_draft = some (c.sha256_pair draft entropy) })
    ok (st', [])

  unfoldable pub compute_miner_proof : String → String → ℕ → String
  compute_miner_proof miner_entropy miner_address nonce =
      c.sha256_proof miner_entropy miner_address nonce

  unfoldable pub submit_proof : Env → String → ℕ → String → State → Result (State × Response)
  submit_proof env sender nonce validator_address st = do
    found ← c.query_validator validator_address
    validator ← ok_or found unknown_validator
    miner_entropy ← load st.miner_entropy
    miner_entropy_draft ← load st.miner_entropy_draft
    fee_account_type ← load st.fee_account_type
    difficulty ← load st.miner_difficulty
    last_block ← last_mined_block st env.height
    let entropy_hash = compute_miner_proof miner_entropy sender nonce
    require (starts_with entropy_hash (create_difficulty_prefix difficulty)) proof_too_weak
    mining_duration_blocks ← sub_uint env.height last_block
    st₁ ← update_difficulty env.time true st
    power ←
        checked_add u128_limit (unwrap_or (lookup validator st.validator_mining_powers) 0)
          mining_duration_blocks
    total ← load st.total_mining_power
    total' ← checked_add u128_limit total mining_duration_blocks
    let st' = record st₁ {
      validator_mining_powers = save validator power st.validator_mining_powers;
      total_mining_power = some total';
      miner_entropy = some (c.sha256_pair miner_entropy_draft entropy_hash);
      miner_entropy_draft = some entropy_hash;
      miner_last_mined_timestamp = some env.time;
      miner_last_mined_block = some env.height;
      fee_account_type = some wallet;
      fee_account = some sender;
    }
    ok (st', message (call_self env.contract harvest) ∷ [])
