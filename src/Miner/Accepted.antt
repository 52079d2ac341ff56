-- ===== src/Miner/Accepted.antt =====
-- A miner and the hub together: what packages/dpow-browser-miner/src/lib.rs finds for the parameters
-- that the hub answers, and what the threads of packages/dpow-miner-cli/src/main.rs submit, is what
-- `submit_proof` of contracts/hub/src/execute.rs accepts.
use text.Mathlib.Text.{starts_with}
use liquid_staking.Base.{
  ℕ, String, Bool, List, [], ◌∷◌, All, true, some, ok, unwrap_or, ◌+◌, ◌-◌, ◌≤◌, ◌<◌, ◌≡◌, refl,
  sym, arith, leb, ltb, Result-cases, inl, inr, >>=-elim, load, load-eq-ok,
}
use liquid_staking.Uint.{u128_limit, u64_limit}
use liquid_staking.Types.{FeeType}
use liquid_staking.Store.{lookup, text_key}
use liquid_staking.Chain.{Env, Chain, Response}
use liquid_staking.State.{State}
use liquid_staking.Hub.Mining.{
  create_difficulty_prefix, compute_miner_proof, submit_proof, update_difficulty, next_difficulty,
}
use liquid_staking.Hub.Queries.{miner_params}
use liquid_staking.Miner.{difficulty_string, difficulty_string-eq-prefix}
use liquid_staking.Miner.Browser as Browser
use liquid_staking.Miner.Browser.{mine, mine_succeeds}
use liquid_staking.Miner.Cli.{MinedProof, MinerParams}
use liquid_staking.Miner.Threads.{System, Reach, start}
use liquid_staking.Miner.Threads.Sent.{Answers, MinedFor, submitted_backed}

-- A hub whose proof of work is set up, at a block that is not before its last proof, with room for
-- one more unit of difficulty and for the blocks since.
pub record IsMining (c : Chain) (env : Env) (address : String) (st : State) : Type 0 where
  pub validator : String
  pub draft : String
  pub kind : FeeType
  pub last_time : ℕ
  pub last_block : ℕ
  pub total : ℕ
  pub is_validator : c.query_validator address ≡ ok (some validator)
  pub is_draft : st.miner_entropy_draft ≡ some draft
  pub is_kind : st.fee_account_type ≡ some kind
  pub is_time : st.miner_last_mined_timestamp ≡ some last_time
  pub is_block : st.miner_last_mined_block ≡ some last_block
  pub is_total : st.total_mining_power ≡ some total
  pub time_order : last_time ≤ env.time
  pub block_order : last_block ≤ env.height
  pub power_fits :
      unwrap_or (lookup validator st.validator_mining_powers) 0 + env.height < u128_limit
  pub total_fits : total + env.height < u128_limit

next_difficulty-total :
    (duration d : ℕ) (proof : Bool)
    → d + 1 < u64_limit
    → (next : ℕ) × (next_difficulty duration d proof ≡ ok next)
unfolding next_difficulty
next_difficulty-total duration d proof fits =
    elim (Result-cases (next_difficulty duration d proof)) [
      | inl (next, e) ↦ (next, e)
      | inr (failed, e) ↦ absurd (ground (arith, e, fits))
    ]

update_difficulty-total :
    (t last d : ℕ) (proof : Bool) (st : State)
    → st.miner_last_mined_timestamp ≡ some last
    → st.miner_difficulty ≡ some d
    → last ≤ t
    → d + 1 < u64_limit
    → (next : ℕ) × (update_difficulty t proof st ≡ ok (record st { miner_difficulty = some next }))
unfolding update_difficulty
update_difficulty-total t last d proof st e e' le fits =
    let (next, q) = next_difficulty-total (t - last) d proof fits in
    let in_order : leb last t ≡ true = ground (arith, le) in (next, rw (e, e', in_order, q) refl)

params_inv :
    (st : State) (entropy : String) (difficulty : ℕ)
    → miner_params st ≡ ok (entropy, difficulty)
    → (st.miner_entropy ≡ some entropy) × (st.miner_difficulty ≡ some difficulty)
unfolding miner_params
params_inv st entropy difficulty h = >>=-elim (load st.miner_entropy) _ h λ a e h₁.
    >>=-elim (load st.miner_difficulty) _ h₁ λ b e₁ h₂.
      let first : a ≡ entropy = ground (arith, h₂) in
      let second : b ≡ difficulty = ground (arith, h₂) in
      (rw first at (load-eq-ok _ e), rw second at (load-eq-ok _ e₁))

-- `submit_proof` succeeds.
abbrev pub Succeeds : Chain → Env → String → String → State → ℕ → Type 0
Succeeds c env miner address st nonce =
    (st' : State) × (msgs : Response) × (submit_proof c env miner nonce address st ≡ ok (st', msgs))

-- The hub accepts a nonce whose digest has the prefix.
submit_proof_accepts :
    (c : Chain) (env : Env) (miner address entropy : String) (difficulty nonce : ℕ) (st : State)
    → miner_params st ≡ ok (entropy, difficulty)
    → starts_with (c.sha256_proof entropy miner nonce) (difficulty_string difficulty) ≡ true
    → difficulty + 1 < u64_limit
    → IsMining c env address st
    → Succeeds c env miner address st nonce
unfolding submit_proof compute_miner_proof
submit_proof_accepts c env miner address entropy difficulty nonce st params meets room m =
    let (is_entropy, is_difficulty) = params_inv st entropy difficulty params in
    let accepts : starts_with (c.sha256_proof entropy miner nonce)
          (create_difficulty_prefix difficulty)
        ≡ true =
      rw (sym (difficulty_string-eq-prefix difficulty)) meets in
    let (next, adjusts) =
      update_difficulty-total env.time m.last_time difficulty true st m.is_time is_difficulty
        m.time_order room in
    let in_order : leb m.last_block env.height ≡ true = ground (arith, m.block_order) in
    let power = unwrap_or (lookup m.validator st.validator_mining_powers) 0 in
    let blocks = env.height - m.last_block in
    let power_room : ltb (power + blocks) u128_limit ≡ true = ground (arith, m.power_fits) in
    let total_room : ltb (m.total + blocks) u128_limit ≡ true = ground (arith, m.total_fits) in
    elim (Result-cases (submit_proof c env miner nonce address st)) [
      | inl ((st', msgs), e) ↦ (st', msgs, e)
      | inr (failed, e) ↦
          let e' =
            rw
              (
                adjusts, m.is_validator, is_entropy, m.is_draft, m.is_kind, is_difficulty,
                m.is_block, in_order, accepts, power_room, m.is_total, total_room,
              )
              at e in
          absurd cc
    ]

-- A nonce that the browser's miner reports as a success, for the entropy and the difficulty that the
-- hub answers, is accepted by a hub that is in the same state, if that is set up for mining, at a
-- block that is not before its last proof, and its numbers have room.
pub mined_proof_accepted :
    (c : Chain) (env : Env) (miner address entropy : String) (difficulty start_nonce max_tries : ℕ)
    (st : State) (proof : Browser.MinedProof)
    → miner_params st ≡ ok (entropy, difficulty)
    → mine c.sha256_proof entropy miner difficulty start_nonce max_tries ≡ some (ok proof)
    → proof.success ≡ true
    → start_nonce + max_tries < u64_limit
    → difficulty + 1 < u64_limit
    → IsMining c env address st
    → Succeeds c env miner address st proof.nonce
mined_proof_accepted c env miner address entropy difficulty start_nonce max_tries st proof params
      found good fits room m =
    submit_proof_accepts c env miner address entropy difficulty proof.nonce st params
      (mine_succeeds c.sha256_proof entropy miner difficulty start_nonce max_tries proof found fits
        good)
      room m

backed_accepted :
    (c : Chain) (env : Env) (miner address : String) (params : MinerParams) (st : State)
    (polled : List MinerParams) (proof : MinedProof)
    → All (λ (p : MinerParams). p ≡ params) polled
    → MinedFor c.sha256_proof miner polled proof
    → miner_params st ≡ ok (params.entropy, params.difficulty)
    → params.difficulty + 1 < u64_limit
    → IsMining c env address st
    → Succeeds c env miner address st proof.nonce
backed_accepted c env miner address params st [] proof same b is_params room m = absurd b
backed_accepted c env miner address params st (p ∷ ps) proof (e, same) (inl a) is_params room m =
    let a' : Answers c.sha256_proof miner proof params = rw e at a in
    submit_proof_accepts c env miner address params.entropy params.difficulty proof.nonce st
      is_params (rw (a'.digest) at a'.prefix) room m
backed_accepted c env miner address params st (p ∷ ps) proof (e, same) (inr b) is_params room m =
    backed_accepted c env miner address params st ps proof same b is_params room m

proofs_accepted :
    (c : Chain) (env : Env) (miner address : String) (params : MinerParams) (st : State)
    (polled : List MinerParams) (proofs : List MinedProof)
    → All (λ (p : MinerParams). p ≡ params) polled
    → All (MinedFor c.sha256_proof miner polled) proofs
    → miner_params st ≡ ok (params.entropy, params.difficulty)
    → params.difficulty + 1 < u64_limit
    → IsMining c env address st
    → All (λ (proof : MinedProof). Succeeds c env miner address st proof.nonce) proofs
proofs_accepted c env miner address params st polled [] same b is_params room m = tt
proofs_accepted c env miner address params st polled (proof ∷ proofs) same (b, bs) is_params room
      m =
    (
      backed_accepted c env miner address params st polled proof same b is_params room m,
      proofs_accepted c env miner address params st polled proofs same bs is_params room m,
    )

-- Where the threads of the miner of the command line have been answered one pair of parameters only,
-- and a hub that is set up for mining still answers it, the hub accepts each of the proofs that they
-- have submitted, at a block that is not before its last proof, if its numbers have room.
pub sent_proofs_accepted :
    (c : Chain) (env : Env) (miner address : String) (speed threads : ℕ) (params : MinerParams)
    (st : State) (s : System)
    → Reach c.sha256_proof miner speed threads start s
    → All (λ (p : MinerParams). p ≡ params) s.polled
    → miner_params st ≡ ok (params.entropy, params.difficulty)
    → params.difficulty + 1 < u64_limit
    → IsMining c env address st
    → All (λ (proof : MinedProof). Succeeds c env miner address st proof.nonce) s.submitted
sent_proofs_accepted c env miner address speed threads params st s r same is_params room m =
    proofs_accepted c env miner address params st s.polled s.submitted same
      (submitted_backed c.sha256_proof miner speed threads s r) is_params room m
