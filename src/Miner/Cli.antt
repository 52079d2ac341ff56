-- ===== src/Miner/Cli.antt =====
-- packages/dpow-miner-cli/src/main.rs: `mine`, and the worker threads that call it. What the other
-- threads write to the shared `State` is a list of observations, one for each round of the loop and
-- one for the flag that a worker reads before it submits. Sleeping and printing are left out.
pub mod Met
pub mod Ascending
use text.Mathlib.Text.{starts_with}
use liquid_staking.Base.{
  ℕ, zero, suc, String, Bool, true, false, Option, none, some, List, [], ◌∷◌, Result, ok, err,
  panic, ◌>>=◌, if◌then◌else◌, ltb, not, ◌&&◌, ◌||◌, ◌==◌, ◌+◌, ◌*◌, ◌%◌, ◌^◌, ◌≤◌, ◌<◌, ◌≡◌, refl,
  arith, inl, inr, Bool-cases, >>=-elim, ◌⊎◌, Result-cases, length,
}
use native.Mathlib.Nat.{mod-eq_of_lt}
use liquid_staking.Uint.{add_u64, sub_uint, u64_limit}
use liquid_staking.Miner.{difficulty_string}

pub record MinedProof : Type 0 where
  pub nonce : ℕ
  pub hash : String
  pub success : Bool

-- The answer to the hub's query `miner_params`.
pub record MinerParams : Type 0 where
  pub entropy : String
  pub difficulty : ℕ

-- The shared state, as it is read.
pub record Shared : Type 0 where
  pub miner_params : MinerParams
  pub tx_in_flight : Bool
  pub miner_params_loaded : Bool

-- What one round of the loop ends in: `continue` after a wait, `return`, or the next nonce.
pub data Round : Type 0 where
  wait : Round
  return : MinedProof → Round
  next : ℕ → Round

-- `a * b` and `a % b` of `u64`
abbrev pub mul_u64 : ℕ → ℕ → Result ℕ
mul_u64 a b = if ltb (a * b) u64_limit then ok (a * b) else err panic

abbrev pub rem_u64 : ℕ → ℕ → Result ℕ
rem_u64 a b = if b == 0 then err panic else ok (a % b)

-- What `mine` computes from the speed: the delay, which may underflow, and how often it comes.
unfoldable pub delay_increment_of : ℕ → Result ℕ
delay_increment_of speed = do _ ← sub_uint 1000 speed; mul_u64 speed 100

module _ (sha256_proof : String → String → ℕ → String) (miner_address : String) where
  -- The test of one nonce.
  unfoldable pub attempt : ℕ → MinerParams → Round
  attempt nonce params =
      let entropy_hash = sha256_proof params.entropy miner_address nonce in
      if starts_with entropy_hash (difficulty_string params.difficulty)
      then return (record { nonce = nonce; hash = entropy_hash; success = true })
      else next ((nonce + 1) % u64_limit)

  unfoldable pub round : ℕ → ℕ → Shared → Result Round
  unfolding attempt
  round delay_increment nonce state = do
    _ ← rem_u64 nonce delay_increment
    if state.tx_in_flight || not state.miner_params_loaded
        then ok wait
        else ok (attempt nonce state.miner_params)

  -- The proof and the observations that are left; `none` where they run out before a proof is found.
  unfoldable pub mine_loop : ℕ → ℕ → List Shared → Option (Result (MinedProof × List Shared))
  mine_loop delay_increment nonce [] = none
  mine_loop delay_increment nonce (state ∷ states) = elim (round delay_increment nonce state) [
    | err e ↦ some (err e)
    | ok wait ↦ mine_loop delay_increment nonce states
    | ok (return proof) ↦ some (ok (proof, states))
    | ok (next n) ↦ mine_loop delay_increment n states
  ]

  -- The loop of `mine`, with what it computes from the speed before.
  unfoldable pub mine : ℕ → ℕ → List Shared → Option (Result (MinedProof × List Shared))
  mine speed start_nonce states = elim (delay_increment_of speed) [
    | err e ↦ some (err e)
    | ok delay_increment ↦ mine_loop delay_increment start_nonce states
  ]

  -- What follows a call of `mine` in a worker, `more` being the rounds to come: the shared flag is
  -- read once more before the proof is submitted. A call that fails is a panic; one that is still
  -- running submits nothing.
  abbrev pub submit_and_go_on :
      (ℕ → List Shared → Result (List MinedProof))
      → Option (Result (MinedProof × List Shared))
      → Result (List MinedProof)
  submit_and_go_on more none = ok []
  submit_and_go_on more (some (err e)) = err e
  submit_and_go_on more (some (ok (proof, []))) = ok []
  submit_and_go_on more (some (ok (proof, state ∷ rest))) = more proof.nonce rest >>= λ proofs.
      if proof.success && not state.tx_in_flight then ok (proof ∷ proofs) else ok proofs

  -- What a worker submits in so many rounds of its loop.
  unfoldable pub worker_loop : ℕ → ℕ → ℕ → List Shared → Result (List MinedProof)
  worker_loop zero speed last_nonce states = ok []
  worker_loop (suc rounds) speed last_nonce states = do
    start_nonce ← add_u64 last_nonce 1
    submit_and_go_on (worker_loop rounds speed) (mine speed start_nonce states)

  -- Worker `i`, which starts after the nonce i * 10 ^ 11.
  unfoldable pub worker : ℕ → ℕ → ℕ → List Shared → Result (List MinedProof)
  worker rounds speed i states = do
    last_nonce ← mul_u64 i (10 ^ 11)
    worker_loop rounds speed last_nonce states
