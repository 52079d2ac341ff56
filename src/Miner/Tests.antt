-- ===== src/Miner/Tests.antt =====
-- Runs of the miners in packages/dpow-browser-miner/src/lib.rs, packages/dpow-miner-cli/src/main.rs
-- and packages/dpow-hash/src/miner.rs.
use text.Mathlib.Text.{starts_with}
use liquid_staking.Base.{
  ℕ, String, Bool, true, false, some, List, [], ◌∷◌, ok, err, panic, ◌*◌, ◌^◌, ◌≤◌, ◌≡◌, refl,
  arith, ◌==◌, ◌-◌, ◌||◌, if◌then◌else◌, ◌⊎◌,
}
use liquid_staking.Chain.{Response}
use liquid_staking.State.{State}
use liquid_staking.Types.{wallet}
use liquid_staking.Hub.Mining as Mining
use liquid_staking.Hub.Queries.{miner_params}
use liquid_staking.Hub.Tests.Sample.{chain, late, hub}
use liquid_staking.Miner.{difficulty_string}
use liquid_staking.Miner.Browser as Browser
use liquid_staking.Miner.Cli as Cli
use liquid_staking.Miner.Cli.Ascending as Ascending
use liquid_staking.Miner.Pow as Pow
use liquid_staking.Miner.Accepted as Accepted

-- A digest that starts with a zero every fifth time.
abbrev digest : String → String → ℕ → String
digest entropy address nonce = if nonce == 5 || nonce == 7 then "0f" else "f0"

abbrev fifth : Browser.MinedProof
fifth = record { nonce = 5; hash = "0f"; success = true }

mine_run : Browser.mine digest "aa" "ann" 1 3 10 ≡ some (ok fifth)
unfolding Browser.mine Browser.mine_loop Browser.round difficulty_string
mine_run = refl

-- Two tries are too few.
mine_gives_up :
    Browser.mine digest "aa" "ann" 1 2 2
    ≡ some (ok (record { nonce = 4; hash = "f0"; success = false }))
unfolding Browser.mine Browser.mine_loop Browser.round difficulty_string
mine_gives_up = refl

-- The last nonce cannot be followed by another.
mine_overflows : Browser.mine digest "aa" "ann" 1 (2 ^ 64 - 2) 5 ≡ some (err panic)
unfolding Browser.mine Browser.mine_loop Browser.round difficulty_string
mine_overflows = refl

mine_returns_example :
    (proof : Browser.MinedProof) × (Browser.mine digest "aa" "ann" 1 3 10 ≡ some (ok proof))
    × (3 ≤ proof.nonce)
    × (proof.nonce ≤ 13)
    × (proof.hash ≡ digest "aa" "ann" proof.nonce)
    × (proof.success ≡ starts_with proof.hash (difficulty_string 1))
    × ((proof.success ≡ true) ⊎ (proof.nonce ≡ 13))
mine_returns_example = Browser.mine_returns digest "aa" "ann" 1 3 10 (omega arith)

abbrev zeroth : Browser.MinedProof
zeroth = record { nonce = 8; hash = "0f"; success = true }

mined_run : Browser.mine chain.sha256_proof "aa" "ann" 1 8 4 ≡ some (ok zeroth)
unfolding Browser.mine Browser.mine_loop Browser.round difficulty_string
mined_run = refl

params_run : miner_params hub ≡ ok ("aa", 1)
unfolding miner_params
params_run = refl

pub hub-IsMining : Accepted.IsMining chain late "alpha" hub
hub-IsMining = record {
  validator = "alpha";
  draft = "bb";
  kind = wallet;
  last_time = 990;
  last_block = 30;
  total = 30;
  is_validator = refl;
  is_draft = refl;
  is_kind = refl;
  is_time = refl;
  is_block = refl;
  is_total = refl;
  time_order = omega arith;
  block_order = omega arith;
  power_fits = omega arith;
  total_fits = omega arith;
}

mined_proof_accepted_example :
    (st' : State) × (msgs : Response) × (Mining.submit_proof chain late "ann" 8 "alpha" hub
      ≡ ok (st', msgs))
mined_proof_accepted_example =
    Accepted.mined_proof_accepted chain late "ann" "alpha" "aa" 1 8 4 hub zeroth params_run
      mined_run refl (omega arith) (omega arith) hub-IsMining

abbrev shared : Bool → Bool → Cli.Shared
shared in_flight loaded = record {
  miner_params = record { entropy = "aa"; difficulty = 1 };
  tx_in_flight = in_flight;
  miner_params_loaded = loaded;
}

abbrev always : String → String → ℕ → String
always entropy address nonce = "0f"

abbrev seen : List Cli.Shared
seen =
    shared false false
    ∷ shared false true
    ∷ shared false true
    ∷ shared true true
    ∷ shared false true
    ∷ shared false true
    ∷ []

abbrev first_proof : Cli.MinedProof
first_proof = record { nonce = 100000000001; hash = "0f"; success = true }

abbrev second_proof : Cli.MinedProof
second_proof = record { nonce = 100000000002; hash = "0f"; success = true }

cli_run :
    Cli.mine always "ann" 500 100000000001 seen
    ≡ some (
        ok (
          first_proof,
          shared false true ∷ shared true true ∷ shared false true ∷ shared false true ∷ [],
        ))
unfolding Cli.mine Cli.mine_loop Cli.round Cli.delay_increment_of difficulty_string
cli_run = refl

worker_run : Cli.worker always "ann" 3 500 1 seen ≡ ok (first_proof ∷ second_proof ∷ [])
unfolding Cli.worker Cli.worker_loop Cli.mine Cli.mine_loop Cli.round Cli.delay_increment_of
    difficulty_string
worker_run = refl

worker_ascends_example :
    Ascending.Ascending always "ann" (1 * 10 ^ 11) (first_proof ∷ second_proof ∷ [])
worker_ascends_example =
    Ascending.worker_ascends always "ann" 3 500 1 seen (first_proof ∷ second_proof ∷ []) worker_run
      (omega arith)

abbrev as_text : String → Pow.Bytes → String
as_text hrp [] = "dpow1"
as_text hrp (n ∷ hash) = if n == 2 then "dpow1j0e" else "dpow1"

abbrev as_is : Pow.Bytes → Pow.Bytes
as_is bytes = bytes

-- The difficulty of the test `it_works` is refused.
search_pow_of_one :
    Pow.search_pow as_is as_text [] 1 [] ≡ some (Pow.failed (Pow.insufficient_difficulty 1))
unfolding Pow.search_pow
search_pow_of_one = refl
