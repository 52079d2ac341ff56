-- ===== src/Hub/Tests/Sample.antt =====
-- A small hub, on which the operations of contracts/hub/src/execute.rs are run.
use liquid_staking.Base.{
  ℕ, String, Bool, true, false, Option, some, none, ◌^◌, refl, [], ◌∷◌, ok, arith, if◌then◌else◌,
  str_eq,
}
use liquid_staking.Types.{Batch, PendingBatch, UnbondRequest, wallet}
use liquid_staking.Store.{nat_key, pair_key, text_key}
use liquid_staking.Chain.{Env, Chain}
use liquid_staking.State.{State}
use liquid_staking.Coins.FromStr.{Alphabet, is_ascii_letter}
use liquid_staking.Math.Tests.{math}
use liquid_staking.Hub.Accounting.{IsValid}
use liquid_staking.Hub.Contract as Contract
use liquid_staking.Hub.Invariant as Invariant

abbrev pub delegated : String → Option ℕ
delegated v = if str_eq v "alpha" then some 600 else if str_eq v "beta" then some 300 else none

-- A chain with 600 delegated to `alpha`, 300 to `beta`, a balance of 75, and a supply of 800.
abbrev pub chain : Chain
chain = record {
  math = math;
  query_delegation = λ d v. ok (delegated v);
  query_all_delegations = λ d. ok ("alpha" ∷ "beta" ∷ []);
  query_validator = λ v. ok (some v);
  query_balance = λ a d. ok 75;
  query_total_supply = λ t. ok 800;
  addr_validate = λ a. ok a;
  sha256_pair = λ a b. "1f";
  sha256_proof = λ a b n. "0f";
}

abbrev pub late : Env
late = record { time = 1000; height = 40; contract = "hub" }

abbrev pub batch : ℕ → Bool → ℕ → ℕ → Batch
batch id reconciled shares amount = record {
  id = id;
  reconciled = reconciled;
  total_shares = shares;
  amount_unclaimed = amount;
  est_unbond_end_time = 100;
}

abbrev pub request : ℕ → String → ℕ → (ℕ × String) × UnbondRequest
request id user shares = ((id, user), record { id = id; user = user; shares = shares })

abbrev pub waiting : PendingBatch
waiting = record { id = 3; usteak_to_burn = 80; est_unbond_start_time = 500 }

-- Batch 1 can be withdrawn, batch 2 is due, batch 3 is pending.
abbrev pub hub : State
hub = record {
  owner = some "owner";
  new_owner = none;
  fee_account_type = some wallet;
  fee_account = some "fees";
  fee_rate = some (10 ^ 17);
  max_fee_rate = some (10 ^ 18);
  denom = some "utoken";
  steak_token = some "steak";
  epoch_period = some 10;
  unbond_period = some 20;
  validators = some ("alpha" ∷ "beta" ∷ []);
  unlocked_coins = some [];
  pending_batch = some waiting;
  previous_batches = (1, batch 1 true 50 49) ∷ (2, batch 2 false 70 80) ∷ [];
  unbond_requests =
      request 1 "ann" 50 ∷ request 2 "ann" 30 ∷ request 2 "bob" 40 ∷ request 3 "bob" 80 ∷ [];
  validators_active = some ("alpha" ∷ "beta" ∷ []);
  prev_denom = some 25;
  miner_entropy = some "aa";
  miner_entropy_draft = some "bb";
  miner_difficulty = some 1;
  miner_last_mined_timestamp = some 990;
  miner_last_mined_block = some 30;
  validator_mining_powers = ("alpha", 20) ∷ ("beta", 10) ∷ [];
  total_mining_power = some 30;
}

pub hub-IsValid : IsValid hub
hub-IsValid = record {
  pending = waiting;
  is_pending = refl;
  accounted = record {
    shares = λ k. ground arith;
    fresh = λ k le. ground arith;
    numbered = (refl, (refl, tt));
    keyed = (refl, (refl, (refl, (refl, tt))));
    unique_batches = (refl, (refl, tt));
    unique_requests = (refl, (refl, (refl, (refl, tt))));
  };
}

pub hub-IsSound : Invariant.IsSound hub
hub-IsSound = record {
  valid = hub-IsValid;
  capped = (10 ^ 17, 10 ^ 18, refl, refl, omega arith, omega arith);
  mining = (1, 30, refl, refl, omega arith, (refl, (refl, tt)), refl);
}

abbrev pub info : String → Contract.MessageInfo
info sender = record { sender = sender; funds = [] }

-- An alphabet of the letters of ASCII.
abbrev pub ascii : Alphabet
ascii = record { is_alphabetic = is_ascii_letter; is_alphabetic_ascii = λ c _. refl }
