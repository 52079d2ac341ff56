-- ===== src/Hub/Migrate.antt =====
-- `migrate` of contracts/hub/src/contract.rs, from the versions that it knows, and `upgrade_stores` of
-- contracts/hub/src/migrations.rs. The indexes of the old batches are left out, as those of the new are.
pub mod Effects
use liquid_staking.Base.{
  ℕ, String, Bool, true, false, Option, none, some, List, [], ◌∷◌, Result, ok, err, load, unwrap_or,
  ◌>>=◌, ◌>>◌, if◌then◌else◌, str_eq, require, not, ◌||◌, wrong_contract, same_batch_keys,
}
use liquid_staking.Types.{Batch, FeeType, wallet}
use liquid_staking.Store.{save, nat_key}
use liquid_staking.Chain.{Env, Chain, Response}
use liquid_staking.State.{State}
use liquid_staking.Hub.Instantiate as Hubs
use liquid_staking.Hub.Instantiate.{InstantiateMsg, no_state}

pub record ContractVersion : Type 0 where
  pub contract : String
  pub version : String

pub record BatchV100 : Type 0 where
  pub id : ℕ
  pub reconciled : Bool
  pub total_shares : ℕ
  pub native_token_unclaimed : ℕ
  pub est_unbond_end_time : ℕ

-- What a migration finds: the version that cw2 keeps, the batches under the old key, and the hub.
pub record Storage : Type 0 where
  pub contract_version : Option ContractVersion
  pub old_batches : List (ℕ × BatchV100)
  pub hub : State

abbrev pub batch_key_v100 : String
batch_key_v100 = "previous_batches"

abbrev pub batch_key_v101 : String
batch_key_v101 = "previous_batches_101"

-- `CONTRACT_NAME` and `CONTRACT_VERSION`
abbrev pub current : ContractVersion
current = record { contract = "steak-hub"; version = "2.1.15" }

-- What `instantiate` of contracts/hub/src/contract.rs leaves, with the messages of the hub.
unfoldable pub instantiate : Chain → Env → InstantiateMsg → Result (Storage × Response)
instantiate c env msg = do
  (hub, msgs) ← Hubs.instantiate c env msg no_state
  ok (record { contract_version = some current; old_batches = []; hub = hub }, msgs)

-- What is assumed where no version is stored.
abbrev pub unversioned : ContractVersion
unversioned = record { contract = "pfc-steak-hub"; version = "0" }

abbrev pub batch_of_v100 : BatchV100 → Batch
batch_of_v100 v = record {
  id = v.id;
  reconciled = v.reconciled;
  total_shares = v.total_shares;
  amount_unclaimed = v.native_token_unclaimed;
  est_unbond_end_time = v.est_unbond_end_time;
}

-- The loop that saves the old batches as new ones.
unfoldable pub save_batches : List (ℕ × BatchV100) → List (ℕ × Batch) → List (ℕ × Batch)
save_batches [] batches = batches
save_batches ((k, v) ∷ old) batches = save_batches old (save v.id (batch_of_v100 v) batches)

-- The arms of the match on the version.
pub data Arm : Type 0 where
  v0 v2_1_4 v2_1_5 v2_1_6_or_7 v2_1_8 v2_1_12 v2_1_13 v2_1_14 other : Arm

unfoldable pub arm_of : String → Arm
arm_of version =
    if str_eq version "0"
    then v0
    else if str_eq version "2.1.4"
    then v2_1_4
    else if str_eq version "2.1.5"
    then v2_1_5
    else if str_eq version "2.1.6" || str_eq version "2.1.7"
    then v2_1_6_or_7
    else if str_eq version "2.1.8"
    then v2_1_8
    else if str_eq version "2.1.12"
    then v2_1_12
    else if str_eq version "2.1.13"
    then v2_1_13
    else if str_eq version "2.1.14"
    then v2_1_14
    else other

abbrev pub sha256_of_pupmos : String
sha256_of_pupmos = "f1d518ef1e6e0814d30ffe4f2fd3c06a2ee358bb2afaf63fa649e2e38a9c142e"

module _ (c : Chain) where
  unfoldable pub upgrade_stores : Env → List (ℕ × BatchV100) → State → Result State
  upgrade_stores env old_batches st = do
    require (not (str_eq batch_key_v101 batch_key_v100)) same_batch_keys
    denom ← load st.denom
    balance ← c.query_balance env.contract denom
    validators ← load st.validators
    ok (record st {
      prev_denom = some balance;
      previous_batches = save_batches old_batches st.previous_batches;
      validators_active = some validators;
    })

  unfoldable pub migrate_from : Env → List (ℕ × BatchV100) → State → Arm → Result State
  migrate_from env old st v0 = do
    owner ← load st.owner
    upgrade_stores env old (record st {
      denom = some "native_token";
      fee_account = some owner;
      max_fee_rate = some 0;
      fee_rate = some 0;
      fee_account_type = some wallet;
    })
  migrate_from env old st v2_1_4 = do
    st' ← upgrade_stores env old st
    ok (record st' { fee_account_type = some wallet })
  migrate_from env old st v2_1_5 = do
    st' ← upgrade_stores env old st
    ok (record st' { fee_account_type = some wallet })
  migrate_from env old st v2_1_6_or_7 = do
    denom ← load st.denom
    balance ← c.query_balance env.contract denom
    ok (record st { prev_denom = some balance; fee_account_type = some wallet })
  migrate_from env old st v2_1_8 = ok (record st { fee_account_type = some wallet })
  migrate_from env old st v2_1_12 = ok (record st {
    miner_entropy = some sha256_of_pupmos;
    miner_entropy_draft = some sha256_of_pupmos;
    miner_difficulty = some 1;
    miner_last_mined_timestamp = some env.time;
  })
  migrate_from env old st v2_1_13 = ok (record st { miner_difficulty = some 1 })
  migrate_from env old st v2_1_14 =
      ok (record st { miner_last_mined_block = some env.height; total_mining_power = some 0 })
  migrate_from env old st other = ok st

  unfoldable pub migrate : Env → Storage → Result Storage
  migrate env s = do
    let found = unwrap_or s.contract_version unversioned
    require (str_eq found.contract "pfc-steak-hub" || str_eq found.contract "steak-hub")
        wrong_contract
    hub ← migrate_from env s.old_batches s.hub (arm_of found.version)
    ok (record s { contract_version = some current; hub = hub })
