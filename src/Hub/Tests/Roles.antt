-- ===== src/Hub/Tests/Roles.antt =====
-- Runs of contracts/hub/src/contract.rs: the owner, the validators and a new hub.
use liquid_staking.Base.{String, true, false, some, ◌^◌, ◌≡◌, refl, List, [], ◌∷◌, ok, contains}
use liquid_staking.Types.{wallet}
use liquid_staking.Store.{nat_key, pair_key, text_key}
use liquid_staking.Chain.{reply_on_success, redelegate, instantiate_token}
use liquid_staking.State.{State, assert_owner}
use liquid_staking.Helpers.{query_delegation, query_delegations}
use liquid_staking.Hub.Validators as Validators
use liquid_staking.Hub.Ownership as Ownership
use liquid_staking.Hub.Instantiate as Instantiate
use liquid_staking.Hub.Contract as Contract
use liquid_staking.Hub.Invariant as Invariant
use liquid_staking.Hub.Invariant.Reachable as Reachable
use liquid_staking.Hub.Invariant.Deployed as Deployed
use liquid_staking.Hub.Migrate as Migrate
use liquid_staking.Hub.Guards as Guards
use liquid_staking.Hub.Replies as Replies
use liquid_staking.Math.Share.{even_share}
use liquid_staking.Math.Removal.{compute_redelegations_for_removal, removal_loop}
use liquid_staking.Hub.Tests.Sample.{ascii, chain, late, hub, info}

abbrev paused : State
paused = record hub { validators_active = some ("alpha" ∷ []) }

paused_run : Validators.pause_validator "owner" "beta" hub ≡ ok (paused, [])
unfolding Validators.pause_validator Validators.without assert_owner
paused_run = refl

execute-paused_run :
    Contract.execute chain late (info "owner") (Contract.pause_validator "beta") hub
    ≡ ok (paused, [])
unfolding Contract.execute
execute-paused_run = paused_run

execute_owner_only_example : hub.owner ≡ some "owner"
execute_owner_only_example =
    Guards.execute_owner_only chain late (info "owner") (Contract.pause_validator "beta") hub paused
      [] execute-paused_run refl

abbrev removed : State
removed = record paused {
  validators = some ("alpha" ∷ []);
  validators_active = some ("alpha" ∷ "beta" ∷ []);
  prev_denom = some 75;
}

removed_run :
    Validators.remove_validator chain late "owner" "beta" paused
    ≡ ok (
      removed,
      reply_on_success
            (redelegate (record { src = "beta"; dst = "alpha"; amount = 300; denom = "utoken" }))
            2
          ∷ [],
    )
unfolding Validators.remove_validator Validators.without Validators.with_validator assert_owner
    query_delegations query_delegation compute_redelegations_for_removal removal_loop even_share
removed_run = refl

remove_validator_leaves_active_example :
    (all active : List String) × (removed.validators ≡ some all)
    × (contains all "beta" ≡ false)
    × (removed.validators_active ≡ some active)
    × (contains active "beta" ≡ true)
remove_validator_leaves_active_example =
    Guards.remove_validator_leaves_active chain late "owner" "beta" paused removed _ removed_run

abbrev offered : State
offered = record hub { new_owner = some "heir" }

offered_run : Ownership.transfer_ownership chain "owner" "heir" hub ≡ ok (offered, [])
unfolding Ownership.transfer_ownership assert_owner
offered_run = refl

abbrev settings : Instantiate.InstantiateMsg
settings = record {
  cw20_code_id = 5;
  owner = "owner";
  epoch_period = 10;
  unbond_period = 20;
  validators = "alpha" ∷ [];
  denom = "utoken";
  fee_account_type = "Wallet";
  fee_account = "fees";
  fee_amount = 10 ^ 17;
  max_fee_amount = 10 ^ 18;
}

abbrev new_hub : State
new_hub = record Instantiate.no_state {
  owner = some "owner";
  epoch_period = some 10;
  unbond_period = some 20;
  validators = some ("alpha" ∷ []);
  unlocked_coins = some [];
  prev_denom = some 0;
  denom = some "utoken";
  max_fee_rate = some (10 ^ 18);
  fee_rate = some (10 ^ 17);
  fee_account_type = some wallet;
  fee_account = some "fees";
  pending_batch = some (record { id = 1; usteak_to_burn = 0; est_unbond_start_time = 1010 });
  validators_active = some ("alpha" ∷ []);
  miner_entropy = some "hub";
  miner_entropy_draft = some "hub";
  miner_difficulty = some 1;
  miner_last_mined_timestamp = some 1000;
  miner_last_mined_block = some 40;
  total_mining_power = some 0;
}

new_run :
    Instantiate.instantiate chain late settings Instantiate.no_state
    ≡ ok (new_hub, reply_on_success (instantiate_token "owner" 5 "hub") 1 ∷ [])
unfolding Instantiate.instantiate Ownership.fee_type_of
new_run = refl

abbrev created : List Replies.Event
created =
    record {
      ty = "instantiate";
      attributes = record { key = "_contract_address"; value = "steak" } ∷ [];
    }
    ∷ []

-- The hub once its token is there.
abbrev pub registered : State
registered = record new_hub { steak_token = some "steak" }

registered_run : Replies.register_steak_token chain created new_hub ≡ ok (registered, [])
unfolding Replies.register_steak_token Replies.find_event Replies.find_attribute
registered_run = refl

replied_run :
    Replies.reply ascii chain late (record { id = 1; result = Replies.success created }) new_hub
    ≡ ok (registered, [])
unfolding Replies.reply Replies.unwrap_reply
replied_run = registered_run

pub registered-Reachable : Reachable.Reachable registered
registered-Reachable =
    Reachable.replied ascii chain late (record { id = 1; result = Replies.success created })
      (Reachable.start chain late settings new_run) replied_run

abbrev stored : State → Migrate.Storage
stored hub = record { contract_version = some Migrate.current; old_batches = []; hub = hub }

deployed_run :
    Migrate.instantiate chain late settings
    ≡ ok (stored new_hub, reply_on_success (instantiate_token "owner" 5 "hub") 1 ∷ [])
unfolding Migrate.instantiate
deployed_run = rw new_run refl

migrated_run : Migrate.migrate chain late (stored registered) ≡ ok (stored registered)
unfolding Migrate.migrate Migrate.migrate_from Migrate.arm_of
migrated_run = refl

registered-Deployed : Deployed.Deployed (stored registered)
registered-Deployed =
    Deployed.answered ascii chain late (record { id = 1; result = Replies.success created })
      (Deployed.deployed chain late settings deployed_run) replied_run

-- The hub once its token is there, after a migration.
Deployed-IsSound_example :
    ((stored registered).contract_version ≡ some Migrate.current) × Invariant.IsSound registered
Deployed-IsSound_example =
    Deployed.Deployed-IsSound (Deployed.migrated chain late registered-Deployed migrated_run)
