-- ===== src/Hub/Validators.antt =====
-- The handlers of contracts/hub/src/execute.rs that manage validators and move delegations.
use liquid_staking.Base.{
  ℕ, String, some, List, [], ◌∷◌, ◌++◌, map, Result, ok, load, ◌>>=◌, ◌>>◌, if◌then◌else◌, require,
  not, str_eq, contains, already_whitelisted, not_whitelisted,
}
use liquid_staking.Uint.{sum_u128}
use liquid_staking.Types.{Delegation, Redelegation}
use liquid_staking.Chain.{Env, Chain, Response, reply_on_success, redelegate}
use liquid_staking.State.{State, assert_owner}
use liquid_staking.Helpers.{query_delegation, query_delegations}
use liquid_staking.Math.Removal.{compute_redelegations_for_removal}
use liquid_staking.Math.Rebalance.{compute_redelegations_for_rebalancing}
use liquid_staking.Hub.Unbond.{reply_register_received_coins}
use liquid_staking.Hub.Reinvest.{target_of}

-- `retain(|v| *v != validator)`
unfoldable pub without : String → List String → List String
without validator [] = []
without validator (v ∷ vs) =
    let rest = without validator vs in if str_eq v validator then rest else v ∷ rest

-- `if !validators.contains(&validator) { validators.push(validator) }`
unfoldable pub with_validator : String → List String → List String
with_validator validator vs = if contains vs validator then vs else vs ++ validator ∷ []

abbrev redelegate_all : List Redelegation → Response
redelegate_all =
    map (λ (r : Redelegation). reply_on_success (redelegate r) reply_register_received_coins)

unfoldable pub add_validator : String → String → State → Result (State × Response)
add_validator sender validator st = do
  assert_owner st sender
  validators ← load st.validators
  require (not (contains validators validator)) already_whitelisted
  active ← load st.validators_active
  let st' = record st {
    validators = some (validators ++ validator ∷ []);
    validators_active = some (with_validator validator active);
  }
  ok (st', [])

unfoldable pub remove_validator_ex : String → String → State → Result (State × Response)
remove_validator_ex sender validator st = do
  assert_owner st sender
  validators ← load st.validators
  require (contains validators validator) not_whitelisted
  ok (record st { validators = some (without validator validators) }, [])

unfoldable pub pause_validator : String → String → State → Result (State × Response)
pause_validator sender validator st = do
  assert_owner st sender
  active ← load st.validators_active
  require (contains active validator) not_whitelisted
  ok (record st { validators_active = some (without validator active) }, [])

unfoldable pub unpause_validator : String → String → State → Result (State × Response)
unpause_validator sender validator st = do
  assert_owner st sender
  active ← load st.validators_active
  ok (record st { validators_active = some (with_validator validator active) }, [])

module _ (c : Chain) where
  unfoldable pub remove_validator : Env → String → String → State → Result (State × Response)
  remove_validator env sender validator st = do
    assert_owner st sender
    denom ← load st.denom
    all ← load st.validators
    require (contains all validator) not_whitelisted
    let validators = without validator all
    active ← load st.validators_active
    delegations ← query_delegations c validators env.contract denom
    delegation_to_remove ← query_delegation c validator env.contract denom
    redelegations ← compute_redelegations_for_removal delegation_to_remove delegations denom
    balance ← c.query_balance env.contract denom
    let st' = record st {
      validators = some validators;
      validators_active = some (with_validator validator active);
      prev_denom = some balance;
    }
    ok (st', redelegate_all redelegations)

  unfoldable pub rebalance : Env → ℕ → State → Result (State × Response)
  rebalance env minimum st = do
    denom ← load st.denom
    validators ← load st.validators
    active ← load st.validators_active
    delegations ← query_delegations c validators env.contract denom
    total_delegated_amount ← sum_u128 (λ (d : Delegation). d.amount) delegations
    total_mining_power ← load st.total_mining_power
    redelegations ←
        compute_redelegations_for_rebalancing active delegations minimum
          (target_of c st total_delegated_amount total_mining_power)
    balance ← c.query_balance env.contract denom
    amount ← sum_u128 (λ (r : Redelegation). r.amount) redelegations
    ok (record st { prev_denom = some balance }, redelegate_all redelegations)
