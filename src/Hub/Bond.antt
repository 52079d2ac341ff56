-- ===== src/Hub/Bond.antt =====
-- `bond` and `harvest` of contracts/hub/src/execute.rs.
use liquid_staking.Base.{
  String, some, List, [], ◌∷◌, ◌++◌, map, Result, ok, err, panic, unauthorized_contract, load,
  ◌>>=◌, ◌>>◌, if◌then◌else◌, ltb, require, str_eq,
}
use liquid_staking.Types.{Delegation, Coin}
use liquid_staking.Chain.{
  Env, Chain, Response, message, reply_on_success, delegate, mint, withdraw_reward, call_self,
  reinvest as reinvest_call,
}
use liquid_staking.State.{State}
use liquid_staking.Helpers.{query_delegations, parse_received_fund}
use liquid_staking.Math.Exchange.{compute_mint_amount}
use liquid_staking.Hub.Unbond.{reply_register_received_coins}

-- The linear search: the first of the delegations that are smallest, from `d` on.
unfoldable pub smallest : Delegation → List Delegation → Delegation
smallest best [] = best
smallest best (d ∷ ds) = smallest (if ltb d.amount best.amount then d else best) ds

-- `delegations[0]`, and the search through the others.
unfoldable pub pick_smallest : List Delegation → Result Delegation
pick_smallest [] = err panic
pick_smallest (d ∷ ds) = ok (smallest d ds)

module _ (c : Chain) where
  unfoldable pub bond : Env → String → List Coin → State → Result (State × Response)
  bond env receiver funds st = do
    denom ← load st.denom
    amount_to_bond ← parse_received_fund funds denom
    steak_token ← load st.steak_token
    validators ← load st.validators_active
    delegations ← query_delegations c validators env.contract denom
    best ← pick_smallest delegations
    let new_delegation : Delegation = record {
      validator = best.validator;
      amount = amount_to_bond;
      denom = denom;
    }
    usteak_supply ← c.query_total_supply steak_token
    usteak_to_mint ← compute_mint_amount c.math usteak_supply amount_to_bond delegations
    balance ← c.query_balance env.contract denom
    ok (
      record st { prev_denom = some balance },
      reply_on_success (delegate new_delegation) reply_register_received_coins
          ∷ message (mint steak_token receiver usteak_to_mint)
          ∷ [],
    )

  unfoldable pub harvest : Env → String → State → Result (State × Response)
  harvest env sender st = do
    require (str_eq sender env.contract) unauthorized_contract
    denom ← load st.denom
    balance ← c.query_balance env.contract denom
    validators ← c.query_all_delegations env.contract
    ok (
      record st { prev_denom = some balance },
      map (λ (v : String). reply_on_success (withdraw_reward v) reply_register_received_coins)
            validators
          ++ message (call_self env.contract reinvest_call) ∷ [],
    )
