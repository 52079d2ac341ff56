-- ===== src/Hub/Reinvest.antt =====
-- `reinvest` of contracts/hub/src/execute.rs, and `checked_mul_uint` of packages/steak/src/lib.rs.
use liquid_staking.Base.{
  ℕ, String, Bool, true, false, some, List, [], ◌∷◌, Result, ok, err, panic, overflow, no_rewards,
  load, ◌>>=◌, ◌>>◌, if◌then◌else◌, ltb, leb, not, require, str_eq, unwrap_or, ◌+◌, ◌-◌, ◌*◌, ◌/◌,
  ◌==◌, ◌&&◌, ◌||◌,
}
use liquid_staking.Uint.{u128_limit, decimal_fractional, sum_u128}
use liquid_staking.Types.{Delegation, Coin, FeeType, wallet, fee_split}
use liquid_staking.Store.{lookup, text_key}
use liquid_staking.Chain.{
  Env, Chain, Response, SubMsg, message, delegate, bank_send, fee_split_deposit,
}
use liquid_staking.State.{State}
use liquid_staking.Helpers.{query_delegations}
use liquid_staking.Math.Target.{compute_target_delegation_from_mining_power}

-- `Decimal::checked_mul_uint`
unfoldable pub checked_mul_uint : ℕ → ℕ → Result ℕ
checked_mul_uint rate other =
    if rate == 0 || other == 0
    then ok 0
    else if ltb (other * rate / decimal_fractional) u128_limit
    then ok (other * rate / decimal_fractional)
    else err overflow

-- `std::cmp::Ordering` and `u128::cmp`
pub data Ordering : Type 0 where
  less equal greater : Ordering

abbrev pub cmp : ℕ → ℕ → Ordering
cmp a b = if ltb a b then less else if a == b then equal else greater

abbrev pub is_gt : Ordering → Bool
is_gt less = false
is_gt equal = false
is_gt greater = true

-- `a > b` on orderings
abbrev pub exceeds : Ordering → Ordering → Bool
exceeds less b = false
exceeds equal less = true
exceeds equal equal = false
exceeds equal greater = false
exceeds greater less = true
exceeds greater equal = true
exceeds greater greater = false

abbrev pub abs_diff : ℕ → ℕ → ℕ
abs_diff a b = (a - b) + (b - a)

-- `validator`, `diff` and `cmp`, which the loop assigns.
pub record Gap : Type 0 where
  pub validator : String
  pub diff : ℕ
  pub order : Ordering

abbrev pub first_gap : Delegation → ℕ → Gap
first_gap d target =
    let order = cmp target d.amount in
    record {
      validator = d.validator;
      diff = if is_gt order then abs_diff target d.amount else 0;
      order = order;
    }

-- One turn of the loop.
unfoldable pub wider_gap : Gap → Delegation → ℕ → Gap
wider_gap gap d target =
    let order = cmp target d.amount in
    let diff = abs_diff target d.amount in
    if exceeds order gap.order || (is_gt order && ltb gap.diff diff)
    then record { validator = d.validator; diff = diff; order = order }
    else gap

unfoldable pub widest_gap : (Delegation → Result ℕ) → Gap → List Delegation → Result Gap
widest_gap target gap [] = ok gap
widest_gap target gap (d ∷ ds) = do t ← target d; widest_gap target (wider_gap gap d t) ds

unfoldable pub pick_gap : (Delegation → Result ℕ) → List Delegation → Result Gap
pick_gap target [] = err panic
pick_gap target (d ∷ ds) = do t ← target d; widest_gap target (first_gap d t) ds

-- `retain(|coin| coin.denom != denom)`
unfoldable pub without_denom : String → List Coin → List Coin
without_denom denom [] = []
without_denom denom (coin ∷ coins) =
    let rest = without_denom denom coins in if str_eq coin.denom denom then rest else coin ∷ rest

unfoldable pub send_fee : FeeType → String → Coin → SubMsg
send_fee wallet fee_account coin = message (bank_send fee_account coin)
send_fee fee_split fee_account coin = message (fee_split_deposit fee_account coin)

unfoldable pub fee_messages : State → String → ℕ → Result Response
fee_messages st denom fee_amount = if fee_amount == 0 then ok [] else (do
  fee_account ← load st.fee_account
  fee_type ← load st.fee_account_type
  ok (send_fee fee_type fee_account (record { denom = denom; amount = fee_amount }) ∷ []))

module _ (c : Chain) where
  -- The target of one delegation, from the mining power that is stored for its validator.
  abbrev pub target_of : State → ℕ → ℕ → Delegation → Result ℕ
  target_of st total_bonded total_mining_power d =
      compute_target_delegation_from_mining_power c.math total_bonded
        (unwrap_or (lookup d.validator st.validator_mining_powers) 0) total_mining_power

  unfoldable pub reinvest : Env → State → Result (State × Response)
  reinvest env st = do
    denom ← load st.denom
    fee ← load st.fee_rate
    validators ← load st.validators_active
    prev_coin ← load st.prev_denom
    current_coin ← c.query_balance env.contract denom
    require (not (leb current_coin prev_coin)) no_rewards
    let amount_to_bond = current_coin - prev_coin
    unlocked_coins ← load st.unlocked_coins
    let total_mining_power = unwrap_or st.total_mining_power 0
    delegations ← query_delegations c validators env.contract denom
    total_bonded ← sum_u128 (λ (d : Delegation). d.amount) delegations
    gap ← pick_gap (target_of st total_bonded total_mining_power) delegations
    fee_amount ← checked_mul_uint fee amount_to_bond
    let new_delegation : Delegation = record {
      validator = gap.validator;
      amount = amount_to_bond - fee_amount;
      denom = denom;
    }
    fees ← fee_messages st denom fee_amount
    ok (
      record st { unlocked_coins = some (without_denom denom unlocked_coins) },
      message (delegate new_delegation) ∷ fees,
    )
