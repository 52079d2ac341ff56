-- ===== src/Hub/Ownership.antt =====
-- The handlers of contracts/hub/src/execute.rs for the owner, the fees, the unbonding period and the
-- denomination.
use liquid_staking.Base.{
  ℕ, String, some, none, [], Result, ok, err, load, ◌>>=◌, ◌>>◌, if◌then◌else◌, leb, require,
  str_eq, unauthorized_new_owner, fee_above_max, bad_fee_type,
}
use liquid_staking.Types.{FeeType, wallet, fee_split}
use liquid_staking.Chain.{Chain, Response}
use liquid_staking.State.{State, assert_owner}

-- `FeeType::from_str`, and `FeeType::to_string`
unfoldable pub fee_type_of : String → Result FeeType
fee_type_of s =
    if str_eq s "Wallet"
    then ok wallet
    else if str_eq s "FeeSplit"
    then ok fee_split
    else err bad_fee_type

unfoldable pub fee_type_name : FeeType → String
fee_type_name wallet = "Wallet"
fee_type_name fee_split = "FeeSplit"

unfoldable pub set_unbond_period : String → ℕ → State → Result (State × Response)
set_unbond_period sender unbond_period st = do
  assert_owner st sender
  ok (record st { unbond_period = some unbond_period }, [])

unfoldable pub accept_ownership : String → State → Result (State × Response)
accept_ownership sender st = do
  previous_owner ← load st.owner
  new_owner ← load st.new_owner
  require (str_eq sender new_owner) unauthorized_new_owner
  ok (record st { owner = some sender; new_owner = none }, [])

unfoldable pub change_denom : String → String → State → Result (State × Response)
change_denom sender new_denom st = do
  assert_owner st sender
  ok (record st { denom = some new_denom }, [])

unfoldable pub update_fee : String → ℕ → State → Result (State × Response)
update_fee sender new_fee st = do
  assert_owner st sender
  max_fee_rate ← load st.max_fee_rate
  require (leb new_fee max_fee_rate) fee_above_max
  ok (record st { fee_rate = some new_fee }, [])

module _ (c : Chain) where
  unfoldable pub transfer_ownership : String → String → State → Result (State × Response)
  transfer_ownership sender new_owner st = do
    assert_owner st sender
    address ← c.addr_validate new_owner
    ok (record st { new_owner = some address }, [])

  -- With `transfer_fee_account_internal`.
  unfoldable pub transfer_fee_account : String → String → String → State → Result (State × Response)
  transfer_fee_account sender fee_account_type new_fee_account st = do
    assert_owner st sender
    fee_type ← fee_type_of fee_account_type
    address ← c.addr_validate new_fee_account
    ok (record st { fee_account_type = some fee_type; fee_account = some address }, [])
