-- ===== src/Hub/Kept.antt =====
-- What the handlers of contracts/hub/src/execute.rs that do not deal with batches, fee rates or
-- mining leave as it was.
use liquid_staking.Base.{
  ℕ, String, Option, List, ◌≡◌, refl, ap, sym, ◌∙◌, Result, ok, err, ◌>>=◌, load, ◌-◌, contains,
  not, require, leb, str_eq, unwrap_or, already_whitelisted, not_whitelisted,
  unauthorized_new_owner, unauthorized_contract, no_rewards,
}
use liquid_staking.Uint.{sum_u128}
use liquid_staking.Types.{Coin, PendingBatch, Delegation, Redelegation}
use liquid_staking.Chain.{Env, Chain, Response}
use liquid_staking.State.{State, assert_owner}
use liquid_staking.Helpers.{query_delegation, query_delegations, parse_received_fund}
use liquid_staking.Math.Exchange.{compute_mint_amount}
use liquid_staking.Math.Removal.{compute_redelegations_for_removal}
use liquid_staking.Math.Rebalance.{compute_redelegations_for_rebalancing}
use liquid_staking.Hub.Accounting.{Batches, Requests}
use liquid_staking.Hub.Bond.{bond, harvest, pick_smallest}
use liquid_staking.Hub.Reinvest.{reinvest, pick_gap, target_of, checked_mul_uint, fee_messages}
use liquid_staking.Hub.Validators.{
  add_validator, remove_validator, remove_validator_ex, pause_validator, unpause_validator,
  rebalance, without,
}
use liquid_staking.Hub.Ownership.{
  set_unbond_period, accept_ownership, transfer_ownership, transfer_fee_account, fee_type_of,
}

-- What the invariants of the hub read: the batches, the rates of the fee, and the mining.
abbrev pub Books : Type 0
Books = Option PendingBatch × Batches × Requests

abbrev pub books : State → Books
books st = (st.pending_batch, st.previous_batches, st.unbond_requests)

abbrev pub rates : State → Option ℕ × Option ℕ
rates st = (st.fee_rate, st.max_fee_rate)

abbrev pub mined : State → Option ℕ × List (String × ℕ) × Option ℕ
mined st = (st.miner_difficulty, st.validator_mining_powers, st.total_mining_power)

abbrev pub Core : Type 0
Core = Books × (Option ℕ × Option ℕ) × (Option ℕ × List (String × ℕ) × Option ℕ)

abbrev pub core : State → Core
core st = (books st, rates st, mined st)

module _ {ℓ} {V : Type ℓ} (view : State → V) where
  -- Every state that a call returns looks the same.
  abbrev pub Keeps : State → Result (State × Response) → Type ℓ
  Keeps st r = (st' : State) (msgs : Response) → r ≡ ok (st', msgs) → view st' ≡ view st

  pub keep_bind {κ} :
      {A : Type κ} (st : State) (m : Result A) {f : A → Result (State × Response)}
      → ((a : A) → Keeps st (f a))
      → Keeps st (m >>= f)
  keep_bind st (ok a) k st' msgs h = k a st' msgs h
  keep_bind st (err e) k st' msgs h = absurd cc

  pub keep_ok : (st s : State) {m : Response} → view s ≡ view st → Keeps st (ok (s, m))
  keep_ok st s k st' msgs h = let e : s ≡ st' = cc in ap view (sym e) ∙ k

pub add_validator-Keeps :
    (sender : String) (validator : String) (st : State)
    → Keeps core st (add_validator sender validator st)
unfolding add_validator
add_validator-Keeps sender validator st = keep_bind core st (assert_owner st sender) λ _.
    keep_bind core st (load st.validators) λ validators.
      keep_bind core st (require (not (contains validators validator)) already_whitelisted)
        λ _. keep_bind core st (load st.validators_active) λ active. keep_ok core st _ refl

pub remove_validator_ex-Keeps :
    (sender : String) (validator : String) (st : State)
    → Keeps core st (remove_validator_ex sender validator st)
unfolding remove_validator_ex
remove_validator_ex-Keeps sender validator st = keep_bind core st (assert_owner st sender) λ _.
    keep_bind core st (load st.validators) λ validators.
      keep_bind core st (require (contains validators validator) not_whitelisted)
        λ _. keep_ok core st _ refl

pub pause_validator-Keeps :
    (sender : String) (validator : String) (st : State)
    → Keeps core st (pause_validator sender validator st)
unfolding pause_validator
pause_validator-Keeps sender validator st = keep_bind core st (assert_owner st sender) λ _.
    keep_bind core st (load st.validators_active) λ active.
      keep_bind core st (require (contains active validator) not_whitelisted)
        λ _. keep_ok core st _ refl

pub unpause_validator-Keeps :
    (sender : String) (validator : String) (st : State)
    → Keeps core st (unpause_validator sender validator st)
unfolding unpause_validator
unpause_validator-Keeps sender validator st =
    keep_bind core st (assert_owner st sender)
      λ _. keep_bind core st (load st.validators_active) λ _. keep_ok core st _ refl

pub set_unbond_period-Keeps :
    (sender : String) (unbond_period : ℕ) (st : State)
    → Keeps core st (set_unbond_period sender unbond_period st)
unfolding set_unbond_period
set_unbond_period-Keeps sender unbond_period st =
    keep_bind core st (assert_owner st sender) λ _. keep_ok core st _ refl

pub accept_ownership-Keeps :
    (sender : String) (st : State) → Keeps core st (accept_ownership sender st)
unfolding accept_ownership
accept_ownership-Keeps sender st = keep_bind core st (load st.owner) λ _.
    keep_bind core st (load st.new_owner) λ new_owner.
      keep_bind core st (require (str_eq sender new_owner) unauthorized_new_owner)
        λ _. keep_ok core st _ refl

module _ (c : Chain) where
  pub bond-Keeps :
      (env : Env) (receiver : String) (funds : List Coin) (st : State)
      → Keeps core st (bond c env receiver funds st)
  unfolding bond
  bond-Keeps env receiver funds st = keep_bind core st (load st.denom) λ denom.
      keep_bind core st (parse_received_fund funds denom) λ amount_to_bond.
        keep_bind core st (load st.steak_token) λ steak_token.
          keep_bind core st (load st.validators_active) λ validators.
            keep_bind core st (query_delegations c validators env.contract denom) λ delegations.
              keep_bind core st (pick_smallest delegations) λ best.
                keep_bind core st (c.query_total_supply steak_token) λ usteak_supply.
                  keep_bind core st
                    (compute_mint_amount c.math usteak_supply amount_to_bond delegations)
                    λ _.
                      keep_bind core st (c.query_balance env.contract denom)
                        λ _. keep_ok core st _ refl

  pub harvest-Keeps :
      (env : Env) (sender : String) (st : State) → Keeps core st (harvest c env sender st)
  unfolding harvest
  harvest-Keeps env sender st =
      keep_bind core st (require (str_eq sender env.contract) unauthorized_contract) λ _.
        keep_bind core st (load st.denom) λ denom.
          keep_bind core st (c.query_balance env.contract denom) λ _.
            keep_bind core st (c.query_all_delegations env.contract) λ _. keep_ok core st _ refl

  pub reinvest-Keeps : (env : Env) (st : State) → Keeps core st (reinvest c env st)
  unfolding reinvest
  reinvest-Keeps env st = keep_bind core st (load st.denom) λ denom.
      keep_bind core st (load st.fee_rate) λ fee.
        keep_bind core st (load st.validators_active) λ validators.
          keep_bind core st (load st.prev_denom) λ prev_coin.
            keep_bind core st (c.query_balance env.contract denom) λ current_coin.
              keep_bind core st (require (not (leb current_coin prev_coin)) no_rewards) λ _.
                let amount_to_bond = current_coin - prev_coin in
                keep_bind core st (load st.unlocked_coins) λ _.
                  let total_mining_power = unwrap_or st.total_mining_power 0 in
                  keep_bind core st (query_delegations c validators env.contract denom)
                    λ delegations.
                      keep_bind core st (sum_u128 (λ (d : Delegation). d.amount) delegations)
                        λ total_bonded.
                          keep_bind core st
                            (pick_gap (target_of c st total_bonded total_mining_power) delegations)
                            λ gap.
                              keep_bind core st (checked_mul_uint fee amount_to_bond) λ fee_amount.
                                keep_bind core st (fee_messages st denom fee_amount)
                                  λ _. keep_ok core st _ refl

  pub remove_validator-Keeps :
      (env : Env) (sender : String) (validator : String) (st : State)
      → Keeps core st (remove_validator c env sender validator st)
  unfolding remove_validator
  remove_validator-Keeps env sender validator st = keep_bind core st (assert_owner st sender) λ _.
      keep_bind core st (load st.denom) λ denom. keep_bind core st (load st.validators) λ all.
        keep_bind core st (require (contains all validator) not_whitelisted) λ _.
          let validators = without validator all in
          keep_bind core st (load st.validators_active) λ active.
            keep_bind core st (query_delegations c validators env.contract denom) λ delegations.
              keep_bind core st (query_delegation c validator env.contract denom)
                λ delegation_to_remove.
                  keep_bind core st
                    (compute_redelegations_for_removal delegation_to_remove delegations denom)
                    λ _.
                      keep_bind core st (c.query_balance env.contract denom)
                        λ balance. keep_ok core st _ refl

  pub rebalance-Keeps :
      (env : Env) (minimum : ℕ) (st : State) → Keeps core st (rebalance c env minimum st)
  unfolding rebalance
  rebalance-Keeps env minimum st = keep_bind core st (load st.denom) λ denom.
      keep_bind core st (load st.validators) λ validators.
        keep_bind core st (load st.validators_active) λ active.
          keep_bind core st (query_delegations c validators env.contract denom) λ delegations.
            keep_bind core st (sum_u128 (λ (d : Delegation). d.amount) delegations)
              λ total_delegated_amount.
                keep_bind core st (load st.total_mining_power) λ total_mining_power.
                  keep_bind core st
                    (compute_redelegations_for_rebalancing active delegations minimum
                      (target_of c st total_delegated_amount total_mining_power))
                    λ redelegations. keep_bind core st (c.query_balance env.contract denom) λ _.
                      keep_bind core st (sum_u128 (λ (r : Redelegation). r.amount) redelegations)
                        λ _. keep_ok core st _ refl

  pub transfer_ownership-Keeps :
      (sender : String) (new_owner : String) (st : State)
      → Keeps core st (transfer_ownership c sender new_owner st)
  unfolding transfer_ownership
  transfer_ownership-Keeps sender new_owner st =
      keep_bind core st (assert_owner st sender)
        λ _. keep_bind core st (c.addr_validate new_owner) λ _. keep_ok core st _ refl

  pub transfer_fee_account-Keeps :
      (sender : String) (fee_account_type : String) (new_fee_account : String) (st : State)
      → Keeps core st (transfer_fee_account c sender fee_account_type new_fee_account st)
  unfolding transfer_fee_account
  transfer_fee_account-Keeps sender fee_account_type new_fee_account st =
      keep_bind core st (assert_owner st sender) λ _.
        keep_bind core st (fee_type_of fee_account_type)
          λ _. keep_bind core st (c.addr_validate new_fee_account) λ _. keep_ok core st _ refl
