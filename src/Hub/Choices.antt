-- ===== src/Hub/Choices.antt =====
-- Where `bond` and `reinvest` of contracts/hub/src/execute.rs send coins, and how much.
mod Deposits
mod Fees
mod Gaps
use Deposits.{Chosen, pick_smallest_least, IsWorth, compute_mint_amount-IsWorth}
pub use Fees.{checked_mul_uint_floor}
use Fees.{IsFee, fee_messages-IsFee}
use Gaps.{Among, pick_gap-Among}
use liquid_staking.Base.{
  ◌&&◌, Result, ℕ, String, Bool-cases, some, List, [], ◌∷◌, ok, load, load-eq-ok, require, ◌>>=◌,
  >>=-elim, if◌then◌else◌, ltb, leb, not, ◌≡◌, ◌≤◌, ◌<◌, ◌+◌, ◌-◌, ◌*◌, ◌/◌, ◌==◌, ◌||◌, ◌⊎◌, inl,
  inr, refl, sym, ap, ◌∙◌, arith, All, no_rewards, unwrap_or,
}
use mathlib.Core.Path.{subst}
use native.Mathlib.Nat.{mul-le-mul_left}
use liquid_staking.Uint.{sum_u128, decimal_fractional, floor_bounds}
use liquid_staking.Types.{Delegation, Coin, FeeType, wallet, fee_split}
use liquid_staking.Chain.{
  Env, Chain, Response, message, reply_on_success, delegate, mint, bank_send, fee_split_deposit,
}
use liquid_staking.State.{State}
use liquid_staking.Helpers.{
  query_delegations, parse_received_fund, Delegated, query_delegations-Delegated,
  parse_received_fund_inv,
}
use liquid_staking.Math.Exchange.{
  bonded, compute_mint_amount, compute_mint_amount_floor, compute_mint_amount_first,
}
use liquid_staking.Hub.Unbond.{reply_register_received_coins}
use liquid_staking.Hub.Bond.{smallest, pick_smallest, bond}
use liquid_staking.Hub.Reinvest.{
  Gap, cmp, is_gt, exceeds, abs_diff, first_gap, wider_gap, widest_gap, reinvest, pick_gap,
  target_of, checked_mul_uint, fee_messages, send_fee,
}

-- A deposit that is accepted, by what the chain and the state say.
pub record IsBonded (c : Chain) (env : Env) (receiver : String) (funds : List Coin) (st : State)
    (msgs : Response) : Type 0 where
  pub denom : String
  pub token : String
  pub amount : ℕ
  pub supply : ℕ
  pub minted : ℕ
  pub validators : List String
  pub delegations : List Delegation
  pub best : Delegation
  pub is_denom : st.denom ≡ some denom
  pub is_token : st.steak_token ≡ some token
  pub is_supply : c.query_total_supply token ≡ ok supply
  pub are_validators : st.validators_active ≡ some validators
  pub are_delegations : Delegated c env.contract denom validators delegations
  pub are_funds : funds ≡ record { denom = denom; amount = amount } ∷ []
  pub not_zero : 0 < amount
  pub is_best : Chosen best delegations
  pub least : All (λ (d : Delegation). best.amount ≤ d.amount) delegations
  pub is_worth : IsWorth supply (bonded delegations) amount minted
  pub sent :
      msgs
      ≡ reply_on_success
          (delegate (record { validator = best.validator; amount = amount; denom = denom }))
          reply_register_received_coins
        ∷ message (mint token receiver minted)
        ∷ []

-- A successful deposit is of one coin of the hub's denomination, goes whole to an active validator with
-- the smallest delegation, and mints for the receiver, of the hub's token, what it is worth by the supply
-- of that token and the delegations to the active validators, or one unit for one where those are zero.
pub bond_to_smallest :
    (c : Chain) (env : Env) (receiver : String) (funds : List Coin) (st st' : State)
    (msgs : Response)
    → bond c env receiver funds st ≡ ok (st', msgs)
    → IsBonded c env receiver funds st msgs
unfolding bond
bond_to_smallest c env receiver funds st st' msgs h = >>=-elim (load st.denom) _ h λ denom e_d h₁.
    >>=-elim (parse_received_fund funds denom) _ h₁ λ amount e h₂.
      >>=-elim (load st.steak_token) _ h₂ λ token e_t h₃.
        >>=-elim (load st.validators_active) _ h₃ λ vs are_vs h₄.
          >>=-elim (query_delegations c vs env.contract denom) _ h₄ λ ds are_ds h₅.
            >>=-elim (pick_smallest ds) _ h₅ λ best is_best h₆.
              >>=-elim (c.query_total_supply token) _ h₆ λ supply e_s h₇.
                >>=-elim (compute_mint_amount c.math supply amount ds) _ h₇ λ minted is_minted h₈.
                  >>=-elim (c.query_balance env.contract denom) _ h₈ λ balance _ h₉.
                    let (chosen, least) = pick_smallest_least ds best is_best in
                    let (are_funds, not_zero) = parse_received_fund_inv funds denom amount e in
                    record {
                      denom = denom;
                      token = token;
                      amount = amount;
                      supply = supply;
                      minted = minted;
                      validators = vs;
                      delegations = ds;
                      best = best;
                      is_denom = load-eq-ok _ e_d;
                      is_token = load-eq-ok _ e_t;
                      is_supply = e_s;
                      are_validators = load-eq-ok _ are_vs;
                      are_delegations =
                          query_delegations-Delegated c vs env.contract denom ds are_ds;
                      are_funds = are_funds;
                      not_zero = not_zero;
                      is_best = chosen;
                      least = least;
                      is_worth = compute_mint_amount-IsWorth c supply amount minted ds is_minted;
                      sent = cc;
                    }

-- A reinvestment that is accepted, by what the chain and the state say.
pub record IsReinvested (c : Chain) (env : Env) (st : State) (msgs : Response) (rate : ℕ)
    : Type 0 where
  pub denom : String
  pub before : ℕ
  pub now : ℕ
  pub validator : String
  pub amount : ℕ
  pub fee : ℕ
  pub fees : Response
  pub validators : List String
  pub delegations : List Delegation
  pub are_validators : st.validators_active ≡ some validators
  pub are_delegations : Delegated c env.contract denom validators delegations
  pub is_active : Among validator delegations
  pub is_denom : st.denom ≡ some denom
  pub is_before : st.prev_denom ≡ some before
  pub is_now : c.query_balance env.contract denom ≡ ok now
  pub gained : before < now
  pub all_spent : before + amount + fee ≡ now
  pub fee_at_most : fee * decimal_fractional ≤ (now - before) * rate
  pub fee_no_less : (now - before) * rate < (fee + 1) * decimal_fractional
  pub is_fee : IsFee st denom fee fees
  pub sent :
      msgs
      ≡ message (delegate (record { validator = validator; amount = amount; denom = denom })) ∷ fees

-- With a fee of at most one whole, a successful reinvestment finds a higher balance of the hub's
-- denomination than was noted before. It delegates to an active validator all of the gain but the fee, which is the rate's part
-- of the gain, rounded down, and pays the fee to the fee account, both in that denomination; it sends
-- nothing else.
pub reinvest_spends :
    (c : Chain) (env : Env) (st st' : State) (msgs : Response) (rate : ℕ)
    → reinvest c env st ≡ ok (st', msgs)
    → st.fee_rate ≡ some rate
    → rate ≤ decimal_fractional
    → IsReinvested c env st msgs rate
unfolding reinvest
reinvest_spends c env st st' msgs rate h is_rate small = >>=-elim (load st.denom) _ h λ denom e h.
    >>=-elim (load st.fee_rate) _ h λ charged_rate e₁ h.
      >>=-elim (load st.validators_active) _ h λ vs are_vs h.
        >>=-elim (load st.prev_denom) _ h λ before e₂ h.
          >>=-elim (c.query_balance env.contract denom) _ h λ now e₃ h.
            >>=-elim (require (not (leb now before)) no_rewards) _ h λ _ e₄ h.
              >>=-elim (load st.unlocked_coins) _ h λ coins _ h.
                >>=-elim (query_delegations c vs env.contract denom) _ h λ ds are_ds h.
                  >>=-elim (sum_u128 (λ (d : Delegation). d.amount) ds) _ h λ total _ h.
                    >>=-elim
                      (pick_gap (target_of c st total (unwrap_or st.total_mining_power 0)) ds) _ h
                      λ gap is_gap h.
                        >>=-elim (checked_mul_uint charged_rate (now - before)) _ h λ fee e₅ h.
                          >>=-elim (fee_messages st denom fee) _ h λ fees e₆ h.
                            let same : charged_rate ≡ rate = ground (arith, e₁, is_rate) in
                            let run : checked_mul_uint rate (now - before) ≡ ok fee =
                              rw same at e₅ in
                            let (within, low, high) =
                              checked_mul_uint_floor rate (now - before) fee run small in
                            let more : before < now = ground (arith, e₄) in
                            record {
                              denom = denom;
                              before = before;
                              now = now;
                              validator = gap.validator;
                              amount = now - before - fee;
                              fee = fee;
                              fees = fees;
                              validators = vs;
                              delegations = ds;
                              are_validators = load-eq-ok _ are_vs;
                              are_delegations =
                                  query_delegations-Delegated c vs env.contract denom ds are_ds;
                              is_active = pick_gap-Among _ gap ds is_gap;
                              is_denom = load-eq-ok _ e;
                              is_before = load-eq-ok _ e₂;
                              is_now = e₃;
                              gained = more;
                              all_spent = omega (arith, within, more);
                              fee_at_most = low;
                              fee_no_less = high;
                              is_fee = fee_messages-IsFee st denom fee fees e₆;
                              sent = cc;
                            }
