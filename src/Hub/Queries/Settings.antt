-- ===== src/Hub/Queries/Settings.antt =====
-- The settings that `instantiate` of contracts/hub/src/execute.rs stores are what `config` of
-- contracts/hub/src/queries.rs answers.
use liquid_staking.Base.{
  String, none, some, List, ok, ok_or, require, leb, ◌≡◌, refl, sym, ap, >>=-elim, arith,
  Bool-cases, inl, inr, str_eq, eq_iff, max_fee_too_high, fee_above_max, missing_event,
  missing_attribute,
}
use mathlib.Core.Path.{subst}
use liquid_staking.Uint.{add_u64, decimal_fractional}
use liquid_staking.Types.{FeeType, wallet, fee_split}
use liquid_staking.Chain.{Env, Chain, Response}
use liquid_staking.State.{State}
use liquid_staking.Hub.Ownership.{fee_type_of, fee_type_name}
use liquid_staking.Hub.Instantiate.{InstantiateMsg, instantiate, no_state}
use liquid_staking.Hub.Replies.{Event, find_event, find_attribute, register_steak_token}
use liquid_staking.Hub.Queries.{ConfigResponse}
use liquid_staking.Hub.Queries as Queries
use liquid_staking.Hub.Queries.Dispatch.{config, configuration, query}

fee_type_name-of : (s : String) (k : FeeType) → fee_type_of s ≡ ok k → fee_type_name k ≡ s
unfolding fee_type_of fee_type_name
fee_type_name-of s k h = elim (Bool-cases (str_eq s "Wallet")) [
  | inl e ↦ let k_is : k ≡ wallet = ground (arith, h, e) in rw k_is (sym ((eq_iff s "Wallet").0 e))
  | inr e ↦ elim (Bool-cases (str_eq s "FeeSplit")) [
    | inl q ↦
        let k_is : k ≡ fee_split = ground (arith, h, e, q) in
        rw k_is (sym ((eq_iff s "FeeSplit").0 q))
    | inr q ↦ absurd (ground (arith, h, e, q))
  ]
]

abbrev pub settings_of : InstantiateMsg → String → String → String → ConfigResponse
settings_of msg owner account token = record {
  owner = owner;
  new_owner = none;
  steak_token = token;
  epoch_period = msg.epoch_period;
  unbond_period = msg.unbond_period;
  denom = msg.denom;
  fee_type = msg.fee_account_type;
  fee_account = account;
  fee_rate = msg.fee_amount;
  max_fee_rate = msg.max_fee_amount;
  validators = msg.validators;
}

-- Once a hub is instantiated and its token is registered, the query for the configuration answers the
-- settings of the instantiation, with the kind of fee account by its name and with the addresses as
-- they were validated.
pub config_of_new_hub :
    (c : Chain) (env : Env) (msg : InstantiateMsg) (events : List Event) (st st' : State)
    (msgs msgs' : Response)
    → instantiate c env msg no_state ≡ ok (st, msgs)
    → register_steak_token c events st ≡ ok (st', msgs')
    → (owner account token : String) × (c.addr_validate msg.owner ≡ ok owner)
      × (c.addr_validate msg.fee_account ≡ ok account)
      × (st'.steak_token ≡ some token)
      × (query c env config st' ≡ ok (configuration (settings_of msg owner account token)))
unfolding instantiate register_steak_token query Queries.config
config_of_new_hub c env msg events st st' msgs msgs' h g =
    >>=-elim (require (leb msg.max_fee_amount decimal_fractional) max_fee_too_high) _ h λ _ _ h₁.
      >>=-elim (require (leb msg.fee_amount msg.max_fee_amount) fee_above_max) _ h₁ λ _ _ h₂.
        >>=-elim (fee_type_of msg.fee_account_type) _ h₂ λ kind is_kind h₃.
          >>=-elim (c.addr_validate msg.owner) _ h₃ λ owner is_owner h₄.
            >>=-elim (c.addr_validate msg.fee_account) _ h₄ λ account is_account h₅.
              >>=-elim (add_u64 env.time msg.epoch_period) _ h₅ λ start _ h₆.
                >>=-elim (ok_or (find_event "instantiate" events) missing_event) _ g λ event _ g₁.
                  >>=-elim
                    (ok_or (find_attribute "_contract_address" event.attributes) missing_attribute)
                    _ g₁
                    λ address _ g₂. >>=-elim (c.addr_validate address) _ g₂ λ token _ g₃.
                      let name = fee_type_name-of msg.fee_account_type kind is_kind in
                      let e0 : st.owner ≡ some owner = ground (arith, h₆) in
                      let e1 : st.new_owner ≡ none = ground (arith, h₆) in
                      let e2 : st.epoch_period ≡ some msg.epoch_period = ground (arith, h₆) in
                      let e3 : st.unbond_period ≡ some msg.unbond_period = ground (arith, h₆) in
                      let e4 : st.denom ≡ some msg.denom = ground (arith, h₆) in
                      let e5 : st.fee_account_type ≡ some kind = ground (arith, h₆) in
                      let e6 : st.fee_account ≡ some account = ground (arith, h₆) in
                      let e7 : st.fee_rate ≡ some msg.fee_amount = ground (arith, h₆) in
                      let e8 : st.max_fee_rate ≡ some msg.max_fee_amount = ground (arith, h₆) in
                      let e9 : st.validators ≡ some msg.validators = ground (arith, h₆) in
                      let after : record st { steak_token = some token } ≡ st' = cc in
                      let answer : query c env config (record st { steak_token = some token })
                          ≡ ok (configuration (settings_of msg owner account token)) =
                        rw (e0, e1, e2, e3, e4, e5, e6, e7, e8, e9, name) refl in
                      (
                        owner,
                        account,
                        token,
                        is_owner,
                        is_account,
                        ap (λ (s : State). s.steak_token) (sym after),
                        subst
                            (λ (s : State).
                              query c env config s
                              ≡ ok (configuration (settings_of msg owner account token)))
                            after answer,
                      )
