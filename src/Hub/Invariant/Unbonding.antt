-- ===== src/Hub/Invariant/Unbonding.antt =====
-- The handlers of unbonding in contracts/hub/src/execute.rs keep the invariants of the hub.
use liquid_staking.Base.{
  ℕ, String, false, ok, load, require, leb, ltb, not, ◌≡◌, refl, ap, too_early,
}
use liquid_staking.Uint.{add_u128, add_u64, sum_u128}
use liquid_staking.Types.{PendingBatch, Batch}
use liquid_staking.Store.{text_key, nat_key, pair_key, lookup}
use liquid_staking.Coins
use liquid_staking.Chain.{Env, Chain, Response}
use liquid_staking.State.{State}
use liquid_staking.Helpers.{query_delegations}
use liquid_staking.Math.Exchange.{compute_unbond_amount}
use liquid_staking.Math.Undelegate.{compute_undelegations}
use liquid_staking.Hub.Unbond.{queue_unbond, submit_batch, request_or_new}
use liquid_staking.Hub.Reconcile.{reconcile, due_batches, deduct_if_short}
use liquid_staking.Hub.Withdraw.{withdraw_unbonded}
use liquid_staking.Hub.Kept.{Keeps, keep_bind, keep_ok}
use liquid_staking.Hub.Accounting.Queue.{queue_unbond-IsValid}
use liquid_staking.Hub.Accounting.Submit.{submit_batch-IsValid}
use liquid_staking.Hub.Accounting.Reconciled.{reconcile-IsValid}
use liquid_staking.Hub.Accounting.Claimed.{withdraw_unbonded-IsValid, withdraw_inv}
use liquid_staking.Hub.Invariant.Parts.{IsSound, terms, terms-IsSound}

queue_unbond-Keeps :
    (env : Env) (receiver : String) (usteak_to_burn : ℕ) (st : State)
    → Keeps terms st (queue_unbond env receiver usteak_to_burn st)
unfolding queue_unbond
queue_unbond-Keeps env receiver usteak_to_burn st =
    keep_bind terms st (load st.pending_batch) λ pending.
      keep_bind terms st (add_u128 pending.usteak_to_burn usteak_to_burn) λ burned.
        let key : ℕ × String = (pending.id, receiver) in
        let request = request_or_new pending.id receiver (lookup key st.unbond_requests) in
        keep_bind terms st (add_u128 request.shares usteak_to_burn)
          λ shares. let due = leb pending.est_unbond_start_time env.time in keep_ok terms st _ refl

submit_batch-Keeps : (c : Chain) (env : Env) (st : State) → Keeps terms st (submit_batch c env st)
unfolding submit_batch
submit_batch-Keeps c env st = keep_bind terms st (load st.denom) λ denom.
    keep_bind terms st (load st.steak_token) λ steak_token.
      keep_bind terms st (load st.validators) λ validators.
        keep_bind terms st (load st.unbond_period) λ unbond_period.
          keep_bind terms st (load st.pending_batch) λ pending.
            keep_bind terms st
              (require (not (ltb env.time pending.est_unbond_start_time)) too_early)
              λ _.
                keep_bind terms st (query_delegations c validators env.contract denom)
                  λ delegations.
                    keep_bind terms st (c.query_total_supply steak_token) λ usteak_supply.
                      keep_bind terms st
                        (compute_unbond_amount c.math usteak_supply pending.usteak_to_burn
                          delegations)
                        λ amount_to_bond.
                          keep_bind terms st
                            (compute_undelegations amount_to_bond delegations denom)
                            λ _.
                              keep_bind terms st (add_u64 env.time unbond_period)
                                λ est_unbond_end_time.
                                  let batch : Batch = record {
                                    id = pending.id;
                                    reconciled = false;
                                    total_shares = pending.usteak_to_burn;
                                    amount_unclaimed = amount_to_bond;
                                    est_unbond_end_time = est_unbond_end_time;
                                  } in
                                  keep_bind terms st (load st.epoch_period) λ epoch_period.
                                    keep_bind terms st (add_u64 pending.id 1) λ id.
                                      keep_bind terms st (add_u64 env.time epoch_period)
                                        λ est_unbond_start_time.
                                          let next : PendingBatch = record {
                                            id = id;
                                            usteak_to_burn = 0;
                                            est_unbond_start_time = est_unbond_start_time;
                                          } in
                                          keep_bind terms st (c.query_balance env.contract denom)
                                            λ balance. keep_ok terms st _ refl

reconcile-Keeps : (c : Chain) (env : Env) (st : State) → Keeps terms st (reconcile c env st)
unfolding reconcile
reconcile-Keeps c env st =
    let batches = due_batches env.time st.previous_batches in
    keep_bind terms st (sum_u128 (λ (b : Batch). b.amount_unclaimed) batches)
      λ native_expected_received. keep_bind terms st (load st.denom) λ denom.
        keep_bind terms st (load st.unlocked_coins) λ unlocked_coins.
          keep_bind terms st
            (add_u128 native_expected_received (Coins.find unlocked_coins denom).amount)
            λ native_expected.
              keep_bind terms st (c.query_balance env.contract denom) λ native_actual.
                keep_bind terms st (deduct_if_short batches native_expected native_actual)
                  λ _. keep_ok terms st _ refl

pub queue_unbond-IsSound :
    (env : Env) (receiver : String) (amount : ℕ) (st st' : State) (msgs : Response)
    → queue_unbond env receiver amount st ≡ ok (st', msgs)
    → IsSound st
    → IsSound st'
queue_unbond-IsSound env receiver amount st st' msgs h s =
    terms-IsSound st st' (queue_unbond-IsValid env receiver amount st st' msgs h s.valid)
      (queue_unbond-Keeps env receiver amount st st' msgs h) s

pub submit_batch-IsSound :
    (c : Chain) (env : Env) (st st' : State) (msgs : Response)
    → submit_batch c env st ≡ ok (st', msgs)
    → IsSound st
    → IsSound st'
submit_batch-IsSound c env st st' msgs h s =
    terms-IsSound st st' (submit_batch-IsValid c env st st' msgs h s.valid)
      (submit_batch-Keeps c env st st' msgs h) s

pub reconcile-IsSound :
    (c : Chain) (env : Env) (st st' : State) (msgs : Response)
    → reconcile c env st ≡ ok (st', msgs)
    → IsSound st
    → IsSound st'
reconcile-IsSound c env st st' msgs h s =
    terms-IsSound st st' (reconcile-IsValid c env st st' msgs h s.valid)
      (reconcile-Keeps c env st st' msgs h) s

pub withdraw_unbonded-IsSound :
    (c : Chain) (env : Env) (user receiver : String) (st st' : State) (msgs : Response)
    → withdraw_unbonded c env user receiver st ≡ ok (st', msgs)
    → IsSound st
    → IsSound st'
withdraw_unbonded-IsSound c env user receiver st st' msgs h s =
    let w = withdraw_inv c env user receiver st st' msgs h in
    terms-IsSound st st' (withdraw_unbonded-IsValid c env user receiver st st' msgs h s.valid)
      (ap terms w.after) s
