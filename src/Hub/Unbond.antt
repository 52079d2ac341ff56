-- ===== src/Hub/Unbond.antt =====
-- `queue_unbond` and `submit_batch` of contracts/hub/src/execute.rs.
use liquid_staking.Base.{
  ℕ, String, false, Option, some, none, [], ◌∷◌, ◌++◌, map, Result, ok, too_early, load, ◌>>=◌,
  ◌>>◌, if◌then◌else◌, ltb, leb, require, not,
}
use liquid_staking.Uint.{add_u128, add_u64}
use liquid_staking.Types.{Undelegation, PendingBatch, Batch, UnbondRequest}
use liquid_staking.Store.{lookup, save, nat_key, pair_key}
use liquid_staking.Chain.{
  Env, Chain, Response, message, reply_on_success, undelegate, burn, call_self,
  submit_batch as submit_call,
}
use liquid_staking.State.{State}
use liquid_staking.Helpers.{query_delegations}
use liquid_staking.Math.Exchange.{compute_unbond_amount}
use liquid_staking.Math.Undelegate.{compute_undelegations}

-- The request of `receiver` in the pending batch, as stored or new.
abbrev pub request_or_new : ℕ → String → Option UnbondRequest → UnbondRequest
request_or_new id receiver none = record { id = id; user = receiver; shares = 0 }
request_or_new id receiver (some r) = r

unfoldable pub queue_unbond : Env → String → ℕ → State → Result (State × Response)
queue_unbond env receiver usteak_to_burn st = do
  pending ← load st.pending_batch
  burned ← add_u128 pending.usteak_to_burn usteak_to_burn
  let pending_batch = record pending { usteak_to_burn = burned }
  let key : ℕ × String = (pending.id, receiver)
  let request = request_or_new pending.id receiver (lookup key st.unbond_requests)
  shares ← add_u128 request.shares usteak_to_burn
  let requests = save key (record request { shares = shares }) st.unbond_requests
  let due = leb pending.est_unbond_start_time env.time
  let msgs : Response = if due then message (call_self env.contract submit_call) ∷ [] else []
  ok (record st { pending_batch = some pending_batch; unbond_requests = requests }, msgs)

-- `REPLY_REGISTER_RECEIVED_COINS`
abbrev pub reply_register_received_coins : ℕ
reply_register_received_coins = 2

module _ (c : Chain) where
  unfoldable pub submit_batch : Env → State → Result (State × Response)
  submit_batch env st = do
    denom ← load st.denom
    steak_token ← load st.steak_token
    validators ← load st.validators
    unbond_period ← load st.unbond_period
    pending ← load st.pending_batch
    require (not (ltb env.time pending.est_unbond_start_time)) too_early
    delegations ← query_delegations c validators env.contract denom
    usteak_supply ← c.query_total_supply steak_token
    amount_to_bond ← compute_unbond_amount c.math usteak_supply pending.usteak_to_burn delegations
    undelegations ← compute_undelegations amount_to_bond delegations denom
    est_unbond_end_time ← add_u64 env.time unbond_period
    let batch : Batch = record {
      id = pending.id;
      reconciled = false;
      total_shares = pending.usteak_to_burn;
      amount_unclaimed = amount_to_bond;
      est_unbond_end_time = est_unbond_end_time;
    }
    epoch_period ← load st.epoch_period
    id ← add_u64 pending.id 1
    est_unbond_start_time ← add_u64 env.time epoch_period
    let next : PendingBatch = record {
      id = id;
      usteak_to_burn = 0;
      est_unbond_start_time = est_unbond_start_time;
    }
    balance ← c.query_balance env.contract denom
    let st' = record st {
      previous_batches = save pending.id batch st.previous_batches;
      pending_batch = some next;
      prev_denom = some balance;
    }
    ok (
      st',
      map (λ (u : Undelegation). reply_on_success (undelegate u) reply_register_received_coins)
            undelegations
          ++ message (burn steak_token pending.usteak_to_burn) ∷ [],
    )
