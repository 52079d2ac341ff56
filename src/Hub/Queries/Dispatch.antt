-- ===== src/Hub/Queries/Dispatch.antt =====
-- `query` of contracts/hub/src/contract.rs, with the queries of packages/steak/src/hub.rs. An answer stands
-- for its encoding.
use liquid_staking.Base.{ℕ, String, Option, List, Result, ok, ◌>>=◌}
use liquid_staking.Types.{
  Batch, PendingBatch, UnbondRequestsByBatchResponseItem, UnbondRequestsByUserResponseItem,
  ValidatorMiningPower,
}
use liquid_staking.Chain.{Env, Chain}
use liquid_staking.State.{State}
use liquid_staking.Hub.Queries as Queries
use liquid_staking.Hub.Queries.{ConfigResponse, StateResponse}
use liquid_staking.Hub.Queries.Pages as Pages

pub data QueryMsg : Type 0 where
  config state pending_batch miner_params : QueryMsg
  previous_batch : ℕ → QueryMsg
  -- start, limit
  previous_batches : Option ℕ → Option ℕ → QueryMsg
  -- batch, start, limit
  unbond_requests_by_batch : ℕ → Option String → Option ℕ → QueryMsg
  -- user, start, limit
  unbond_requests_by_user : String → Option ℕ → Option ℕ → QueryMsg
  -- start, limit
  validator_mining_powers : Option String → Option ℕ → QueryMsg

pub data Answer : Type 0 where
  configuration : ConfigResponse → Answer
  figures : StateResponse → Answer
  pending : PendingBatch → Answer
  one_batch : Batch → Answer
  batches : List Batch → Answer
  requests_of_batch : List UnbondRequestsByBatchResponseItem → Answer
  requests_of_user : List UnbondRequestsByUserResponseItem → Answer
  -- entropy and difficulty
  params : String → ℕ → Answer
  powers : List ValidatorMiningPower → Answer

module _ (c : Chain) where
  unfoldable pub query : Env → QueryMsg → State → Result Answer
  query env config st = Queries.config st >>= λ r. ok (configuration r)
  query env state st = Queries.query_state c env st >>= λ r. ok (figures r)
  query env pending_batch st = Queries.pending_batch st >>= λ r. ok (pending r)
  query env (previous_batch id) st = Queries.previous_batch id st >>= λ r. ok (one_batch r)
  query env (previous_batches start_after limit) st =
      ok (batches (Queries.previous_batches start_after limit st))
  query env (unbond_requests_by_batch id start_after limit) st =
      Pages.unbond_requests_by_batch c id start_after limit st >>= λ r. ok (requests_of_batch r)
  query env (unbond_requests_by_user user start_after limit) st =
      ok (requests_of_user (Pages.unbond_requests_by_user user start_after limit st))
  query env miner_params st = Queries.miner_params st >>= λ (r : String × ℕ). ok (params r.0 r.1)
  query env (validator_mining_powers start_after limit) st =
      ok (powers (Pages.validator_mining_powers start_after limit st))
