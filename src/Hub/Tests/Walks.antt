-- ===== src/Hub/Tests/Walks.antt =====
-- A hub of contracts/hub/src/contract.rs after two submissions, and its batches page by page.
use liquid_staking.Base.{ℕ, ◌+◌, ◌*◌, false, some, none, ◌≡◌, refl, [], ◌∷◌, ok, arith}
use liquid_staking.Types.{Batch}
use liquid_staking.Store.{save, nat_key}
use liquid_staking.Chain.{Env, message, burn}
use liquid_staking.State.{State}
use liquid_staking.Helpers.{query_delegation, query_delegations}
use liquid_staking.Math.Exchange.{compute_unbond_amount}
use liquid_staking.Math.Undelegate.{compute_undelegations, undelegate_loop}
use liquid_staking.Math.Share.{even_share}
use liquid_staking.Hub.Unbond as Unbond
use liquid_staking.Hub.Contract as Contract
use liquid_staking.Hub.Invariant.Reachable as Reachable
use liquid_staking.Hub.Queries.Walk as Walk
use liquid_staking.Hub.Tests.Sample.{chain, info}
use liquid_staking.Hub.Tests.Roles.{registered, registered-Reachable}

abbrev block_at : ℕ → Env
block_at time = record { time = time; height = 50; contract = "hub" }

abbrev closed : ℕ → Batch
closed id = record {
  id = id;
  reconciled = false;
  total_shares = 0;
  amount_unclaimed = 0;
  est_unbond_end_time = 1020 + 10 * id;
}

abbrev once : State
once = record registered {
  previous_batches = (1, closed 1) ∷ [];
  pending_batch = some (record { id = 2; usteak_to_burn = 0; est_unbond_start_time = 1020 });
  prev_denom = some 75;
}

abbrev twice : State
twice = record registered {
  previous_batches = (1, closed 1) ∷ (2, closed 2) ∷ [];
  pending_batch = some (record { id = 3; usteak_to_burn = 0; est_unbond_start_time = 1030 });
  prev_denom = some 75;
}

once_run :
    Contract.execute chain (block_at 1010) (info "ann") Contract.submit_batch registered
    ≡ ok (once, message (burn "steak" 0) ∷ [])
unfolding Contract.execute Unbond.submit_batch query_delegations query_delegation
    compute_unbond_amount compute_undelegations undelegate_loop even_share save
once_run = refl

twice_run :
    Contract.execute chain (block_at 1020) (info "ann") Contract.submit_batch once
    ≡ ok (twice, message (burn "steak" 0) ∷ [])
unfolding Contract.execute Unbond.submit_batch query_delegations query_delegation
    compute_unbond_amount compute_undelegations undelegate_loop even_share save
twice_run = refl

twice-Reachable : Reachable.Reachable twice
twice-Reachable =
    Reachable.step chain (block_at 1020) (info "ann") Contract.submit_batch
      (Reachable.step chain (block_at 1010) (info "ann") Contract.submit_batch registered-Reachable
        once_run)
      twice_run

all_pages_complete_example : Walk.all_pages 2 none (some 1) twice ≡ closed 1 ∷ closed 2 ∷ []
all_pages_complete_example =
    Walk.all_pages_complete 2 (some 1) twice twice-Reachable (omega arith) (omega arith)
