-- ===== src/Hub/Tests/Unbonding.antt =====
-- Runs of contracts/hub/src/execute.rs: withdrawing, reconciling and submitting batches.
use liquid_staking.Base.{
  ℕ, String, true, false, some, none, ◌+◌, ◌-◌, ◌≡◌, ◌<◌, refl, List, [], ◌∷◌, arith, ok, arith,
  err, nothing_to_withdraw,
}
use liquid_staking.Types.{Coin}
use liquid_staking.Store.{sum_over, save, remove, nat_key, pair_key, text_key}
use liquid_staking.Chain.{Response, message, reply_on_success, bank_send, undelegate, burn}
use liquid_staking.State.{State}
use liquid_staking.Coins
use liquid_staking.Helpers.{query_delegation, query_delegations}
use liquid_staking.Hub.Accounting.{unclaimed}
use liquid_staking.Hub.Withdraw as Withdraw
use liquid_staking.Hub.Reconcile as Reconcile
use liquid_staking.Hub.Unbond as Unbond
use liquid_staking.Hub.Contract as Contract
use liquid_staking.Hub.Ledger.{Allowed, ledger}
use liquid_staking.Hub.Ledger.Refined as Refined
use liquid_staking.Hub.Invariant as Invariant
use liquid_staking.Hub.Accounting.Claimed as Claimed
use liquid_staking.Hub.Accounting.Submit as Submit
use liquid_staking.Hub.Accounting.Reconciled as Reconciled
use liquid_staking.Math.Share.{even_share}
use liquid_staking.Math.Exchange.{compute_unbond_amount}
use liquid_staking.Math.Undelegate.{compute_undelegations, undelegate_loop}
use liquid_staking.Math.Deduct.{reconcile_batches, deduct_loop}
use liquid_staking.Hub.Tests.Sample.{
  chain, late, batch, request, hub, hub-IsValid, hub-IsSound, info,
}

abbrev paid : State
paid = record hub {
  previous_batches = (2, batch 2 false 70 80) ∷ [];
  unbond_requests = request 2 "ann" 30 ∷ request 2 "bob" 40 ∷ request 3 "bob" 80 ∷ [];
}

abbrev payment : Response
payment = message (bank_send "ann" (record { denom = "utoken"; amount = 49 })) ∷ []

paid_run : Withdraw.withdraw_unbonded chain late "ann" "ann" hub ≡ ok (paid, payment)
unfolding Withdraw.withdraw_unbonded Withdraw.claim_all Withdraw.claim Withdraw.claim_ready
    Withdraw.requests_of remove save
paid_run = refl

withdraw_unbonded_pays_example :
    (denom : String) × (amount : ℕ) × (hub.denom ≡ some denom)
    × (payment ≡ message (bank_send "ann" (record { denom = denom; amount = amount })) ∷ [])
    × (0 < amount)
    × (unclaimed paid.previous_batches + amount ≡ unclaimed hub.previous_batches)
withdraw_unbonded_pays_example =
    Claimed.withdraw_unbonded_pays chain late "ann" "ann" hub paid payment paid_run hub-IsValid

withdraw_unbonded_once_example :
    Withdraw.withdraw_unbonded chain late "ann" "ann" paid ≡ err nothing_to_withdraw
withdraw_unbonded_once_example =
    Claimed.withdraw_unbonded_once chain late "ann" "ann" hub paid payment paid_run hub-IsValid

execute_run :
    Contract.execute chain late (info "ann") (Contract.withdraw_unbonded none) hub
    ≡ ok (paid, payment)
unfolding Contract.execute Contract.receiver_or
execute_run = paid_run

execute-IsSound_example : Invariant.IsSound paid
execute-IsSound_example =
    Invariant.execute-IsSound chain late (info "ann") (Contract.withdraw_unbonded none) hub paid
      payment execute_run hub-IsSound

withdraw_unbonded_succeeds_example :
    (st' : State) × (msgs : Response) × (Withdraw.withdraw_unbonded chain late "ann" "ann" hub
      ≡ ok (st', msgs))
withdraw_unbonded_succeeds_example =
    Claimed.withdraw_unbonded_succeeds chain late "ann" "ann" hub "utoken" 1
      (record { id = 1; user = "ann"; shares = 50 }) hub-IsValid refl
      (omega arith, (omega arith, tt)) (omega arith) refl
      (record { batch = batch 1 true 50 49; found = refl; ready = refl; worth = omega arith })

execute-Allowed_example :
    Allowed chain late (info "ann") hub (Contract.withdraw_unbonded none) (ledger hub) (ledger paid)
execute-Allowed_example =
    Refined.execute-Allowed chain late (info "ann") (Contract.withdraw_unbonded none) hub paid
      payment execute_run hub-IsValid

abbrev reconciled : State
reconciled = record hub {
  previous_batches = (1, batch 1 true 50 49) ∷ (2, batch 2 true 70 75) ∷ [];
}

reconciled_run : Reconcile.reconcile chain late hub ≡ ok (reconciled, [])
unfolding Reconcile.reconcile Reconcile.due_batches Reconcile.save_reconciled
    Reconcile.deduct_if_short reconcile_batches deduct_loop even_share save Coins.find
reconciled_run = refl

reconcile_deducts_shortfall_example :
    (denom : String) × (coins : List Coin) × (actual : ℕ) × (hub.denom ≡ some denom)
    × (hub.unlocked_coins ≡ some coins)
    × (chain.query_balance late.contract denom ≡ ok actual)
    × (let expected =
          sum_over (Reconciled.called_for late.time) hub.previous_batches
          + Coins.first_in denom coins in
        unclaimed reconciled.previous_batches + (expected - actual)
        ≡ unclaimed hub.previous_batches)
reconcile_deducts_shortfall_example =
    Reconciled.reconcile_deducts_shortfall chain late hub reconciled [] reconciled_run hub-IsValid

abbrev submitted : State
submitted = record hub {
  previous_batches =
      (1, batch 1 true 50 49)
      ∷ (2, batch 2 false 70 80)
      ∷ (
        3,
        record {
          id = 3;
          reconciled = false;
          total_shares = 80;
          amount_unclaimed = 90;
          est_unbond_end_time = 1020;
        },
      )
      ∷ [];
  pending_batch = some (record { id = 4; usteak_to_burn = 0; est_unbond_start_time = 1010 });
  prev_denom = some 75;
}

abbrev submitted_messages : Response
submitted_messages =
    reply_on_success (undelegate (record { validator = "alpha"; amount = 90; denom = "utoken" })) 2
    ∷ message (burn "steak" 80)
    ∷ []

submitted_run : Unbond.submit_batch chain late hub ≡ ok (submitted, submitted_messages)
unfolding Unbond.submit_batch query_delegations query_delegation compute_unbond_amount
    compute_undelegations undelegate_loop even_share save
submitted_run = refl

submit_batch_undelegates_example : Submit.IsUndelegated chain late hub submitted submitted_messages
submit_batch_undelegates_example =
    Submit.submit_batch_undelegates chain late hub submitted submitted_messages submitted_run
