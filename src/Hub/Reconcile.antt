-- ===== src/Hub/Reconcile.antt =====
-- `reconcile` of contracts/hub/src/execute.rs.
use liquid_staking.Base.{
  ℕ, true, ◌-◌, List, [], ◌∷◌, Result, ok, load, ◌>>=◌, if◌then◌else◌, ◌==◌, ltb, not, ◌&&◌,
}
use liquid_staking.Uint.{add_u128, sum_u128, sub_uint}
use liquid_staking.Types.{Batch}
use liquid_staking.Store.{save, nat_key}
use liquid_staking.Chain.{Env, Chain, Response}
use liquid_staking.State.{State}
use liquid_staking.Coins
use liquid_staking.Math.Deduct.{reconcile_batches}

-- The batches whose index says that they are not reconciled and whose time is over, by their ids.
unfoldable pub due_batches : ℕ → List (ℕ × Batch) → List Batch
due_batches current_time [] = []
due_batches current_time ((id, b) ∷ m) =
    let rest = due_batches current_time m in
    if not b.reconciled && ltb b.est_unbond_end_time current_time then b ∷ rest else rest

-- The loop that marks the batches and saves them.
unfoldable pub save_reconciled : List Batch → List (ℕ × Batch) → List (ℕ × Batch)
save_reconciled [] m = m
save_reconciled (b ∷ bs) m = save_reconciled bs (save b.id (record b { reconciled = true }) m)

unfoldable pub deduct_if_short : List Batch → ℕ → ℕ → Result (List Batch)
deduct_if_short batches native_expected native_actual =
    if native_expected - native_actual == 0 then ok batches else (do
      native_to_deduct ← sub_uint native_expected native_actual
      reconcile_batches batches native_to_deduct)

module _ (c : Chain) where
  unfoldable pub reconcile : Env → State → Result (State × Response)
  reconcile env st = do
    let batches = due_batches env.time st.previous_batches
    native_expected_received ← sum_u128 (λ (b : Batch). b.amount_unclaimed) batches
    denom ← load st.denom
    unlocked_coins ← load st.unlocked_coins
    native_expected ← add_u128 native_expected_received (Coins.find unlocked_coins denom).amount
    native_actual ← c.query_balance env.contract denom
    batches' ← deduct_if_short batches native_expected native_actual
    ok (record st { previous_batches = save_reconciled batches' st.previous_batches }, [])
