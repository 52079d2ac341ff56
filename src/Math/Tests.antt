-- ===== src/Math/Tests.antt =====
-- Runs of contracts/hub/src/math.rs and contracts/hub/src/types/coins.rs at concrete inputs.
use liquid_staking.Base.{
  ℕ, String, ◌+◌, ◌-◌, ◌*◌, ◌/◌, ◌%◌, ◌≡◌, ◌≤◌, refl, List, [], ◌∷◌, Result, ok, err, panic, arith,
  sum_by, All, contains, true, false,
}
use liquid_staking.Uint.{CosmwasmMath, floor_ratio, decimal_fractional}
use liquid_staking.Types.{Delegation, Undelegation, Redelegation, Coin, Batch}
use liquid_staking.Coins
use liquid_staking.Math.Share.{even_share}
use liquid_staking.Math.Exchange
use liquid_staking.Math.Undelegate
use liquid_staking.Math.Removal
use liquid_staking.Math.Target
use liquid_staking.Math.Deduct
use liquid_staking.Math.Rebalance

-- The arithmetic as it is documented.
abbrev pub math : CosmwasmMath
math = record {
  multiply_ratio = floor_ratio;
  multiply_ratio_lem = λ a n d. refl;
  from_ratio = λ n d. floor_ratio n decimal_fractional d;
  from_ratio_lem = λ n d. refl;
  decimal_mul = λ d x. floor_ratio x d decimal_fractional;
  decimal_mul_lem = λ d x. refl;
}

abbrev delegation : String → ℕ → Delegation
delegation v n = record { validator = v; amount = n; denom = "utoken" }

abbrev two : List Delegation
two = delegation "alpha" 600 ∷ delegation "beta" 300 ∷ []

abbrev three : List Delegation
three = delegation "alpha" 600 ∷ delegation "beta" 300 ∷ delegation "gamma" 100 ∷ []

abbrev batch : ℕ → ℕ → Batch
batch id n = record {
  id = id;
  reconciled = false;
  total_shares = 100;
  amount_unclaimed = n;
  est_unbond_end_time = 50;
}

abbrev settled : ℕ → ℕ → Batch
settled id n = record {
  id = id;
  reconciled = true;
  total_shares = 100;
  amount_unclaimed = n;
  est_unbond_end_time = 50;
}

minted : Exchange.compute_mint_amount math 800 90 two ≡ ok 80
unfolding Exchange.compute_mint_amount
minted = refl

unbonded : Exchange.compute_unbond_amount math 800 80 two ≡ ok 90
unfolding Exchange.compute_unbond_amount
unbonded = refl

unbonded_after :
    Exchange.compute_unbond_amount math 880 80 (delegation "alpha" 690 ∷ delegation "beta" 300 ∷ [])
    ≡ ok 90
unfolding Exchange.compute_unbond_amount
unbonded_after = refl

compute_mint_amount_no_dilution_example : 900 * (800 + 80) ≤ (900 + 90) * 800
compute_mint_amount_no_dilution_example =
    Exchange.compute_mint_amount_no_dilution math 800 90 80 two (omega arith) minted

bond_then_unbond_no_profit_example : 90 ≤ 90
bond_then_unbond_no_profit_example =
    Exchange.bond_then_unbond_no_profit math 800 90 80 90 two
      (delegation "alpha" 690 ∷ delegation "beta" 300 ∷ []) minted refl unbonded_after

compute_unbond_amount_fair_example : (90 ≤ 900) × (900 * (800 - 80) ≤ (900 - 90) * 800)
compute_unbond_amount_fair_example =
    Exchange.compute_unbond_amount_fair math 800 80 90 two (omega arith) unbonded

compute_undelegations_exact_example :
    (us : List Undelegation) × (Undelegate.compute_undelegations 451 three "utoken" ≡ ok us)
    × (sum_by (λ (u : Undelegation). u.amount) us ≡ 451)
compute_undelegations_exact_example =
    Undelegate.compute_undelegations_exact 451 three "utoken" (omega arith) (omega arith)
      (omega arith)

abbrev drawn : List Undelegation
drawn =
    record { validator = "alpha"; amount = 417; denom = "utoken" }
    ∷ record { validator = "beta"; amount = 34; denom = "utoken" }
    ∷ []

drawn_run : Undelegate.compute_undelegations 451 three "utoken" ≡ ok drawn
unfolding Undelegate.compute_undelegations Undelegate.undelegate_loop even_share
drawn_run = refl

compute_redelegations_for_removal_exact_example :
    (rs : List Redelegation) × (Removal.compute_redelegations_for_removal
        (delegation "gamma" 101)
        two
        "utoken"
      ≡ ok rs)
    × (sum_by (λ (r : Redelegation). r.amount) rs ≡ 101)
compute_redelegations_for_removal_exact_example =
    Removal.compute_redelegations_for_removal_exact (delegation "gamma" 101) two "utoken"
      (omega arith) (omega arith)

abbrev lifted : List Redelegation
lifted = record { src = "gamma"; dst = "beta"; amount = 101; denom = "utoken" } ∷ []

lifted_run :
    Removal.compute_redelegations_for_removal (delegation "gamma" 101) two "utoken" ≡ ok lifted
unfolding Removal.compute_redelegations_for_removal Removal.removal_loop even_share
lifted_run = refl

reconciled_run :
    Deduct.reconcile_batches (batch 1 70 ∷ batch 2 80 ∷ []) 11
    ≡ ok (settled 1 64 ∷ settled 2 75 ∷ [])
unfolding Deduct.reconcile_batches Deduct.deduct_loop even_share
reconciled_run = refl

reconcile_batches_exact_example :
    (139 + 11 ≡ 150)
    × Deduct.Deducted
        (11 / 2)
        (11 % 2)
        0
        (batch 1 70 ∷ batch 2 80 ∷ [])
        (settled 1 64 ∷ settled 2 75 ∷ [])
reconcile_batches_exact_example =
    Deduct.reconcile_batches_exact (batch 1 70 ∷ batch 2 80 ∷ []) 11
      (settled 1 64 ∷ settled 2 75 ∷ []) reconciled_run

reconcile_batches_panics_example :
    Deduct.reconcile_batches (batch 1 3 ∷ batch 2 80 ∷ []) 11 ≡ err panic
unfolding even_share
reconcile_batches_panics_example =
    Deduct.reconcile_batches_panics (batch 1 3 ∷ batch 2 80 ∷ []) 11 (λ h. omega (arith, h.0))

target_run : Target.compute_target_delegation_from_mining_power math 900 1 3 ≡ ok 299
unfolding Target.compute_target_delegation_from_mining_power
target_run = refl

other_target_run : Target.compute_target_delegation_from_mining_power math 900 2 3 ≡ ok 599
unfolding Target.compute_target_delegation_from_mining_power
other_target_run = refl

-- Every validator is to have 450.
abbrev even_target : Delegation → Result ℕ
even_target d = ok 450

abbrev moves : List Redelegation
moves = record { src = "alpha"; dst = "beta"; amount = 150; denom = "utoken" } ∷ []

moves_run :
    Rebalance.compute_redelegations_for_rebalancing ("alpha" ∷ "beta" ∷ []) two 10 even_target
    ≡ ok moves
unfolding Rebalance.compute_redelegations_for_rebalancing Rebalance.split_loop Rebalance.place
    Rebalance.match_loop Rebalance.use_up
moves_run = refl

compute_redelegations_for_rebalancing_within_example :
    (Rebalance.moved_from "alpha" moves ≤ 150)
    × (Rebalance.moved_to "alpha" moves ≤ 0)
    × All (λ (r : Redelegation). contains ("alpha" ∷ "beta" ∷ []) r.dst ≡ true) moves
compute_redelegations_for_rebalancing_within_example =
    Rebalance.compute_redelegations_for_rebalancing_within ("alpha" ∷ "beta" ∷ []) two 10
      even_target (λ d. 450) "alpha" moves (λ d. refl) moves_run

compute_redelegations_for_rebalancing_total_example :
    (rs : List Redelegation) × (Rebalance.compute_redelegations_for_rebalancing
        ("alpha" ∷ "beta" ∷ [])
        two
        10
        even_target
      ≡ ok rs)
compute_redelegations_for_rebalancing_total_example =
    Rebalance.compute_redelegations_for_rebalancing_total ("alpha" ∷ "beta" ∷ []) two 10 even_target
      (λ d. 450) (omega arith) (omega arith) (λ d. refl) (λ d. omega arith)

abbrev coin : String → ℕ → Coin
coin d n = record { denom = d; amount = n }

added_run :
    Coins.add_many (coin "utoken" 5 ∷ []) (coin "uother" 1 ∷ coin "utoken" 2 ∷ [])
    ≡ ok (coin "utoken" 7 ∷ coin "uother" 1 ∷ [])
unfolding Coins.add_many Coins.add
added_run = refl
