-- ===== src/Hub/Tests/Orders.antt =====
-- Two users of one batch in `withdraw_unbonded` of contracts/hub/src/execute.rs.
use liquid_staking.Base.{
  String, true, false, str_eq, eq_iff, ◌≢◌, ◌+◌, ◌≤◌, ◌≡◌, refl, [], ◌∷◌, ok, arith,
}
use liquid_staking.Store.{lookup, save, remove, nat_key, pair_key}
use liquid_staking.Types.{UnbondRequest}
use liquid_staking.Hub.Withdraw.{Claims, claim, claim_ready}
use liquid_staking.Hub.Accounting.{IsAccounted}
use liquid_staking.Hub.Accounting.Claimed.Fair as Fair
use liquid_staking.Hub.Tests.Sample.{chain, batch, request, waiting}

-- Both have requests on batch 2, which owes 80 for 70 shares.
abbrev owed : Claims
owed = record {
  batches = (2, batch 2 true 70 80) ∷ [];
  requests = request 2 "ann" 30 ∷ request 2 "bob" 40 ∷ request 3 "bob" 80 ∷ [];
  refund = 0;
}

owed-IsAccounted : IsAccounted waiting owed.batches owed.requests
owed-IsAccounted = record {
  shares = λ k. ground arith;
  fresh = λ k le. ground arith;
  numbered = (refl, tt);
  keyed = (refl, (refl, (refl, tt)));
  unique_batches = (refl, tt);
  unique_requests = (refl, (refl, (refl, tt)));
}

abbrev of_ann : UnbondRequest
of_ann = record { id = 2; user = "ann"; shares = 30 }

abbrev of_bob : UnbondRequest
of_bob = record { id = 2; user = "bob"; shares = 40 }

abbrev ann_first : Claims
ann_first = record {
  batches = (2, batch 2 true 40 46) ∷ [];
  requests = request 2 "bob" 40 ∷ request 3 "bob" 80 ∷ [];
  refund = 34;
}

abbrev bob_first : Claims
bob_first = record {
  batches = (2, batch 2 true 30 35) ∷ [];
  requests = request 2 "ann" 30 ∷ request 3 "bob" 80 ∷ [];
  refund = 45;
}

abbrev bob_second : Claims
bob_second = record { batches = []; requests = request 3 "bob" 80 ∷ []; refund = 80 }

ann_first_run : claim chain 1000 "ann" owed of_ann (lookup 2 owed.batches) ≡ ok ann_first
unfolding claim claim_ready save remove
ann_first_run = refl

bob_first_run : claim chain 1000 "bob" owed of_bob (lookup 2 owed.batches) ≡ ok bob_first
unfolding claim claim_ready save remove
bob_first_run = refl

bob_second_run :
    claim chain 1000 "bob" ann_first of_bob (lookup 2 ann_first.batches) ≡ ok bob_second
unfolding claim claim_ready save remove
bob_second_run = refl

bob-ne-ann : ◌≢◌ {A = String} "bob" "ann"
bob-ne-ann h =
    let same : str_eq "bob" "ann" ≡ true = (eq_iff "bob" "ann").1 h in
    let apart : str_eq "bob" "ann" ≡ false = refl in absurd (ground (arith, same, apart))

-- Bob gets 46 after Ann, and 45 before her.
claim_order_fair_example :
    (Fair.gain owed bob_first ≤ Fair.gain ann_first bob_second)
    × (Fair.gain ann_first bob_second ≤ Fair.gain owed bob_first + 1)
claim_order_fair_example =
    Fair.claim_order_fair chain 1000 waiting "ann" "bob" owed ann_first bob_first bob_second of_ann
      of_bob owed-IsAccounted refl refl bob-ne-ann ann_first_run bob_first_run bob_second_run
