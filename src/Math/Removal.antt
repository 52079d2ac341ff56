-- ===== src/Math/Removal.antt =====
-- `compute_redelegations_for_removal` of contracts/hub/src/math.rs: how the delegation of a removed
-- validator is spread over the others.
use liquid_staking.Base.{
  ℕ, ◌+◌, ◌-◌, ◌/◌, ◌%◌, ◌≤◌, ◌<◌, ◌≡◌, refl, inl, inr, List, [], ◌∷◌, ltb, ◌==◌, if◌then◌else◌,
  length, sum_by, min, arith, Bool-cases, String, Result, ok, ◌>>=◌,
}
use liquid_staking.Uint.{u128_limit, sum_u128, add_u128, div_uint, rem_uint}
use liquid_staking.Types.{Delegation, Redelegation}
use liquid_staking.Math.Share.{even_share, sum_shares, sum_shares-eq}

-- `native_to_redelegate` before it is capped by what is left to place.
abbrev pub shortfall : ℕ → ℕ → ℕ
shortfall amount native_for_validator =
    if ltb native_for_validator amount then 0 else native_for_validator - amount

-- The loop, from the place `i` on, with `native_available` still to be placed.
unfoldable pub removal_loop :
    Delegation → ℕ → ℕ → String → ℕ → ℕ → List Delegation → List Redelegation
removal_loop removed per remainder denom i native_available [] = []
removal_loop removed per remainder denom i native_available (d ∷ ds) =
    let native_to_redelegate =
      min (shortfall d.amount (even_share per remainder i)) native_available in
    let left = native_available - native_to_redelegate in
    let rest = removal_loop removed per remainder denom (i + 1) left ds in
    let out : List Redelegation = if left == 0 then [] else rest in
    let r : Redelegation = record {
      src = removed.validator;
      dst = d.validator;
      amount = native_to_redelegate;
      denom = denom;
    } in
    if ltb 0 native_to_redelegate then r ∷ out else out

unfoldable pub compute_redelegations_for_removal :
    Delegation → List Delegation → String → Result (List Redelegation)
compute_redelegations_for_removal delegation_to_remove current_delegations denom = do
  native_staked ← sum_u128 (λ (d : Delegation). d.amount) current_delegations
  native_to_distribute ← add_u128 native_staked delegation_to_remove.amount
  native_per_validator ← div_uint native_to_distribute (length current_delegations)
  remainder ← rem_uint native_to_distribute (length current_delegations)
  ok (
      removal_loop delegation_to_remove native_per_validator remainder denom 0
        delegation_to_remove.amount current_delegations)

abbrev sum_shortfall : ℕ → ℕ → ℕ → List Delegation → ℕ
sum_shortfall per remainder i [] = 0
sum_shortfall per remainder i (d ∷ ds) =
    shortfall d.amount (even_share per remainder i) + sum_shortfall per remainder (i + 1) ds

sum_removal_loop :
    (removed : Delegation) (per remainder : ℕ) (denom : String) (i available : ℕ)
    (ds : List Delegation)
    → sum_by
        (λ (r : Redelegation). r.amount)
        (removal_loop removed per remainder denom i available ds)
      ≡ min available (sum_shortfall per remainder i ds)
unfolding removal_loop
sum_removal_loop removed per remainder denom i available [] = omega arith
sum_removal_loop removed per remainder denom i available (d ∷ ds) =
    let got = min (shortfall d.amount (even_share per remainder i)) available in
    ground (arith, sum_removal_loop removed per remainder denom (i + 1) (available - got) ds)

shortfall_covers :
    (per remainder i : ℕ) (ds : List Delegation)
    → sum_shares per remainder i ds
      ≤ sum_shortfall per remainder i ds + sum_by (λ (d : Delegation). d.amount) ds
shortfall_covers per remainder i [] = omega arith
shortfall_covers per remainder i (d ∷ ds) =
    ground (arith, shortfall_covers per remainder (i + 1) ds)

-- With at least one validator left, and a total that fits 128 bits, there is a result, and the
-- redelegations add up to exactly the delegation of the removed validator.
pub compute_redelegations_for_removal_exact :
    (removed : Delegation) (ds : List Delegation) (denom : String)
    → 0 < length ds
    → sum_by (λ (d : Delegation). d.amount) ds + removed.amount < u128_limit
    → (rs : List Redelegation) × (compute_redelegations_for_removal removed ds denom ≡ ok rs)
      × (sum_by (λ (r : Redelegation). r.amount) rs ≡ removed.amount)
unfolding compute_redelegations_for_removal
compute_redelegations_for_removal_exact removed ds denom pos fits =
    let total = sum_by (λ (d : Delegation). d.amount) ds + removed.amount in
    let per = total / length ds in
    let remainder = total % length ds in
    (
      removal_loop removed per remainder denom 0 removed.amount ds,
      ground arith,
      ground (
        arith,
        sum_removal_loop removed per remainder denom 0 removed.amount ds,
        shortfall_covers per remainder 0 ds,
        sum_shares-eq total ds,
      ),
    )

-- `rs` tops `ds` up in their order, from the place `i` on: each redelegation leads from the removed
-- validator to the one that it tops up, is not zero, and lifts it to its even share at most.
pub data ToppedUp (source : String) (per remainder : ℕ)
    : ℕ → List Delegation → List Redelegation → Type 0 where
  stop : {i : ℕ} {ds : List Delegation} → ToppedUp source per remainder i ds []
  skip :
      {i : ℕ} {d : Delegation} {ds : List Delegation} {rs : List Redelegation}
      → ToppedUp source per remainder (i + 1) ds rs
      → ToppedUp source per remainder i (d ∷ ds) rs
  top_up :
      {i : ℕ} {d : Delegation} {ds : List Delegation} {r : Redelegation} {rs : List Redelegation}
      → r.src ≡ source
      → r.dst ≡ d.validator
      → 0 < r.amount
      → d.amount + r.amount ≤ even_share per remainder i
      → ToppedUp source per remainder (i + 1) ds rs
      → ToppedUp source per remainder i (d ∷ ds) (r ∷ rs)

removal_loop-ToppedUp :
    (removed : Delegation) (per remainder : ℕ) (denom : String) (i available : ℕ)
    (ds : List Delegation)
    → ToppedUp removed.validator per remainder i ds
        (removal_loop removed per remainder denom i available ds)
unfolding removal_loop
removal_loop-ToppedUp removed per remainder denom i available [] = stop
removal_loop-ToppedUp removed per remainder denom i available (d ∷ ds) =
    let got = min (shortfall d.amount (even_share per remainder i)) available in
    let ih = removal_loop-ToppedUp removed per remainder denom (i + 1) (available - got) ds in
    elim (Bool-cases (ltb 0 got)) [
      | inl p ↦ elim (Bool-cases (available - got == 0)) [
        | inl q ↦ rw (p, q) (top_up refl refl (ground arith) (ground arith) stop)
        | inr q ↦ rw (p, q) (top_up refl refl (ground arith) (ground arith) ih)
      ]
      | inr p ↦ elim (Bool-cases (available - got == 0)) [
        | inl q ↦ rw (p, q) stop
        | inr q ↦ rw (p, q) (skip ih)
      ]
    ]

-- No validator is lifted above its even share of the new total `t`: of `n` delegations, the one at
-- place `i` gets no more than up to `t / n`, and one more if `i < t % n`.
pub compute_redelegations_for_removal-ToppedUp :
    (removed : Delegation) (ds : List Delegation) (denom : String) (rs : List Redelegation)
    → compute_redelegations_for_removal removed ds denom ≡ ok rs
    → let t = sum_by (λ (d : Delegation). d.amount) ds + removed.amount in
      ToppedUp removed.validator (t / length ds) (t % length ds) 0 ds rs
unfolding compute_redelegations_for_removal
compute_redelegations_for_removal-ToppedUp removed ds denom rs h =
    let t = sum_by (λ (d : Delegation). d.amount) ds + removed.amount in
    let n = length ds in
    let e : rs ≡ removal_loop removed (t / n) (t % n) denom 0 removed.amount ds = ground arith in
    rw e (removal_loop-ToppedUp removed (t / n) (t % n) denom 0 removed.amount ds)
