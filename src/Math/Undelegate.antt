-- ===== src/Math/Undelegate.antt =====
-- `compute_undelegations` of contracts/hub/src/math.rs: how an amount to unbond is drawn from the
-- current delegations.
use liquid_staking.Base.{
  ℕ, ◌+◌, ◌-◌, ◌/◌, ◌%◌, ◌≤◌, ◌<◌, ◌≡◌, refl, ◌⊎◌, inl, inr, List, [], ◌∷◌, ltb, ◌==◌, All,
  if◌then◌else◌, length, sum_by, min, arith, Bool-cases, String, Result, ok, err, panic, ◌>>=◌,
}
use mathlib.Core.Path.{subst}
use liquid_staking.Uint.{u128_limit, sum_u128, sub_uint, div_uint, rem_uint}
use liquid_staking.Types.{Delegation, Undelegation}
use liquid_staking.Math.Share.{even_share, sum_shares, sum_shares-eq}

-- `native_to_undelegate` before it is capped by what is still to be drawn.
abbrev pub excess : ℕ → ℕ → ℕ
excess amount native_for_validator =
    if ltb amount native_for_validator then 0 else amount - native_for_validator

-- The loop, from the place `i` on, with `native_available` still to be drawn.
unfoldable pub undelegate_loop : ℕ → ℕ → String → ℕ → ℕ → List Delegation → List Undelegation
undelegate_loop per remainder denom i native_available [] = []
undelegate_loop per remainder denom i native_available (d ∷ ds) =
    let native_to_undelegate =
      min (excess d.amount (even_share per remainder i)) native_available in
    let left = native_available - native_to_undelegate in
    let rest = undelegate_loop per remainder denom (i + 1) left ds in
    let out : List Undelegation = if left == 0 then [] else rest in
    let u : Undelegation = record {
      validator = d.validator;
      amount = native_to_undelegate;
      denom = denom;
    } in
    if ltb 0 native_to_undelegate then u ∷ out else out

unfoldable pub compute_undelegations : ℕ → List Delegation → String → Result (List Undelegation)
compute_undelegations native_to_unbond current_delegations denom = do
  native_staked ← sum_u128 (λ (d : Delegation). d.amount) current_delegations
  native_to_distribute ← sub_uint native_staked native_to_unbond
  native_per_validator ← div_uint native_to_distribute (length current_delegations)
  remainder ← rem_uint native_to_distribute (length current_delegations)
  ok (undelegate_loop native_per_validator remainder denom 0 native_to_unbond current_delegations)

-- All that could be drawn if nothing were capped.
abbrev sum_excess : ℕ → ℕ → ℕ → List Delegation → ℕ
sum_excess per remainder i [] = 0
sum_excess per remainder i (d ∷ ds) =
    excess d.amount (even_share per remainder i) + sum_excess per remainder (i + 1) ds

sum_undelegate_loop :
    (per remainder : ℕ) (denom : String) (i available : ℕ) (ds : List Delegation)
    → sum_by (λ (u : Undelegation). u.amount) (undelegate_loop per remainder denom i available ds)
      ≡ min available (sum_excess per remainder i ds)
unfolding undelegate_loop
sum_undelegate_loop per remainder denom i available [] = omega arith
sum_undelegate_loop per remainder denom i available (d ∷ ds) =
    let got = min (excess d.amount (even_share per remainder i)) available in
    ground (arith, sum_undelegate_loop per remainder denom (i + 1) (available - got) ds)

excess_covers :
    (per remainder i : ℕ) (ds : List Delegation)
    → sum_by (λ (d : Delegation). d.amount) ds
      ≤ sum_excess per remainder i ds + sum_shares per remainder i ds
excess_covers per remainder i [] = omega arith
excess_covers per remainder i (d ∷ ds) = ground (arith, excess_covers per remainder (i + 1) ds)

-- For a list of delegations that is not empty, and an amount of at most their sum, there is a
-- result, and the undelegations add up to exactly that amount.
pub compute_undelegations_exact :
    (native_to_unbond : ℕ) (ds : List Delegation) (denom : String)
    → 0 < length ds
    → sum_by (λ (d : Delegation). d.amount) ds < u128_limit
    → native_to_unbond ≤ sum_by (λ (d : Delegation). d.amount) ds
    → (us : List Undelegation) × (compute_undelegations native_to_unbond ds denom ≡ ok us)
      × (sum_by (λ (u : Undelegation). u.amount) us ≡ native_to_unbond)
unfolding compute_undelegations
compute_undelegations_exact n ds denom pos fits le =
    let total = sum_by (λ (d : Delegation). d.amount) ds in
    let per = (total - n) / length ds in
    let remainder = (total - n) % length ds in
    (
      undelegate_loop per remainder denom 0 n ds,
      ground arith,
      ground (
        arith,
        sum_undelegate_loop per remainder denom 0 n ds,
        excess_covers per remainder 0 ds,
        sum_shares-eq (total - n) ds,
      ),
    )

-- Without delegations, or for more than their sum, the computation panics.
pub compute_undelegations_panics :
    (native_to_unbond : ℕ) (ds : List Delegation) (denom : String)
    → (length ds ≡ 0) ⊎ (sum_by (λ (d : Delegation). d.amount) ds < native_to_unbond)
    → compute_undelegations native_to_unbond ds denom ≡ err panic
unfolding compute_undelegations
compute_undelegations_panics n ds denom h = ground arith

-- `us` is drawn from `ds` in their order, from the place `i` on: each undelegation names the
-- validator that it is drawn from, is not zero, and leaves that validator its even share.
pub data Drawn (per remainder : ℕ) : ℕ → List Delegation → List Undelegation → Type 0 where
  stop : {i : ℕ} {ds : List Delegation} → Drawn per remainder i ds []
  skip :
      {i : ℕ} {d : Delegation} {ds : List Delegation} {us : List Undelegation}
      → Drawn per remainder (i + 1) ds us
      → Drawn per remainder i (d ∷ ds) us
  draw :
      {i : ℕ} {d : Delegation} {ds : List Delegation} {u : Undelegation} {us : List Undelegation}
      → u.validator ≡ d.validator
      → 0 < u.amount
      → u.amount + even_share per remainder i ≤ d.amount
      → Drawn per remainder (i + 1) ds us
      → Drawn per remainder i (d ∷ ds) (u ∷ us)

undelegate_loop-Drawn :
    (per remainder : ℕ) (denom : String) (i available : ℕ) (ds : List Delegation)
    → Drawn per remainder i ds (undelegate_loop per remainder denom i available ds)
unfolding undelegate_loop
undelegate_loop-Drawn per remainder denom i available [] = stop
undelegate_loop-Drawn per remainder denom i available (d ∷ ds) =
    let share = even_share per remainder i in
    let got = min (excess d.amount share) available in
    let ih = undelegate_loop-Drawn per remainder denom (i + 1) (available - got) ds in
    elim (Bool-cases (ltb 0 got)) [
      | inl p ↦ elim (Bool-cases (available - got == 0)) [
        | inl q ↦ rw (p, q) (draw refl (ground arith) (ground arith) stop)
        | inr q ↦ rw (p, q) (draw refl (ground arith) (ground arith) ih)
      ]
      | inr p ↦ elim (Bool-cases (available - got == 0)) [
        | inl q ↦ rw (p, q) stop
        | inr q ↦ rw (p, q) (skip ih)
      ]
    ]

-- Whatever is drawn keeps the delegations even: with `n` the number of delegations and `t` what is to
-- stay staked, the validator at place `i` keeps at least `t / n`, and one more if `i < t % n`.
pub compute_undelegations-Drawn :
    (native_to_unbond : ℕ) (ds : List Delegation) (denom : String) (us : List Undelegation)
    → compute_undelegations native_to_unbond ds denom ≡ ok us
    → let t = sum_by (λ (d : Delegation). d.amount) ds - native_to_unbond in
      Drawn (t / length ds) (t % length ds) 0 ds us
unfolding compute_undelegations
compute_undelegations-Drawn n ds denom us h =
    let t = sum_by (λ (d : Delegation). d.amount) ds - n in
    let e : us ≡ undelegate_loop (t / length ds) (t % length ds) denom 0 n ds = ground arith in
    rw e (undelegate_loop-Drawn (t / length ds) (t % length ds) denom 0 n ds)

-- A result always adds up to the amount that was asked for.
pub sum_undelegations :
    (native_to_unbond : ℕ) (ds : List Delegation) (denom : String) (us : List Undelegation)
    → compute_undelegations native_to_unbond ds denom ≡ ok us
    → sum_by (λ (u : Undelegation). u.amount) us ≡ native_to_unbond
unfolding compute_undelegations
sum_undelegations n ds denom us h =
    let (us', e, total) =
      compute_undelegations_exact n ds denom (ground arith) (ground arith) (ground arith) in
    let same : us ≡ us' = cc in rw same total

undelegate_loop_denom :
    (per remainder : ℕ) (denom : String) (i available : ℕ) (ds : List Delegation)
    → All
        (λ (u : Undelegation). u.denom ≡ denom)
        (undelegate_loop per remainder denom i available ds)
unfolding undelegate_loop
undelegate_loop_denom per remainder denom i available [] = tt
undelegate_loop_denom per remainder denom i available (d ∷ ds) =
    let got = min (excess d.amount (even_share per remainder i)) available in
    let ih = undelegate_loop_denom per remainder denom (i + 1) (available - got) ds in
    elim (Bool-cases (ltb 0 got)) [
      | inl p ↦ elim (Bool-cases (available - got == 0)) [
        | inl q ↦ rw (p, q) (refl, tt)
        | inr q ↦ rw (p, q) (refl, ih)
      ]
      | inr p ↦ elim (Bool-cases (available - got == 0)) [
        | inl q ↦ rw (p, q) tt
        | inr q ↦ rw (p, q) ih
      ]
    ]

-- All undelegations are in the denomination.
pub compute_undelegations_denom :
    (native_to_unbond : ℕ) (ds : List Delegation) (denom : String) (us : List Undelegation)
    → compute_undelegations native_to_unbond ds denom ≡ ok us
    → All (λ (u : Undelegation). u.denom ≡ denom) us
unfolding compute_undelegations
compute_undelegations_denom n ds denom us h =
    let total = sum_by (λ (d : Delegation). d.amount) ds in
    let per = (total - n) / length ds in
    let remainder = (total - n) % length ds in
    let same : undelegate_loop per remainder denom 0 n ds ≡ us = ground (arith, h) in
    subst (λ (l : List Undelegation). All (λ (u : Undelegation). u.denom ≡ denom) l) same
      (undelegate_loop_denom per remainder denom 0 n ds)
