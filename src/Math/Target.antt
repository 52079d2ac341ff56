-- ===== src/Math/Target.antt =====
-- `compute_target_delegation_from_mining_power` of contracts/hub/src/math.rs: the part of the total
-- delegation that a validator's mining power earns. The `Decimal` operations are the parameter `cw`.
use liquid_staking.Base.{
  ℕ, ◌*◌, ◌≤◌, ◌<◌, ◌≡◌, List, [], ◌∷◌, ltb, inl, inr, if◌then◌else◌, sum_by, arith, Result, ok,
  err, panic, ◌>>=◌, mining_power_too_high, Result-cases,
}
use liquid_staking.Uint.{
  CosmwasmMath, floor_ratio, decimal_fractional, floor_bounds, floor_ratio_inv,
}
use native.Mathlib.Nat.{le_of_mul-le-mul_right, mul-le-mul_left, mul-le-mul_right}

-- t * 10^18 ≤ total * r and r * tmp ≤ vmp * 10^18 give t * tmp ≤ vmp * total.
target_bound :
    (t r total vmp tmp one : ℕ)
    → 0 < one
    → t * one ≤ total * r
    → r * tmp ≤ vmp * one
    → t * tmp ≤ vmp * total
target_bound t r total vmp tmp one pos h k =
    let a : (t * one) * tmp ≤ (total * r) * tmp = mul-le-mul_right tmp h in
    let b : total * (r * tmp) ≤ total * (vmp * one) = mul-le-mul_left total k in
    let c : (t * tmp) * one ≤ (vmp * total) * one = grind (arith, a, b) in
    le_of_mul-le-mul_right c pos

module _ (cw : CosmwasmMath) where
  unfoldable pub compute_target_delegation_from_mining_power : ℕ → ℕ → ℕ → Result ℕ
  compute_target_delegation_from_mining_power total_delegated_amount validator_mining_power
        total_mining_power =
      if ltb total_mining_power validator_mining_power then err mining_power_too_high else (do
        share ← cw.from_ratio validator_mining_power total_mining_power
        cw.decimal_mul share total_delegated_amount)

  -- A target is at most the part of the total that the mining power is of the total mining power.
  pub target-le-proportion :
      (total vmp tmp t : ℕ)
      → compute_target_delegation_from_mining_power total vmp tmp ≡ ok t
      → (0 < tmp) × (vmp ≤ tmp) × (t * tmp ≤ vmp * total)
  unfolding compute_target_delegation_from_mining_power
  target-le-proportion total vmp tmp t h = elim (Result-cases (cw.from_ratio vmp tmp)) [
    | inr (e, q) ↦ ground (arith, q)
    | inl (r, q) ↦
        let s : floor_ratio vmp decimal_fractional tmp ≡ ok r =
          ground (arith, q, cw.from_ratio_lem vmp tmp) in
        let m : floor_ratio total r decimal_fractional ≡ ok t =
          ground (arith, q, cw.decimal_mul_lem r total) in
        let (pos, e, _) = floor_ratio_inv vmp decimal_fractional tmp r s in
        let (one, e', _) = floor_ratio_inv total r decimal_fractional t m in
        let (lo, _) = floor_bounds (vmp * decimal_fractional) tmp r pos e in
        let (lo', _) = floor_bounds (total * r) decimal_fractional t one e' in
        (pos, ground (arith, q), target_bound t r total vmp tmp decimal_fractional one lo' lo)
  ]

  -- More mining power than there is in total is refused.
  pub target_refused :
      (total vmp tmp : ℕ)
      → tmp < vmp
      → compute_target_delegation_from_mining_power total vmp tmp ≡ err mining_power_too_high
  unfolding compute_target_delegation_from_mining_power
  target_refused total vmp tmp h = ground arith

  -- Before any mining power is credited, every target is a panic.
  pub target_panics :
      (total : ℕ) → compute_target_delegation_from_mining_power total 0 0 ≡ err panic
  unfolding compute_target_delegation_from_mining_power
  target_panics total = ground (arith, cw.from_ratio_lem 0 0)

  -- `ts` are the targets of the mining powers `vmps`.
  pub data Targets (total tmp : ℕ) : List ℕ → List ℕ → Type 0 where
    none_left : Targets total tmp [] []
    next :
        {v t : ℕ} {vs ts : List ℕ}
        → compute_target_delegation_from_mining_power total v tmp ≡ ok t
        → Targets total tmp vs ts
        → Targets total tmp (v ∷ vs) (t ∷ ts)

  sum-Targets :
      {total tmp : ℕ} {vs ts : List ℕ}
      → Targets total tmp vs ts
      → sum_by (λ (t : ℕ). t) ts * tmp ≤ sum_by (λ (v : ℕ). v) vs * total
  sum-Targets none_left = omega arith
  sum-Targets {total} {tmp} (next {v} {t} h rest) =
      let (_, _, lo) = target-le-proportion total v tmp t h in grind (arith, lo, sum-Targets rest)

  -- Where the total mining power is positive, the targets of validators whose mining powers add up
  -- to it at most add up to the total delegation at most.
  pub sum-Targets-le-total :
      (total tmp : ℕ) (vs ts : List ℕ)
      → 0 < tmp
      → sum_by (λ (v : ℕ). v) vs ≤ tmp
      → Targets total tmp vs ts
      → sum_by (λ (t : ℕ). t) ts ≤ total
  sum-Targets-le-total total tmp vs ts pos fits targets =
      let all = mul-le-mul_right total fits in
      let step : sum_by (λ (t : ℕ). t) ts * tmp ≤ total * tmp =
        grind (arith, all, sum-Targets targets) in
      le_of_mul-le-mul_right step pos
