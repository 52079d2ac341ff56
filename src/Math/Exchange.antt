-- ===== src/Math/Exchange.antt =====
-- `compute_mint_amount` and `compute_unbond_amount` of contracts/hub/src/math.rs: the exchange rate
-- between the native token and Steak. `Uint128::multiply_ratio` is the parameter `cw`.
use liquid_staking.Base.{
  ℕ, ◌+◌, ◌-◌, ◌*◌, ◌≤◌, ◌<◌, ◌≡◌, inl, inr, List, ◌==◌, if◌then◌else◌, sum_by, arith, Bool-cases,
  Result, ok, ◌>>=◌, ◌∙◌, sym,
}
use liquid_staking.Uint.{sum_u128, CosmwasmMath, floor_ratio, floor_bounds, floor_ratio_inv}
use liquid_staking.Types.{Delegation}
use native.Mathlib.Nat.{le_of_mul-le-mul_right}
use mathlib.Core.Path.{ap, subst}

abbrev pub bonded : List Delegation → ℕ
bonded = sum_by (λ (d : Delegation). d.amount)

-- y * (s + m) ≤ (b + x) * m and m * b ≤ s * x give y ≤ x.
profit_bound : (b s x m y : ℕ) → m * b ≤ s * x → 0 < s + m → y * (s + m) ≤ (b + x) * m → y ≤ x
profit_bound b s x m y h pos k =
    let step : y * (s + m) ≤ x * (s + m) = grind (arith, h, k) in le_of_mul-le-mul_right step pos

-- The share `y` of a burn out of `supply = burn + rest`, and what it leaves.
fair_bound :
    (b burn rest y : ℕ)
    → 0 < burn + rest
    → y * (burn + rest) ≤ b * burn
    → (y ≤ b) × (b * rest ≤ (b - y) * (burn + rest))
fair_bound b burn rest y pos h =
    let cap : y * (burn + rest) ≤ b * (burn + rest) = grind (arith, h) in
    let le : y ≤ b = le_of_mul-le-mul_right cap pos in
    let e : b ≡ (b - y) + y = omega arith in
    let left = (b - y) * (burn + rest) in
    let split : b * (burn + rest) ≡ left + y * (burn + rest) =
      ap (λ (t : ℕ). t * (burn + rest)) e ∙ grind arith in
    (le, omega (arith, split, h))

module _ (cw : CosmwasmMath) where
  unfoldable pub compute_mint_amount : ℕ → ℕ → List Delegation → Result ℕ
  compute_mint_amount usteak_supply native_to_bond current_delegations = do
    native_bonded ← sum_u128 (λ (d : Delegation). d.amount) current_delegations
    if native_bonded == 0
        then ok native_to_bond
        else cw.multiply_ratio usteak_supply native_to_bond native_bonded

  unfoldable pub compute_unbond_amount : ℕ → ℕ → List Delegation → Result ℕ
  compute_unbond_amount usteak_supply usteak_to_burn current_delegations = do
    native_bonded ← sum_u128 (λ (d : Delegation). d.amount) current_delegations
    cw.multiply_ratio native_bonded usteak_to_burn usteak_supply

  -- Where something is bonded, the amount minted for a deposit of `x` is the largest `m` with `m /
  -- supply ≤ x / bonded`.
  pub compute_mint_amount_floor :
      (supply x m : ℕ) (ds : List Delegation)
      → 0 < bonded ds
      → compute_mint_amount supply x ds ≡ ok m
      → (m * bonded ds ≤ supply * x) × (supply * x < (m + 1) * bonded ds)
  unfolding compute_mint_amount
  compute_mint_amount_floor supply x m ds pos h =
      let r : floor_ratio supply x (bonded ds) ≡ ok m =
        ground (arith, cw.multiply_ratio_lem supply x (bonded ds)) in
      let (p, e, _) = floor_ratio_inv supply x (bonded ds) m r in
      floor_bounds (supply * x) (bonded ds) m p e

  -- Where nothing is bonded yet, one unit of the native token buys one of Steak.
  pub compute_mint_amount_first :
      (supply x : ℕ) (ds : List Delegation) → bonded ds ≡ 0 → compute_mint_amount supply x ds ≡ ok x
  unfolding compute_mint_amount
  compute_mint_amount_first supply x ds z = ground arith

  -- What is unbonded for a burn is the largest `y` with `y / bonded ≤ burn / supply`.
  pub compute_unbond_amount_floor :
      (supply burn y : ℕ) (ds : List Delegation)
      → compute_unbond_amount supply burn ds ≡ ok y
      → (0 < supply) × (y * supply ≤ bonded ds * burn) × (bonded ds * burn < (y + 1) * supply)
  unfolding compute_unbond_amount
  compute_unbond_amount_floor supply burn y ds h =
      let r : floor_ratio (bonded ds) burn supply ≡ ok y =
        ground (arith, cw.multiply_ratio_lem (bonded ds) burn supply) in
      let (p, e, _) = floor_ratio_inv (bonded ds) burn supply y r in
      let (lo, hi) = floor_bounds (bonded ds * burn) supply y p e in (p, lo, hi)

  -- Where something is bonded, a deposit of `x` that mints `m` never lowers the native token
  -- behind one unit of Steak: bonded / supply is at most (bonded + x) / (supply + m).
  pub compute_mint_amount_no_dilution :
      (supply x m : ℕ) (ds : List Delegation)
      → 0 < bonded ds
      → compute_mint_amount supply x ds ≡ ok m
      → bonded ds * (supply + m) ≤ (bonded ds + x) * supply
  compute_mint_amount_no_dilution supply x m ds pos h =
      let (lo, _) = compute_mint_amount_floor supply x m ds pos h in grind (arith, lo)

  mint_upper :
      (supply x m : ℕ) (ds : List Delegation)
      → compute_mint_amount supply x ds ≡ ok m
      → m * bonded ds ≤ supply * x
  mint_upper supply x m ds h = elim (Bool-cases (bonded ds == 0)) [
    | inl z ↦ let e : bonded ds ≡ 0 = ground arith in rw e (omega arith)
    | inr p ↦ (compute_mint_amount_floor supply x m ds (ground arith) h).0
  ]

  mint_of_nothing :
      (supply x m : ℕ) (ds : List Delegation)
      → compute_mint_amount supply x ds ≡ ok m
      → bonded ds ≡ 0
      → m ≡ x
  unfolding compute_mint_amount
  mint_of_nothing supply x m ds h z = ground arith

  -- Depositing `x` for `m` units of Steak and unbonding those at once, with the deposit now bonded
  -- and the supply raised by `m`, gives back `x` at most.
  pub bond_then_unbond_no_profit :
      (supply x m y : ℕ) (before after : List Delegation)
      → compute_mint_amount supply x before ≡ ok m
      → bonded after ≡ bonded before + x
      → compute_unbond_amount (supply + m) m after ≡ ok y
      → y ≤ x
  bond_then_unbond_no_profit supply x m y before after minted grown out =
      let (p, lo, _) = compute_unbond_amount_floor (supply + m) m y after out in
      profit_bound (bonded before) supply x m y (mint_upper supply x m before minted) p
        (rw grown at lo)

  -- A burn of at most the supply unbonds at most what is bonded, and leaves no less of the native
  -- token behind each unit that remains.
  pub compute_unbond_amount_fair :
      (supply burn y : ℕ) (ds : List Delegation)
      → burn ≤ supply
      → compute_unbond_amount supply burn ds ≡ ok y
      → (y ≤ bonded ds) × (bonded ds * (supply - burn) ≤ (bonded ds - y) * supply)
  compute_unbond_amount_fair supply burn y ds le h =
      let (pos, lo, _) = compute_unbond_amount_floor supply burn y ds h in
      let e : supply ≡ burn + (supply - burn) = omega arith in
      let (le', fair) =
        fair_bound (bonded ds) burn (supply - burn) y (omega (arith, e))
          (subst (λ (s : ℕ). y * s ≤ bonded ds * burn) e lo) in
      (le', subst (λ (s : ℕ). bonded ds * (supply - burn) ≤ (bonded ds - y) * s) (sym e) fair)
