-- ===== src/Decimals.antt =====
-- `DecimalCheckedOps` of packages/steak/src/lib.rs: `checked_add` and `to_decimal256`; `checked_mul_uint`
-- is in Hub/Reinvest. A Decimal and a Decimal256 are their numbers of atoms.
use liquid_staking.Base.{
  ℕ, String, Result, ok, err, panic, overflow, if◌then◌else◌, ltb, ◌+◌, ◌*◌, ◌/◌, ◌==◌, ◌||◌, ◌≡◌,
  ◌≤◌, ◌<◌, refl, arith, Bool-cases, inl, inr, ok_or, Option, some,
}
use liquid_staking.Uint.{u128_limit, decimal_fractional, floor_bounds}
use liquid_staking.Hub.Reinvest.{checked_mul_uint}

-- `Decimal::checked_add`
unfoldable pub checked_add : ℕ → ℕ → Result ℕ
checked_add self other = if ltb (self + other) u128_limit then ok (self + other) else err overflow

-- `Decimal::to_string` and `Decimal256::from_str` of the crate `cosmwasm-std`. Both types have 18
-- decimal places, so that what the one prints the other reads as the same number.
pub record DecimalText : Type 0 where
  pub to_string : ℕ → String
  pub from_str : String → Option ℕ
  pub from_str-to_string : (d : ℕ) → d < u128_limit → from_str (to_string d) ≡ some d

-- `Decimal::to_decimal256`
unfoldable pub to_decimal256 : DecimalText → ℕ → Result ℕ
to_decimal256 text self = ok_or (text.from_str (text.to_string self)) panic

-- `to_decimal256` never panics, and keeps the number.
pub to_decimal256_keeps :
    (text : DecimalText) (d : ℕ) → d < u128_limit → to_decimal256 text d ≡ ok d
unfolding to_decimal256
to_decimal256_keeps text d small = rw (text.from_str-to_string d small) refl

-- What `checked_mul_uint` returns is the product, rounded down.
checked_mul_uint_bounds :
    (rate x y : ℕ)
    → checked_mul_uint rate x ≡ ok y
    → (y * decimal_fractional ≤ x * rate) × (x * rate < (y + 1) * decimal_fractional)
unfolding checked_mul_uint
checked_mul_uint_bounds rate x y h = elim (Bool-cases (rate == 0 || x == 0)) [
  | inl e ↦
      let zero : y ≡ 0 = ground (arith, e) in
      let free : x * rate ≡ 0 = grind (arith, e) in
      (ground (arith, zero), ground (arith, zero, free))
  | inr e ↦
      let is_product : y ≡ x * rate / decimal_fractional = ground (arith, e) in
      floor_bounds (x * rate) decimal_fractional y (omega arith) is_product
]

-- Where two rates are added, a charge at the sum is what is charged at both, or one more.
pub checked_mul_uint-checked_add :
    (a b s x y z both : ℕ)
    → checked_add a b ≡ ok s
    → checked_mul_uint a x ≡ ok y
    → checked_mul_uint b x ≡ ok z
    → checked_mul_uint s x ≡ ok both
    → (y + z ≤ both) × (both ≤ y + z + 1)
unfolding checked_add
checked_mul_uint-checked_add a b s x y z both added at_a at_b at_s =
    let is_sum : s ≡ a + b = ground (arith, added) in
    let (low, high) = checked_mul_uint_bounds a x y at_a in
    let (low₁, high₁) = checked_mul_uint_bounds b x z at_b in
    let (low₂, high₂) = checked_mul_uint_bounds s x both at_s in
    let split : x * s ≡ x * a + x * b = grind (arith, is_sum) in
    (omega (arith, low, low₁, high₂, split), omega (arith, high, high₁, low₂, split))
