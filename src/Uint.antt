-- ===== src/Uint.antt =====
-- `u128`, `u64` and `Uint128` arithmetic in a build with overflow checks, on the native numbers, and
-- the fixed-point operations of the crate `cosmwasm-std` that the hub calls.
use native.Mathlib.Nat.{div-add-mod, mod-lt}
use liquid_staking.Base.{
  ℕ, ◌+◌, ◌-◌, ◌*◌, ◌/◌, ◌%◌, ◌^◌, ◌≡◌, List, Result, ok, err, panic, ltb, leb, ◌==◌, if◌then◌else◌,
  sum_by, arith, ◌<◌, ◌≤◌,
}

abbrev pub u128_limit : ℕ
u128_limit = 2 ^ 128

abbrev pub u64_limit : ℕ
u64_limit = 2 ^ 64

-- `a + b`, which panics where the sum does not fit the width.
abbrev pub add_u128 : ℕ → ℕ → Result ℕ
add_u128 a b = if ltb (a + b) u128_limit then ok (a + b) else err panic

abbrev pub add_u64 : ℕ → ℕ → Result ℕ
add_u64 a b = if ltb (a + b) u64_limit then ok (a + b) else err panic

-- `a - b`, at any width.
abbrev pub sub_uint : ℕ → ℕ → Result ℕ
sub_uint a b = if leb b a then ok (a - b) else err panic

-- `iter().map(f).sum()` and `fold(0, |acc, x| acc + f(x))` of `u128`. All terms are at least zero,
-- so some partial sum overflows exactly if the whole does.
abbrev pub sum_u128 {ℓ} : {A : Type ℓ} → (A → ℕ) → List A → Result ℕ
sum_u128 f xs = if ltb (sum_by f xs) u128_limit then ok (sum_by f xs) else err panic

-- One whole in `Decimal`, whose values are kept as numbers of atoms.
abbrev pub decimal_fractional : ℕ
decimal_fractional = 10 ^ 18

-- ⌊a * n / d⌋ where `d` is not zero and the result fits, and a panic elsewhere.
abbrev pub floor_ratio : ℕ → ℕ → ℕ → Result ℕ
floor_ratio a n d =
    if d == 0 then err panic else if ltb (a * n / d) u128_limit then ok (a * n / d) else err panic

-- A quotient is between the two bounds that define it.
pub floor_bounds : (a d q : ℕ) → 0 < d → q ≡ a / d → (q * d ≤ a) × (a < (q + 1) * d)
floor_bounds a d q h e =
    let m = mod-lt a h in let s = div-add-mod a d in rw e (grind (arith, m, s), grind (arith, m, s))

-- Inversion of a ratio that is computed.
pub floor_ratio_inv :
    (a n d q : ℕ) → floor_ratio a n d ≡ ok q → (0 < d) × (q ≡ a * n / d) × (q < u128_limit)
floor_ratio_inv a n d q h = ground arith

-- `Uint128::multiply_ratio`, `Decimal::from_ratio` and `Decimal * Uint128` of the crate
-- `cosmwasm-std`, with the values that its documentation gives for them.
pub record CosmwasmMath : Type 0 where
  pub multiply_ratio : ℕ → ℕ → ℕ → Result ℕ
  pub multiply_ratio_lem : (a n d : ℕ) → multiply_ratio a n d ≡ floor_ratio a n d
  pub from_ratio : ℕ → ℕ → Result ℕ
  pub from_ratio_lem : (n d : ℕ) → from_ratio n d ≡ floor_ratio n decimal_fractional d
  pub decimal_mul : ℕ → ℕ → Result ℕ
  pub decimal_mul_lem : (d x : ℕ) → decimal_mul d x ≡ floor_ratio x d decimal_fractional

-- `a / b` and `a % b`
abbrev pub div_uint : ℕ → ℕ → Result ℕ
div_uint a b = if b == 0 then err panic else ok (a / b)

abbrev pub rem_uint : ℕ → ℕ → Result ℕ
rem_uint a b = if b == 0 then err panic else ok (a % b)
