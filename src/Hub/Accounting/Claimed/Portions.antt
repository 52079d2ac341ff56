-- ===== src/Hub/Accounting/Claimed/Portions.antt =====
-- What two users of one batch are paid in `withdraw_unbonded` of contracts/hub/src/execute.rs, as numbers.
use native.Mathlib.Nat.{mul-le-mul_right, mul-le-mul_left, mul-lt-mul_of_pos_right}
use native.Mathlib.Decide.{dec_lt}
use liquid_staking.Base.{ℕ, ◌+◌, ◌*◌, ◌<◌, ◌≤◌, arith}

-- `first` is what `s` shares of `s + t` are paid of `first + left`; `early` and `late` are what `r` other
-- shares get before and after that.
module _ (s t r first left early late : ℕ) (low : first * (s + t) ≤ (first + left) * s)
    (high : (first + left) * s < (first + 1) * (s + t))
    (early_low : early * (s + t) ≤ (first + left) * r)
    (early_high : (first + left) * r < (early + 1) * (s + t)) (late_low : late * t ≤ left * r)
    (late_high : left * r < (late + 1) * t) (within : r ≤ t) (pos : 0 < t) where
  pub late_no_less : early < late + 1
  late_no_less = elim (dec_lt early (late + 1)) [
    | yes h ↦ h
    | no h ↦
        let less : (late + 1) * t ≤ early * t = mul-le-mul_right t (omega (arith, h)) in
        let behind : early * s < first * r = grind (arith, early_low, late_high, less) in
        let scaled : early * s * t < first * r * t = mul-lt-mul_of_pos_right behind pos in
        let low' : first * t ≤ left * s = grind (arith, low) in
        let low_r : first * t * r ≤ left * s * r = mul-le-mul_right r low' in
        let late_s : left * r * s ≤ early * t * s =
          mul-le-mul_right s (omega (arith, late_high, less)) in
        absurd (grind (arith, scaled, low_r, late_s))
  ]

  pub late_no_more : late < early + 2
  late_no_more = elim (dec_lt late (early + 2)) [
    | yes h ↦ h
    | no h ↦
        let more : (early + 2) * t ≤ late * t = mul-le-mul_right t (omega (arith, h)) in
        let all : (early + 2) * t ≤ left * r = omega (arith, more, late_low) in
        let behind : first * r + t < (early + 1) * s = grind (arith, early_high, all) in
        let scaled : (first * r + t) * t < (early + 1) * s * t =
          mul-lt-mul_of_pos_right behind pos in
        let high' : left * s < first * t + s + t = grind (arith, high) in
        let high_r : left * s * r ≤ (first * t + s + t) * r =
          mul-le-mul_right r (omega (arith, high')) in
        let all_s : (early + 2) * t * s ≤ left * r * s = mul-le-mul_right s all in
        let within_s : (s + t) * r ≤ (s + t) * t = mul-le-mul_left (s + t) within in
        absurd (grind (arith, scaled, high_r, all_s, within_s))
  ]
