-- ===== src/Math/Share.antt =====
-- The even split with which `compute_undelegations`, `compute_redelegations_for_removal` and
-- `reconcile_batches` begin: of `total`, cut into `count` parts, the first `total % count` parts get
-- one unit more than the others.
use liquid_staking.Base.{
  ℕ, ◌+◌, ◌-◌, ◌*◌, ◌/◌, ◌%◌, ◌<◌, ◌≡◌, List, [], ◌∷◌, leb, if◌then◌else◌, length, min, arith,
}

-- `per + u128::from((i + 1) as u128 <= remainder) as u128`. The sum is at most the total that is
-- split, so it cannot overflow.
unfoldable pub even_share : ℕ → ℕ → ℕ → ℕ
even_share per remainder i = per + (if leb (i + 1) remainder then 1 else 0)

-- The parts from the place `i` on, `n` of them.
abbrev pub sum_shares {ℓ} : {A : Type ℓ} → ℕ → ℕ → ℕ → List A → ℕ
sum_shares per remainder i [] = 0
sum_shares per remainder i (x ∷ xs) =
    even_share per remainder i + sum_shares per remainder (i + 1) xs

sum_shares_from {ℓ} :
    {A : Type ℓ} (per remainder i : ℕ) (xs : List A)
    → sum_shares per remainder i xs ≡ per * length xs + min (length xs) (remainder - i)
unfolding even_share
sum_shares_from per remainder i [] = ground arith
sum_shares_from per remainder i (x ∷ xs) = ground (arith, sum_shares_from per remainder (i + 1) xs)

-- The parts add up to the total.
pub sum_shares-eq {ℓ} :
    {A : Type ℓ} (total : ℕ) (xs : List A)
    → 0 < length xs
    → sum_shares (total / length xs) (total % length xs) 0 xs ≡ total
sum_shares-eq total xs h =
    grind (arith, sum_shares_from (total / length xs) (total % length xs) 0 xs)
