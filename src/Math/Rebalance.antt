-- ===== src/Math/Rebalance.antt =====
-- `compute_redelegations_for_rebalancing` of contracts/hub/src/math.rs: the moves that bring each
-- delegation to its target.
mod Matching
unfoldable pub use Matching.{match_loop, use_up}
pub use Matching.{
  match_loop-total, match_loop-within, match_loop-dst, redelegation, amounts, amounts_of, moved,
  moved_from, moved_to,
}
use liquid_staking.Base.{
  ℕ, zero, suc, ◌+◌, ◌-◌, ◌*◌, ◌/◌, ◌%◌, ◌≤◌, ◌<◌, ◌≡◌, refl, ◌⊎◌, inl, inr, List, [], ◌∷◌, ltb,
  leb, ◌==◌, if◌then◌else◌, length, sum_by, min, arith, Bool, Bool-cases, true, false, String,
  Result, ok, err, panic, ◌>>=◌, >>=-eq-ok, str_eq, ok_or, All, Option, some, none, contains, ◌&&◌,
  Result-cases,
}
use liquid_staking.Uint.{u128_limit, sum_u128, add_u128, div_uint, rem_uint}
use liquid_staking.Types.{Delegation, Redelegation}

-- The `match` on how a delegation compares with `native_for_validator`, in front of what the rest of
-- the loop has pushed.
unfoldable pub place :
    List String
    → ℕ
    → Delegation
    → ℕ
    → List Delegation × List Delegation
    → List Delegation × List Delegation
place validators_active min_difference d native_for_validator (src, dst) =
    let surplus = d.amount - native_for_validator in
    let lack = native_for_validator - d.amount in
    if ltb native_for_validator d.amount
    then (if ltb min_difference surplus then record d { amount = surplus } ∷ src else src, dst)
    else if ltb d.amount native_for_validator
    then (
      src,
      if contains validators_active d.validator && ltb min_difference lack
          then record d { amount = lack } ∷ dst
          else dst,
    )
    else (src, dst)

-- `remainder_for_validator`
abbrev pub bonus : ℕ → ℕ → ℕ
bonus remainder i = if leb (i + 1) remainder then 1 else 0

-- The loop that finds the validators with too much and those with too little, from the place `i` on.
module _ (validators_active : List String) (remainder min_difference : ℕ)
    (load_target_delegation : Delegation → Result ℕ) where
  unfoldable pub split_loop : ℕ → List Delegation → Result (List Delegation × List Delegation)
  split_loop i [] = ok ([], [])
  split_loop i (d ∷ ds) = do
    target ← load_target_delegation d
    native_for_validator ← add_u128 target (bonus remainder i)
    rest ← split_loop (i + 1) ds
    ok (place validators_active min_difference d native_for_validator rest)

-- The division by the number of active validators serves a message and the remainder.
unfoldable pub compute_redelegations_for_rebalancing :
    List String → List Delegation → ℕ → (Delegation → Result ℕ) → Result (List Redelegation)
compute_redelegations_for_rebalancing validators_active current_delegations min_difference
      load_target_delegation =
    do
      native_staked ← sum_u128 (λ (d : Delegation). d.amount) current_delegations
      native_per_validator ← div_uint native_staked (length validators_active)
      remainder ← rem_uint native_staked (length validators_active)
      delegations ←
          split_loop validators_active remainder min_difference load_target_delegation 0
            current_delegations
      ok_or (match_loop (length delegations.0 + length delegations.1) delegations.0 delegations.1)
          panic

module _ (active : List String) (remainder least : ℕ) (target : Delegation → Result ℕ) where
  split_loop_inv :
      (i : ℕ) (d : Delegation) (ds : List Delegation) (r : List Delegation × List Delegation)
      → split_loop active remainder least target i (d ∷ ds) ≡ ok r
      → (t : ℕ) × (rest : List Delegation × List Delegation) × (target d ≡ ok t)
        × (split_loop active remainder least target (i + 1) ds ≡ ok rest)
        × (r ≡ place active least d (t + bonus remainder i) rest)
  unfolding split_loop
  split_loop_inv i d ds r h =
      let (t, e, h₁) = >>=-eq-ok (target d) _ h in
      let (n, e', h₂) = >>=-eq-ok (add_u128 t (bonus remainder i)) _ h₁ in
      let (rest, e'', h₃) = >>=-eq-ok (split_loop active remainder least target (i + 1) ds) _ h₂ in
      let same : n ≡ t + bonus remainder i = ground arith in (t, rest, e, e'', cc)

  -- What is looked for on either side: names of active validators among the destinations.
  AllActive : List Delegation → Type 0
  AllActive = All (λ (d : Delegation). contains active d.validator ≡ true)

  place-AllActive :
      (d : Delegation) (n : ℕ) (src dst : List Delegation)
      → AllActive dst
      → AllActive (place active least d n (src, dst)).1
  unfolding place AllActive
  place-AllActive d n src dst h = ground arith

  split_loop-AllActive :
      (i : ℕ) (ds : List Delegation) (r : List Delegation × List Delegation)
      → split_loop active remainder least target i ds ≡ ok r
      → AllActive r.1
  unfolding split_loop AllActive
  split_loop-AllActive i [] r h = let e : r ≡ ([], []) = cc in rw e tt
  split_loop-AllActive i (d ∷ ds) r h =
      let (t, rest, _, e, e') = split_loop_inv i d ds r h in
      rw e' (
        place-AllActive d (t + bonus remainder i) rest.0 rest.1
          (split_loop-AllActive (i + 1) ds rest e))

  -- A validator's surplus is at most what is delegated to it.
  amounts_of-place :
      (v : String) (d : Delegation) (n : ℕ) (src dst : List Delegation)
      → (amounts_of v (place active least d n (src, dst)).0
          ≤ (if str_eq d.validator v then d.amount - n else 0) + amounts_of v src)
        × (amounts_of v (place active least d n (src, dst)).1
            ≤ (if str_eq d.validator v then n - d.amount else 0) + amounts_of v dst)
  unfolding place
  amounts_of-place v d n src dst = ground arith

-- The same with targets that are known, `t d` for each delegation `d`.
module _ (active : List String) (remainder least : ℕ) (target : Delegation → Result ℕ)
    (t : Delegation → ℕ) (known : (d : Delegation) → target d ≡ ok (t d)) where
  amounts_of-split_loop :
      (v : String) (i : ℕ) (ds : List Delegation) (r : List Delegation × List Delegation)
      → split_loop active remainder least target i ds ≡ ok r
      → (amounts_of v r.0
          ≤ sum_by (λ (d : Delegation). if str_eq d.validator v then d.amount - t d else 0) ds)
        × (amounts_of v r.1
            ≤ sum_by
                (λ (d : Delegation). if str_eq d.validator v then t d + 1 - d.amount else 0)
                ds)
  unfolding split_loop
  amounts_of-split_loop v i [] r h = let e : r ≡ ([], []) = cc in rw e (omega arith)
  amounts_of-split_loop v i (d ∷ ds) r h =
      let (t', rest, k, e, e') = split_loop_inv active remainder least target i d ds r h in
      let same : t' ≡ t d = cc (known d) in
      let (from, to) = amounts_of-split_loop v (i + 1) ds rest e in
      let (out, into) =
        amounts_of-place active remainder least target v d (t' + bonus remainder i) rest.0 rest.1 in
      rw e' (ground (arith, same, from, out), ground (arith, same, to, into))

  split_loop-total :
      (i : ℕ) (ds : List Delegation)
      → ((d : Delegation) → t d + 1 < u128_limit)
      → (r : List Delegation × List Delegation) × (split_loop active remainder least target i ds
          ≡ ok r)
  unfolding split_loop
  split_loop-total i [] fits = (([], []), refl)
  split_loop-total i (d ∷ ds) fits =
      let (rest, e) = split_loop-total (i + 1) ds fits in
      (place active least d (t d + bonus remainder i) rest, ground (arith, known d, e, fits d))

rebalancing_inv :
    (active : List String) (ds : List Delegation) (least : ℕ) (target : Delegation → Result ℕ)
    (rs : List Redelegation)
    → compute_redelegations_for_rebalancing active ds least target ≡ ok rs
    → let remainder = sum_by (λ (d : Delegation). d.amount) ds % length active in
      (r : List Delegation × List Delegation) × (split_loop active remainder least target 0 ds
        ≡ ok r)
      × (match_loop (length r.0 + length r.1) r.0 r.1 ≡ some rs)
unfolding compute_redelegations_for_rebalancing
rebalancing_inv active ds least target rs h =
    let remainder = sum_by (λ (d : Delegation). d.amount) ds % length active in
    elim (Result-cases (split_loop active remainder least target 0 ds)) [
      | inl (r, e) ↦ (r, e, ground (arith, e))
      | inr (x, e) ↦ absurd (ground (arith, e))
    ]

-- What a successful computation moves out of a validator is at most its delegation over its target;
-- what it moves into a validator is at most what is lacking to one above its target; and every
-- destination is an active validator.
pub compute_redelegations_for_rebalancing_within :
    (active : List String) (ds : List Delegation) (least : ℕ) (target : Delegation → Result ℕ)
    (t : Delegation → ℕ) (v : String) (rs : List Redelegation)
    → ((d : Delegation) → target d ≡ ok (t d))
    → compute_redelegations_for_rebalancing active ds least target ≡ ok rs
    → (moved_from v rs
        ≤ sum_by (λ (d : Delegation). if str_eq d.validator v then d.amount - t d else 0) ds)
      × (moved_to v rs
          ≤ sum_by (λ (d : Delegation). if str_eq d.validator v then t d + 1 - d.amount else 0) ds)
      × All (λ (r : Redelegation). contains active r.dst ≡ true) rs
unfolding AllActive
compute_redelegations_for_rebalancing_within active ds least target t v rs known h =
    let remainder = sum_by (λ (d : Delegation). d.amount) ds % length active in
    let (r, split, run) = rebalancing_inv active ds least target rs h in
    let fuel = length r.0 + length r.1 in
    let (from, to) = match_loop-within v fuel r.0 r.1 rs run in
    let (out, into) = amounts_of-split_loop active remainder least target t known v 0 ds r split in
    let lacking = split_loop-AllActive active remainder least target 0 ds r split in
    (
      omega (arith, from, out),
      omega (arith, to, into),
      match_loop-dst (λ (s : String). contains active s ≡ true) fuel r.0 r.1 rs lacking run,
    )

-- With an active validator, a total that fits 128 bits and targets that do, the computation succeeds.
pub compute_redelegations_for_rebalancing_total :
    (active : List String) (ds : List Delegation) (least : ℕ) (target : Delegation → Result ℕ)
    (t : Delegation → ℕ)
    → 0 < length active
    → sum_by (λ (d : Delegation). d.amount) ds < u128_limit
    → ((d : Delegation) → target d ≡ ok (t d))
    → ((d : Delegation) → t d + 1 < u128_limit)
    → (rs : List Redelegation) × (compute_redelegations_for_rebalancing active ds least target
        ≡ ok rs)
unfolding compute_redelegations_for_rebalancing
compute_redelegations_for_rebalancing_total active ds least target t pos fits known small =
    let remainder = sum_by (λ (d : Delegation). d.amount) ds % length active in
    let (r, e) = split_loop-total active remainder least target t known 0 ds small in
    let (rs, e', _) = match_loop-total (length r.0 + length r.1) r.0 r.1 (omega arith) in
    (rs, ground (arith, e, e'))
