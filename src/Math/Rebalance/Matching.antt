-- ===== src/Math/Rebalance/Matching.antt =====
-- The `while` loop of `compute_redelegations_for_rebalancing`, which matches validators that have too
-- much with validators that have too little.
use liquid_staking.Base.{
  ℕ, zero, suc, ◌+◌, ◌-◌, ◌≤◌, ◌≡◌, refl, List, [], ◌∷◌, ◌==◌, if◌then◌else◌, length, sum_by, min,
  arith, Bool-cases, inl, inr, String, Option, none, some, str_eq, All,
}
use liquid_staking.Types.{Delegation, Redelegation}
use mathlib.Core.Option

-- `remove(0)` where the whole amount is moved, and otherwise a smaller amount at the head.
unfoldable pub use_up : Delegation → ℕ → List Delegation → List Delegation
use_up d moved ds = if d.amount == moved then ds else record d { amount = d.amount - moved } ∷ ds

-- `Redelegation::new(&src.validator, &dst.validator, native_to_redelegate, &src.denom)`
abbrev pub redelegation : Delegation → Delegation → ℕ → Redelegation
redelegation s d native_to_redelegate = record {
  src = s.validator;
  dst = d.validator;
  amount = native_to_redelegate;
  denom = s.denom;
}

-- The loop on fuel; `none` means that the fuel ran out.
unfoldable pub match_loop : ℕ → List Delegation → List Delegation → Option (List Redelegation)
match_loop fuel [] dst = some []
match_loop fuel (s ∷ src) [] = some []
match_loop zero (s ∷ src) (d ∷ dst) = none
match_loop (suc fuel) (s ∷ src) (d ∷ dst) =
    let native_to_redelegate = min s.amount d.amount in
    Option.map (λ rs. redelegation s d native_to_redelegate ∷ rs)
      (match_loop fuel (use_up s native_to_redelegate src) (use_up d native_to_redelegate dst))

abbrev pub amounts : List Delegation → ℕ
amounts = sum_by (λ (d : Delegation). d.amount)

abbrev pub moved : List Redelegation → ℕ
moved = sum_by (λ (r : Redelegation). r.amount)

amounts-use_up :
    (d : Delegation) (m : ℕ) (ds : List Delegation)
    → m ≤ d.amount
    → amounts (use_up d m ds) + m ≡ d.amount + amounts ds
unfolding use_up
amounts-use_up d m ds h = ground arith

length-use_up :
    (s d : Delegation) (src dst : List Delegation)
    → let m = min s.amount d.amount in
      length (use_up s m src) + length (use_up d m dst) ≤ suc (length src + length dst)
unfolding use_up
length-use_up s d src dst = ground arith

-- Each round uses one head up: fuel for as many rounds as there are delegations is enough, and what
-- is moved is the smaller of the two totals.
pub match_loop-total :
    (fuel : ℕ) (src dst : List Delegation)
    → length src + length dst ≤ fuel
    → (rs : List Redelegation) × (match_loop fuel src dst ≡ some rs)
      × (moved rs ≡ min (amounts src) (amounts dst))
unfolding match_loop
match_loop-total fuel [] dst h = ([], refl, omega arith)
match_loop-total fuel (s ∷ src) [] h = ([], refl, omega arith)
match_loop-total zero (s ∷ src) (d ∷ dst) h = absurd (omega arith)
match_loop-total (suc fuel) (s ∷ src) (d ∷ dst) h =
    let m = min s.amount d.amount in
    let (rs, e, total) =
      match_loop-total fuel (use_up s m src) (use_up d m dst)
        (omega (arith, length-use_up s d src dst)) in
    let out = amounts-use_up s m src (omega arith) in
    let into = amounts-use_up d m dst (omega arith) in
    (redelegation s d m ∷ rs, rw e, omega (arith, total, out, into))

map-eq-some {ℓ κ} :
    {A : Type ℓ} {B : Type κ} (f : A → B) (o : Option A) {b : B}
    → Option.map f o ≡ some b
    → (a : A) × (o ≡ some a) × (b ≡ f a)
map-eq-some f none h = cc
map-eq-some f (some a) h = (a, refl, cc)

-- What moves out of, or into, the validator `v`.
abbrev pub moved_from : String → List Redelegation → ℕ
moved_from v = sum_by (λ (r : Redelegation). if str_eq r.src v then r.amount else 0)

abbrev pub moved_to : String → List Redelegation → ℕ
moved_to v = sum_by (λ (r : Redelegation). if str_eq r.dst v then r.amount else 0)

abbrev pub amounts_of : String → List Delegation → ℕ
amounts_of v = sum_by (λ (d : Delegation). if str_eq d.validator v then d.amount else 0)

amounts_of-use_up :
    (v : String) (d : Delegation) (m : ℕ) (ds : List Delegation)
    → m ≤ d.amount
    → amounts_of v (use_up d m ds) + (if str_eq d.validator v then m else 0)
      ≡ (if str_eq d.validator v then d.amount else 0) + amounts_of v ds
unfolding use_up
amounts_of-use_up v d m ds h = ground arith

-- No more leaves a validator than it has too much, and no more reaches one than it lacks.
pub match_loop-within :
    (v : String) (fuel : ℕ) (src dst : List Delegation) (rs : List Redelegation)
    → match_loop fuel src dst ≡ some rs
    → (moved_from v rs ≤ amounts_of v src) × (moved_to v rs ≤ amounts_of v dst)
unfolding match_loop
match_loop-within v fuel [] dst rs h = let e : rs ≡ [] = cc in rw e (omega arith)
match_loop-within v fuel (s ∷ src) [] rs h = let e : rs ≡ [] = cc in rw e (omega arith)
match_loop-within v zero (s ∷ src) (d ∷ dst) rs h = absurd (ground arith)
match_loop-within v (suc fuel) (s ∷ src) (d ∷ dst) rs h =
    let m = min s.amount d.amount in
    let (rest, run, e) =
      map-eq-some (λ rs. redelegation s d m ∷ rs)
        (match_loop fuel (use_up s m src) (use_up d m dst)) h in
    let (from, to) = match_loop-within v fuel (use_up s m src) (use_up d m dst) rest run in
    let out = amounts_of-use_up v s m src (omega arith) in
    let into = amounts_of-use_up v d m dst (omega arith) in
    rw e (omega (arith, from, out), omega (arith, to, into))

use_up-All {ℓ} :
    (P : Delegation → Type ℓ) (d : Delegation) (m : ℕ) (ds : List Delegation)
    → (P d → P (record d { amount = d.amount - m }))
    → All P (d ∷ ds)
    → All P (use_up d m ds)
unfolding use_up
use_up-All P d m ds keep p = elim (Bool-cases (d.amount == m)) [
  | inl e ↦ rw e p.1
  | inr e ↦ rw e (keep p.0, p.1)
]

-- A property of the names of the validators that lack some holds of every destination.
pub match_loop-dst {ℓ} :
    (P : String → Type ℓ) (fuel : ℕ) (src dst : List Delegation) (rs : List Redelegation)
    → All (λ (d : Delegation). P d.validator) dst
    → match_loop fuel src dst ≡ some rs
    → All (λ (r : Redelegation). P r.dst) rs
unfolding match_loop
match_loop-dst P fuel [] dst rs p h = let e : rs ≡ [] = cc in rw e tt
match_loop-dst P fuel (s ∷ src) [] rs p h = let e : rs ≡ [] = cc in rw e tt
match_loop-dst P zero (s ∷ src) (d ∷ dst) rs p h = absurd (ground arith)
match_loop-dst P (suc fuel) (s ∷ src) (d ∷ dst) rs p h =
    let m = min s.amount d.amount in
    let (rest, run, e) =
      map-eq-some (λ rs. redelegation s d m ∷ rs)
        (match_loop fuel (use_up s m src) (use_up d m dst)) h in
    rw e (
      p.0,
      match_loop-dst P fuel (use_up s m src) (use_up d m dst) rest
          (use_up-All (λ (d : Delegation). P d.validator) d m dst (λ q. q) p) run,
    )
