-- ===== src/Hub/Queries.antt =====
-- contracts/hub/src/queries.rs: what the hub answers about its state.
pub mod Pages
pub mod Dispatch
pub mod Settings
pub mod Walk
use native.Mathlib.Nat.{lt_of_mul-lt-mul_right, mul-le-mul_left}
use liquid_staking.Base.{
  ℕ, zero, suc, String, Bool, Bool-cases, true, Option, some, none, List, [], ◌∷◌, map, Result, ok,
  load, unwrap_or, ◌>>=◌, if◌then◌else◌, ltb, min, length, ◌==◌, ◌≡◌, ◌≤◌, ◌<◌, ◌+◌, ◌*◌, inl, inr,
  arith, All, sym,
}
use liquid_staking.Uint.{sum_u128, decimal_fractional, floor_ratio, floor_ratio_inv, floor_bounds}
use liquid_staking.Types.{Delegation, PendingBatch, Batch, UnbondRequest, Coin}
use liquid_staking.Store.{lookup, nat_key, Every, Every-found}
use liquid_staking.Chain.{Env, Chain}
use liquid_staking.State.{State}
use liquid_staking.Helpers.{query_delegations}
use liquid_staking.Math.Exchange.{bonded, compute_unbond_amount, compute_unbond_amount_floor}
use liquid_staking.Hub.Ownership.{fee_type_name}
use liquid_staking.Hub.Accounting.{IsValid, IsNumbered, Batches}
use mathlib.Core.Path.{subst}

abbrev pub max_limit : ℕ
max_limit = 30

abbrev pub default_limit : ℕ
default_limit = 10

-- `Iterator::take`
unfoldable pub take {ℓ} : {A : Type ℓ} → ℕ → List A → List A
take zero xs = []
take (suc n) [] = []
take (suc n) (x ∷ xs) = x ∷ take n xs

-- The limit of a page.
abbrev pub page_limit : Option ℕ → ℕ
page_limit limit = min (unwrap_or limit default_limit) max_limit

-- `start_after.map(Bound::exclusive)`: whether an id comes after it.
abbrev pub is_after : Option ℕ → ℕ → Bool
is_after none id = true
is_after (some start) id = ltb start id

unfoldable pub batches_after : Option ℕ → List (ℕ × Batch) → List Batch
batches_after start [] = []
batches_after start ((id, b) ∷ m) =
    let rest = batches_after start m in if is_after start id then b ∷ rest else rest

unfoldable pub pending_batch : State → Result PendingBatch
pending_batch st = load st.pending_batch

unfoldable pub previous_batch : ℕ → State → Result Batch
previous_batch id st = load (lookup id st.previous_batches)

unfoldable pub previous_batches : Option ℕ → Option ℕ → State → List Batch
previous_batches start_after limit st =
    take (page_limit limit) (batches_after start_after st.previous_batches)

pub record ConfigResponse : Type 0 where
  pub owner : String
  pub new_owner : Option String
  pub steak_token : String
  pub epoch_period : ℕ
  pub unbond_period : ℕ
  pub denom : String
  pub fee_type : String
  pub fee_account : String
  pub fee_rate : ℕ
  pub max_fee_rate : ℕ
  pub validators : List String

unfoldable pub config : State → Result ConfigResponse
config st = do
  owner ← load st.owner
  steak_token ← load st.steak_token
  epoch_period ← load st.epoch_period
  unbond_period ← load st.unbond_period
  denom ← load st.denom
  fee_type ← load st.fee_account_type
  fee_account ← load st.fee_account
  fee_rate ← load st.fee_rate
  max_fee_rate ← load st.max_fee_rate
  validators ← load st.validators
  ok (record {
    owner = owner;
    new_owner = st.new_owner;
    steak_token = steak_token;
    epoch_period = epoch_period;
    unbond_period = unbond_period;
    denom = denom;
    fee_type = fee_type_name fee_type;
    fee_account = fee_account;
    fee_rate = fee_rate;
    max_fee_rate = max_fee_rate;
    validators = validators;
  })

-- The entropy and the difficulty.
unfoldable pub miner_params : State → Result (String × ℕ)
miner_params st = do
  entropy ← load st.miner_entropy
  difficulty ← load st.miner_difficulty
  ok (entropy, difficulty)

pub record StateResponse : Type 0 where
  pub total_usteak : ℕ
  pub total_native : ℕ
  pub exchange_rate : ℕ
  pub unlocked_coins : List Coin

module _ (c : Chain) where
  unfoldable pub exchange_rate : ℕ → ℕ → Result ℕ
  exchange_rate total_native total_usteak =
      if total_usteak == 0
      then ok decimal_fractional
      else c.math.from_ratio total_native total_usteak

  unfoldable pub query_state : Env → State → Result StateResponse
  query_state env st = do
    denom ← load st.denom
    steak_token ← load st.steak_token
    total_usteak ← c.query_total_supply steak_token
    validators ← load st.validators
    delegations ← query_delegations c validators env.contract denom
    total_native ← sum_u128 (λ (d : Delegation). d.amount) delegations
    rate ← exchange_rate total_native total_usteak
    unlocked_coins ← load st.unlocked_coins
    ok (record {
      total_usteak = total_usteak;
      total_native = total_native;
      exchange_rate = rate;
      unlocked_coins = unlocked_coins;
    })

  rate_inv :
      (native usteak rate : ℕ)
      → exchange_rate native usteak ≡ ok rate
      → 0 < usteak
      → rate * usteak ≤ native * decimal_fractional
  unfolding exchange_rate
  rate_inv native usteak rate h pos =
      let r : floor_ratio native decimal_fractional usteak ≡ ok rate =
        ground (arith, c.math.from_ratio_lem native usteak) in
      let (p, e, _) = floor_ratio_inv native decimal_fractional usteak rate r in
      (floor_bounds (native * decimal_fractional) usteak rate p e).0

  -- The native token that the quoted exchange rate promises for a burn, rounded down, is paid: with the
  -- supply and the delegations of the quote, a batch of `burn` unbonds no less.
  pub exchange_rate_paid :
      (supply burn rate y : ℕ) (ds : List Delegation)
      → exchange_rate (bonded ds) supply ≡ ok rate
      → compute_unbond_amount c.math supply burn ds ≡ ok y
      → burn * rate < (y + 1) * decimal_fractional
  exchange_rate_paid supply burn rate y ds quoted paid =
      let (pos, _, high) = compute_unbond_amount_floor c.math supply burn y ds paid in
      let low = rate_inv (bonded ds) supply rate quoted pos in
      let promised : burn * (rate * supply) ≤ burn * (bonded ds * decimal_fractional) =
        mul-le-mul_left burn low in
      let bound : decimal_fractional * (bonded ds * burn)
          < decimal_fractional * ((y + 1) * supply) =
        omega (arith, high) in
      let all : (burn * rate) * supply < ((y + 1) * decimal_fractional) * supply =
        grind (arith, promised, bound) in
      lt_of_mul-lt-mul_right supply all

length-take {ℓ} : {A : Type ℓ} (n : ℕ) (xs : List A) → length (take n xs) ≤ n
unfolding take
length-take zero xs = omega arith
length-take (suc n) [] = omega arith
length-take (suc n) (x ∷ xs) = omega (arith, length-take n xs)

All-take {ℓ κ} : {A : Type ℓ} (P : A → Type κ) (n : ℕ) (xs : List A) → All P xs → All P (take n xs)
unfolding take
All-take P zero xs h = tt
All-take P (suc n) [] h = tt
All-take P (suc n) (x ∷ xs) h = (h.0, All-take P n xs h.1)

-- The batches of `all` that come after `start`.
abbrev pub Listed : Option ℕ → Batches → Batch → Type 0
Listed start all b = (is_after start b.id ≡ true) × (lookup b.id all ≡ some b)

batches_after-Listed :
    (start : Option ℕ) (all m : Batches)
    → Every (λ k b. lookup k all ≡ some b) m
    → Every IsNumbered m
    → All (Listed start all) (batches_after start m)
unfolding batches_after
batches_after-Listed start all [] f n = tt
batches_after-Listed start all ((k, b) ∷ m) f n =
    let rest = batches_after-Listed start all m f.1 n.1 in
    elim (Bool-cases (is_after start k)) [
      | inl e ↦
          let here : Listed start all b = (
            subst (λ (j : ℕ). is_after start j ≡ true) (sym n.0) e,
            subst (λ (j : ℕ). lookup j all ≡ some b) (sym n.0) f.0,
          ) in
          rw e (here, rest)
      | inr e ↦ rw e rest
    ]

-- In a state whose book-keeping is in order, a page of batches has 30 at most, and each of them is
-- stored and comes after the start.
pub previous_batches_page :
    (start_after limit : Option ℕ) (st : State)
    → IsValid st
    → (length (previous_batches start_after limit st) ≤ 30)
      × All (Listed start_after st.previous_batches) (previous_batches start_after limit st)
unfolding previous_batches
previous_batches_page start_after limit st v =
    let m = st.previous_batches in
    let a = v.accounted in
    let page = batches_after start_after m in
    (
      omega (arith, length-take (page_limit limit) page),
      All-take (Listed start_after m) (page_limit limit) page
          (batches_after-Listed start_after m m (Every-found m a.unique_batches) a.numbered),
    )
