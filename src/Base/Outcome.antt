-- ===== src/Base/Outcome.antt =====
-- What a call ends in: a value, an error that the code returns, or a panic. Each of the last two
-- makes the host roll back every write of the call, so no state comes with an error.
use mathlib.Core.Path.{◌≡◌, refl}
use mathlib.Core.Logic.{◌⊎◌, inl, inr}
use mathlib.Core.Bool.{Bool, true, false}
use mathlib.Core.Option.{Option, none, some}

-- `panic` is an overflow, a division by zero or an index out of range, in a build with overflow
-- checks; `not_found` is a load of an item that was never saved; `querier` is an error of the host.
pub data Error : Type 0 where
  panic not_found overflow querier invalid_address invalid_message : Error
  unauthorized_owner unauthorized_new_owner unauthorized_contract unauthorized_callback : Error
  not_steak_token not_one_coin wrong_denom zero_deposit no_rewards : Error
  too_early nothing_to_withdraw already_whitelisted not_whitelisted : Error
  max_fee_too_high fee_above_max bad_fee_type mining_power_too_high : Error
  unknown_validator proof_too_weak missing_event missing_attribute bad_reply_id : Error
  reply_failed same_batch_keys bad_coin bad_amount wrong_contract not_minter burn_from_disabled
        not_encoded bad_json missing_data not_run :
      Error

pub data Result {ℓ} (V : Type ℓ) : Type ℓ where
  err : Error → Result V
  ok : V → Result V

-- `if !c { return Err(e) }`
abbrev pub require : Bool → Error → Result (Unit {0})
require false e = err e
require true e = ok tt

-- `?` on a step, and what follows it.
module _ {ℓ κ} {V : Type ℓ} {W : Type κ} where
  infixl 5 ◌>>=◌
  abbrev pub ◌>>=◌ : Result V → (V → Result W) → Result W
  err failed >>= next = err failed
  ok value >>= next = next value

  -- To use that a chain of steps succeeded, one step at a time.
  pub >>=-elim {μ} :
      {Goal : Type μ} (step : Result V) (next : V → Result W) {last : W}
      → (step >>= next) ≡ ok last
      → ((value : V) → step ≡ ok value → next value ≡ ok last → Goal)
      → Goal
  >>=-elim (err failed) next h use_step = absurd cc
  >>=-elim (ok value) next h use_step = use_step value refl h

  pub >>=-eq-ok :
      (step : Result V) (next : V → Result W) {last : W}
      → (step >>= next) ≡ ok last
      → (value : V) × (step ≡ ok value) × (next value ≡ ok last)
  >>=-eq-ok step next h = >>=-elim step next h λ value e rest. (value, e, rest)

infixl 5 ◌>>◌
abbrev pub ◌>>◌ {ℓ} : {W : Type ℓ} → Result (Unit {0}) → Result W → Result W
step >> rest = step >>= λ _. rest

-- `Item::load`
abbrev pub load {ℓ} : {A : Type ℓ} → Option A → Result A
load none = err not_found
load (some a) = ok a

-- `ok_or_else`
abbrev pub ok_or {ℓ} : {A : Type ℓ} → Option A → Error → Result A
ok_or none e = err e
ok_or (some a) e = ok a

-- `unwrap_or`
abbrev pub unwrap_or {ℓ} : {A : Type ℓ} → Option A → A → A
unwrap_or none d = d
unwrap_or (some a) d = a

pub Result-cases {ℓ} :
    {V : Type ℓ} (r : Result V)
    → ((value : V) × (r ≡ ok value)) ⊎ ((failed : Error) × (r ≡ err failed))
Result-cases (err failed) = inr (failed, refl)
Result-cases (ok value) = inl (value, refl)

pub load-eq-ok {ℓ} : {A : Type ℓ} (o : Option A) {a : A} → load o ≡ ok a → o ≡ some a
load-eq-ok none h = cc
load-eq-ok (some a) h = cc

pub require-eq-ok : (b : Bool) (e : Error) {u : Unit {0}} → require b e ≡ ok u → b ≡ true
require-eq-ok true e h = refl
require-eq-ok false e h = cc
