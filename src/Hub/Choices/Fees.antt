-- ===== src/Hub/Choices/Fees.antt =====
-- The fee of `reinvest` in contracts/hub/src/execute.rs.
use liquid_staking.Base.{
  ℕ, String, Bool-cases, some, [], ◌∷◌, ok, load, load-eq-ok, ◌>>=◌, >>=-elim, ◌≡◌, ◌≤◌, ◌<◌, ◌+◌,
  ◌*◌, ◌/◌, ◌==◌, ◌||◌, ◌⊎◌, inl, inr, sym, arith,
}
use native.Mathlib.Nat.{mul-le-mul_left}
use liquid_staking.Uint.{decimal_fractional, floor_bounds}
use liquid_staking.Types.{Coin, FeeType, wallet, fee_split}
use liquid_staking.Chain.{Response, message, bank_send, fee_split_deposit}
use liquid_staking.State.{State}
use liquid_staking.Hub.Reinvest.{checked_mul_uint, fee_messages, send_fee}

-- With a fee of at most one whole, what is charged is at most the amount, rounded down.
pub checked_mul_uint_floor :
    (rate x fee : ℕ)
    → checked_mul_uint rate x ≡ ok fee
    → rate ≤ decimal_fractional
    → (fee ≤ x)
      × (fee * decimal_fractional ≤ x * rate)
      × (x * rate < (fee + 1) * decimal_fractional)
unfolding checked_mul_uint
checked_mul_uint_floor rate x fee h small = elim (Bool-cases (rate == 0 || x == 0)) [
  | inl e ↦
      let zero : fee ≡ 0 = ground (arith, e) in
      let free : x * rate ≡ 0 = grind (arith, e) in
      (ground (arith, zero), ground (arith, zero), ground (arith, zero, free))
  | inr e ↦
      let is_fee : fee ≡ x * rate / decimal_fractional = ground (arith, e) in
      let (low, high) = floor_bounds (x * rate) decimal_fractional fee (omega arith) is_fee in
      let most : x * rate ≤ x * decimal_fractional = mul-le-mul_left x small in
      (omega (arith, low, most), low, high)
]

-- The messages of a fee: none for a fee of zero, else one payment of it in the denomination to the
-- account of the state, in the way of the account's type.
abbrev pub IsFee : State → String → ℕ → Response → Type 0
IsFee st denom fee msgs =
    ((fee ≡ 0) × (msgs ≡ []))
    ⊎ ((account : String) × (0 < fee)
        × (st.fee_account ≡ some account)
        × (((st.fee_account_type ≡ some wallet)
              × (msgs ≡ message (bank_send account (record { denom = denom; amount = fee })) ∷ []))
            ⊎ ((st.fee_account_type ≡ some fee_split)
                × (msgs
                    ≡ message (fee_split_deposit account (record { denom = denom; amount = fee }))
                      ∷ []))))

paid_as :
    (st : State) (kind : FeeType) (account : String) (coin : Coin) (msgs : Response)
    → st.fee_account_type ≡ some kind
    → send_fee kind account coin ∷ [] ≡ msgs
    → ((st.fee_account_type ≡ some wallet) × (msgs ≡ message (bank_send account coin) ∷ []))
      ⊎ ((st.fee_account_type ≡ some fee_split)
          × (msgs ≡ message (fee_split_deposit account coin) ∷ []))
unfolding send_fee
paid_as st wallet account coin msgs is_kind e = inl (is_kind, sym e)
paid_as st fee_split account coin msgs is_kind e = inr (is_kind, sym e)

pub fee_messages-IsFee :
    (st : State) (denom : String) (fee : ℕ) (msgs : Response)
    → fee_messages st denom fee ≡ ok msgs
    → IsFee st denom fee msgs
unfolding fee_messages
fee_messages-IsFee st denom fee msgs h = elim (Bool-cases (fee == 0)) [
  | inl e ↦ let nothing : msgs ≡ [] = ground (arith, h, e) in inl (ground (arith, e), nothing)
  | inr e ↦
      let coin : Coin = record { denom = denom; amount = fee } in
      let run : (load st.fee_account >>= λ account.
      load st.fee_account_type >>= λ kind. ok (send_fee kind account coin ∷ []))
          ≡ ok msgs =
        ground (arith, h, e) in
      >>=-elim (load st.fee_account) _ run λ account e₁ h₁.
        >>=-elim (load st.fee_account_type) _ h₁ λ kind e₂ h₂. inr (
          account,
          ground (arith, e),
          load-eq-ok _ e₁,
          paid_as st kind account coin msgs (load-eq-ok _ e₂) cc,
        )
]
