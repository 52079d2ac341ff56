-- ===== src/Hub/Staking.antt =====
-- contracts/hub/src/types/staking.rs and `proto_encode` of contracts/hub/src/helpers.rs: the messages to the
-- staking module. The encoding of a message into bytes, which may fail, is a parameter.
use liquid_staking.Base.{
  ℕ, String, Option, none, some, List, Result, ok, err, ok_or, ◌>>=◌, >>=-elim, ◌∙◌, not_encoded,
  ◌<◌, ◌≡◌, refl, ap, sym,
}
use liquid_staking.Uint.{u128_limit}
use liquid_staking.Types.{Delegation, Undelegation, Redelegation}
use liquid_staking.Chain.{
  Msg, delegate, undelegate, redelegate, withdraw_reward, mint, burn, bank_send, fee_split_deposit,
  instantiate_token, call_self,
}
use liquid_staking.Text.{to_string, parse_u128}
use liquid_staking.Text.Decimal.{parse_u128-to_string}

pub record SdkCoin : Type 0 where
  pub denom : String
  pub amount : String

-- The messages of the SDK: delegator, validators, coin.
pub data Proto : Type 0 where
  msg_delegate : String → String → SdkCoin → Proto
  msg_undelegate : String → String → SdkCoin → Proto
  msg_begin_redelegate : String → String → String → SdkCoin → Proto
  msg_withdraw_delegator_reward : String → String → Proto

-- `CosmosMsg::Stargate`
pub record Stargate : Type 0 where
  pub type_url : String
  pub value : List ℕ

module _ (encode : Proto → Option (List ℕ)) where
  unfoldable pub proto_encode : Proto → String → Result Stargate
  proto_encode msg type_url = do
    bytes ← ok_or (encode msg) not_encoded
    ok (record { type_url = type_url; value = bytes })

  unfoldable pub delegation_msg : String → Delegation → Result Stargate
  delegation_msg delegator_address d =
      proto_encode
        (msg_delegate delegator_address d.validator
          (record { denom = d.denom; amount = to_string d.amount }))
        "/liquidstaking.staking.v1beta1.MsgDelegate"

  unfoldable pub undelegation_msg : String → Undelegation → Result Stargate
  undelegation_msg delegator_address d =
      proto_encode
        (msg_undelegate delegator_address d.validator
          (record { denom = d.denom; amount = to_string d.amount }))
        "/liquidstaking.staking.v1beta1.MsgUndelegate"

  unfoldable pub redelegation_msg : String → Redelegation → Result Stargate
  redelegation_msg delegator_address d =
      proto_encode
        (msg_begin_redelegate delegator_address d.src d.dst
          (record { denom = d.denom; amount = to_string d.amount }))
        "/liquidstaking.staking.v1beta1.MsgBeginRedelegate"

  unfoldable pub reward_withdrawal_msg : String → String → Result Stargate
  reward_withdrawal_msg delegator_address validator =
      proto_encode (msg_withdraw_delegator_reward delegator_address validator)
        "/liquidstaking.distribution.v1beta1.MsgWithdrawDelegatorReward"

-- The encoded form of a message to the staking module, for the delegator.
abbrev pub staking_msg : (Proto → Option (List ℕ)) → String → Msg → Option (Result Stargate)
staking_msg encode delegator (delegate d) = some (delegation_msg encode delegator d)
staking_msg encode delegator (undelegate d) = some (undelegation_msg encode delegator d)
staking_msg encode delegator (redelegate d) = some (redelegation_msg encode delegator d)
staking_msg encode delegator (withdraw_reward v) = some (reward_withdrawal_msg encode delegator v)
staking_msg encode delegator m = none

-- The amounts of a message fit 128 bits.
abbrev pub Fits : Msg → Type 0
Fits (delegate d) = d.amount < u128_limit
Fits (undelegate d) = d.amount < u128_limit
Fits (redelegate d) = d.amount < u128_limit
Fits m = Unit

-- A number read from its text.
abbrev pub read_number : (ℕ → Msg) → Result ℕ → Option Msg
read_number f (err e) = none
read_number f (ok n) = some (f n)

-- A message of the SDK as the chain reads it: its validators, its denomination and its number.
abbrev pub read_back : Proto → Option Msg
read_back (msg_delegate _ v coin) =
    read_number (λ n. delegate (record { validator = v; amount = n; denom = coin.denom }))
      (parse_u128 coin.amount)
read_back (msg_undelegate _ v coin) =
    read_number (λ n. undelegate (record { validator = v; amount = n; denom = coin.denom }))
      (parse_u128 coin.amount)
read_back (msg_begin_redelegate _ src dst coin) =
    read_number (λ n. redelegate (record { src = src; dst = dst; amount = n; denom = coin.denom }))
      (parse_u128 coin.amount)
read_back (msg_withdraw_delegator_reward _ v) = some (withdraw_reward v)

-- The delegator of a message of the SDK.
abbrev pub delegator_of : Proto → String
delegator_of (msg_delegate d _ _) = d
delegator_of (msg_undelegate d _ _) = d
delegator_of (msg_begin_redelegate d _ _ _) = d
delegator_of (msg_withdraw_delegator_reward d _) = d

-- The name by which the chain knows a message of the SDK.
abbrev pub type_url_of : Proto → String
type_url_of (msg_delegate _ _ _) = "/liquidstaking.staking.v1beta1.MsgDelegate"
type_url_of (msg_undelegate _ _ _) = "/liquidstaking.staking.v1beta1.MsgUndelegate"
type_url_of (msg_begin_redelegate _ _ _ _) = "/liquidstaking.staking.v1beta1.MsgBeginRedelegate"
type_url_of (msg_withdraw_delegator_reward _ _) =
    "/liquidstaking.distribution.v1beta1.MsgWithdrawDelegatorReward"

ok-injective : {y x : Stargate} → ok y ≡ ok x → y ≡ x
ok-injective h = cc

ok_or-eq-ok :
    (o : Option (List ℕ)) {bytes : List ℕ} → ok_or o not_encoded ≡ ok bytes → o ≡ some bytes
ok_or-eq-ok none h = absurd cc
ok_or-eq-ok (some b) h = cc

-- What an encoded message holds.
proto_encode_inv :
    (encode : Proto → Option (List ℕ)) (msg : Proto) (type_url : String) (x : Stargate)
    → some (proto_encode encode msg type_url) ≡ some (ok x)
    → (encode msg ≡ some x.value) × (x.type_url ≡ type_url)
unfolding proto_encode
proto_encode_inv encode msg type_url x h =
    let run : (ok_or (encode msg) not_encoded >>= λ bytes.
    ok (record { type_url = type_url; value = bytes }))
        ≡ ok x =
      cc in
    >>=-elim (ok_or (encode msg) not_encoded) _ run λ bytes e h₁.
      let same : record { type_url = type_url; value = bytes } ≡ x = ok-injective h₁ in
      (
        ok_or-eq-ok (encode msg) e ∙ ap (λ (z : Stargate). some z.value) same,
        ap (λ (z : Stargate). z.type_url) (sym same),
      )

-- A message to the staking module whose amount fits 128 bits is encoded, where that succeeds, from a
-- message of the SDK for that delegator, which reads back as the message itself, and is sent under the
-- name by which the chain knows that message of the SDK.
pub staking_msg_reads_back :
    (encode : Proto → Option (List ℕ)) (delegator : String) (m : Msg) (x : Stargate)
    → staking_msg encode delegator m ≡ some (ok x)
    → Fits m
    → (p : Proto) × (encode p ≡ some x.value)
      × (x.type_url ≡ type_url_of p)
      × (delegator_of p ≡ delegator)
      × (read_back p ≡ some m)
unfolding delegation_msg undelegation_msg redelegation_msg reward_withdrawal_msg
staking_msg_reads_back encode a (delegate d) x h fits = (
  msg_delegate a d.validator (record { denom = d.denom; amount = to_string d.amount }),
  (proto_encode_inv encode _ _ x h).0,
  (proto_encode_inv encode _ _ x h).1,
  refl,
  rw (parse_u128-to_string d.amount fits) refl,
)
staking_msg_reads_back encode a (undelegate d) x h fits = (
  msg_undelegate a d.validator (record { denom = d.denom; amount = to_string d.amount }),
  (proto_encode_inv encode _ _ x h).0,
  (proto_encode_inv encode _ _ x h).1,
  refl,
  rw (parse_u128-to_string d.amount fits) refl,
)
staking_msg_reads_back encode a (redelegate d) x h fits = (
  msg_begin_redelegate a d.src d.dst (record { denom = d.denom; amount = to_string d.amount }),
  (proto_encode_inv encode _ _ x h).0,
  (proto_encode_inv encode _ _ x h).1,
  refl,
  rw (parse_u128-to_string d.amount fits) refl,
)
staking_msg_reads_back encode a (withdraw_reward v) x h fits = (
  msg_withdraw_delegator_reward a v,
  (proto_encode_inv encode _ _ x h).0,
  (proto_encode_inv encode _ _ x h).1,
  refl,
  refl,
)
staking_msg_reads_back encode a (mint t r n) x h fits = absurd cc
staking_msg_reads_back encode a (burn t n) x h fits = absurd cc
staking_msg_reads_back encode a (bank_send r coin) x h fits = absurd cc
staking_msg_reads_back encode a (fee_split_deposit r coin) x h fits = absurd cc
staking_msg_reads_back encode a (instantiate_token o i m) x h fits = absurd cc
staking_msg_reads_back encode a (call_self t call) x h fits = absurd cc
