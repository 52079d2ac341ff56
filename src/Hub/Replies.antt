-- ===== src/Hub/Replies.antt =====
-- The replies to the hub's own messages: `reply` of contracts/hub/src/contract.rs, and in
-- contracts/hub/src/execute.rs `register_steak_token`, `register_received_coins` and
-- `parse_coin_receiving_event`. Of an answer only the events are kept.
pub mod Received
use liquid_staking.Base.{
  ℕ, String, Bool, true, false, Option, none, some, List, [], ◌∷◌, Result, ok, err, load, ok_or,
  ◌>>=◌, if◌then◌else◌, str_eq, ◌==◌, ◌+◌, ◌≡◌, refl, sym, ◌∙◌, ap, arith, Bool-cases, inl, inr,
  >>=-elim, load-eq-ok, missing_event, missing_attribute, bad_reply_id, reply_failed, sum_by, All,
  eq_iff,
}
use liquid_staking.Types.{Coin}
use liquid_staking.Coins
use liquid_staking.Coins.FromStr.{Alphabet, from_str}
use liquid_staking.Chain.{Env, Chain, Response}
use liquid_staking.State.{State}
use liquid_staking.Hub.Unbond.{reply_register_received_coins}
use liquid_staking.Hub.Kept.{core, Keeps, keep_bind, keep_ok}

pub record Attribute : Type 0 where
  pub key : String
  pub value : String

pub record Event : Type 0 where
  pub ty : String
  pub attributes : List Attribute

-- `SubMsgResult`
pub data SubMsgResult : Type 0 where
  success : List Event → SubMsgResult
  failure : SubMsgResult

pub record Reply : Type 0 where
  pub id : ℕ
  pub result : SubMsgResult

-- `unwrap_reply` of contracts/hub/src/helpers.rs
unfoldable pub unwrap_reply : SubMsgResult → Result (List Event)
unwrap_reply (success events) = ok events
unwrap_reply failure = err reply_failed

-- The value of the first attribute with a key.
unfoldable pub find_attribute : String → List Attribute → Option String
find_attribute key [] = none
find_attribute key (a ∷ rest) =
    let more = find_attribute key rest in if str_eq a.key key then some a.value else more

-- The first event of a type.
unfoldable pub find_event : String → List Event → Option Event
find_event ty [] = none
find_event ty (e ∷ rest) = let more = find_event ty rest in if str_eq e.ty ty then some e else more

-- `events.retain(|event| event.ty == "coin_received")`
unfoldable pub coin_received : List Event → List Event
coin_received [] = []
coin_received (e ∷ rest) =
    let kept = coin_received rest in if str_eq e.ty "coin_received" then e ∷ kept else kept

unfoldable pub register_steak_token : Chain → List Event → State → Result (State × Response)
register_steak_token c events st = do
  event ← ok_or (find_event "instantiate" events) missing_event
  contract_addr_str ← ok_or (find_attribute "_contract_address" event.attributes) missing_attribute
  contract_addr ← c.addr_validate contract_addr_str
  ok (record st { steak_token = some contract_addr }, [])

module _ (u : Alphabet) where
  -- The coins that an event says the hub received.
  unfoldable pub parse_coin_receiving_event : Env → Event → Result (List Coin)
  parse_coin_receiving_event env event = do
    receiver ← ok_or (find_attribute "receiver" event.attributes) missing_attribute
    amount_str ← ok_or (find_attribute "amount" event.attributes) missing_attribute
    if str_eq receiver env.contract then from_str u amount_str else ok []

  -- The loop over the events, with the coins so far.
  unfoldable pub add_events : Env → List Coin → List Event → Result (List Coin)
  add_events env received [] = ok received
  add_events env received (event ∷ events) = do
    coins ← parse_coin_receiving_event env event
    received' ← Coins.add_many received coins
    add_events env received' events

  -- What is stored for the events that are kept.
  unfoldable pub register_coins : Env → List Event → State → Result (State × Response)
  register_coins env [] st = ok (st, [])
  register_coins env (event ∷ events) st = do
    received_coins ← add_events env [] (event ∷ events)
    coins ← load st.unlocked_coins
    coins' ← Coins.add_many coins received_coins
    ok (record st { unlocked_coins = some coins' }, [])

  unfoldable pub register_received_coins : Env → List Event → State → Result (State × Response)
  register_received_coins env events st = register_coins env (coin_received events) st

  unfoldable pub reply : Chain → Env → Reply → State → Result (State × Response)
  reply c env r st =
      if r.id == 1
      then (unwrap_reply r.result >>= λ events. register_steak_token c events st)
      else if r.id == reply_register_received_coins
      then (unwrap_reply r.result >>= λ events. register_received_coins env events st)
      else err bad_reply_id

register_steak_token-Keeps :
    (c : Chain) (events : List Event) (st : State)
    → Keeps core st (register_steak_token c events st)
unfolding register_steak_token
register_steak_token-Keeps c events st =
    keep_bind core st (ok_or (find_event "instantiate" events) missing_event) λ event.
      keep_bind core st
        (ok_or (find_attribute "_contract_address" event.attributes) missing_attribute)
        λ a. keep_bind core st (c.addr_validate a) λ addr. keep_ok core st _ refl

register_coins-Keeps :
    (u : Alphabet) (env : Env) (events : List Event) (st : State)
    → Keeps core st (register_coins u env events st)
unfolding register_coins
register_coins-Keeps u env [] st = keep_ok core st st refl
register_coins-Keeps u env (e ∷ events) st =
    keep_bind core st (add_events u env [] (e ∷ events)) λ received.
      keep_bind core st (load st.unlocked_coins)
        λ coins. keep_bind core st (Coins.add_many coins received) λ coins'. keep_ok core st _ refl

register_received_coins-Keeps :
    (u : Alphabet) (env : Env) (events : List Event) (st : State)
    → Keeps core st (register_received_coins u env events st)
unfolding register_received_coins
register_received_coins-Keeps u env events st = register_coins-Keeps u env (coin_received events) st

-- No reply touches what the invariants of the hub read.
pub reply-Keeps :
    (u : Alphabet) (c : Chain) (env : Env) (r : Reply) (st : State)
    → Keeps core st (reply u c env r st)
unfolding reply
reply-Keeps u c env r st = elim (Bool-cases (r.id == 1)) [
  | inl e ↦
      rw e
        (keep_bind core st (unwrap_reply r.result) λ events. register_steak_token-Keeps c events st)
  | inr e ↦ elim (Bool-cases (r.id == reply_register_received_coins)) [
    | inl e' ↦
        rw (e, e')
          (keep_bind core st (unwrap_reply r.result)
            λ events. register_received_coins-Keeps u env events st)
    | inr e' ↦ rw (e, e') (λ st' msgs h. absurd cc)
  ]
]
