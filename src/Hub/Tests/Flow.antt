-- ===== src/Hub/Tests/Flow.antt =====
-- Runs of contracts/hub/src/contract.rs: replies, migrations and pages of requests.
use Prim.Native.Char.{Char}
use liquid_staking.Base.{
  Option, map, ℕ, String, false, some, none, ◌+◌, ◌≡◌, refl, List, [], ◌∷◌, ok, err, not_found,
  bad_coin, bad_amount, arith,
}
use liquid_staking.Types.{Batch, Coin, UnbondRequest}
use liquid_staking.Store.{lookup, save, nat_key, pair_key, text_key}
use liquid_staking.State.{State}
use liquid_staking.Text.{to_string, to_digits, split_at, parse_u128, parse_digits}
use liquid_staking.Coins
use liquid_staking.Coins.FromStr.{parse_coin, parse_coin_from, parse_coins, from_str}
use liquid_staking.Coins.FromStr.Printed as Printed
use liquid_staking.Hub.Accounting.Claimed.Paying.{IsListed}
use liquid_staking.Hub.Withdraw.{requests_of}
use liquid_staking.Hub.Mining.{submit_proof}
use liquid_staking.Hub.Queries as Queries
use liquid_staking.Hub.Queries.Pages as Pages
use liquid_staking.Hub.Replies as Replies
use liquid_staking.Hub.Replies.Received as Received
use liquid_staking.Chain.{Msg, undelegate}
use liquid_staking.Hub.Staking as Staking
use liquid_staking.Hub.Migrate as Migrate
use liquid_staking.Hub.Migrate.Effects as Effects
use liquid_staking.Hub.Tests.Sample.{ascii, chain, late, hub, hub-IsValid, batch}

parsed_coins :
    from_str ascii "12345uatom,23456ibc/04"
    ≡ ok (
        record { denom = "uatom"; amount = 12345 }
        ∷ record { denom = "ibc/04"; amount = 23456 }
        ∷ [])
unfolding from_str parse_coins parse_coin parse_coin_from split_at parse_u128 parse_digits
parsed_coins = refl

parsed_number : parse_coin ascii "69420" ≡ err bad_coin
unfolding parse_coin parse_coin_from
parsed_number = refl

parsed_denom : parse_coin ascii "ngmi" ≡ err bad_amount
unfolding parse_coin parse_coin_from split_at parse_u128
parsed_denom = refl

abbrev first : Char
first = "u"

abbrev atom : Coin
atom = record { denom = "uatom"; amount = 12345 }

atom-IsCoin : Printed.IsCoin ascii atom
atom-IsCoin = record {
  letter = first;
  after = "atom";
  fits = omega arith;
  named = refl;
  is_letter = refl;
  no_comma = (refl, (refl, (refl, (refl, (refl, tt)))));
}

printed_run : Printed.print ascii atom ≡ "12345uatom"
unfolding to_string to_digits
printed_run = refl

from_str_printed_example :
    from_str ascii (Printed.join (map (λ (c : Coin). Printed.print ascii c) (atom ∷ atom ∷ [])))
    ≡ ok (atom ∷ atom ∷ [])
from_str_printed_example =
    Printed.from_str_printed ascii (atom ∷ atom ∷ []) (atom-IsCoin, (atom-IsCoin, tt))

abbrev attribute : String → String → Replies.Attribute
attribute key value = record { key = key; value = value }

abbrev received : String → String → Replies.Event
received receiver amount = record {
  ty = "coin_received";
  attributes = attribute "receiver" receiver ∷ attribute "amount" amount ∷ [];
}

abbrev events : List Replies.Event
events =
    received "hub" "12utoken,5uluna"
    ∷ record { ty = "message"; attributes = [] }
    ∷ received "ann" "7utoken"
    ∷ received "hub" "3utoken"
    ∷ []

abbrev unlocked : State
unlocked = record hub {
  unlocked_coins =
      some (record { denom = "utoken"; amount = 15 } ∷ record { denom = "uluna"; amount = 5 } ∷ []);
}

received_run : Replies.register_received_coins ascii late events hub ≡ ok (unlocked, [])
unfolding Replies.register_received_coins Replies.register_coins Replies.coin_received
    Replies.add_events Replies.parse_coin_receiving_event Replies.find_attribute Coins.add_many
    Coins.add from_str parse_coins parse_coin parse_coin_from split_at parse_u128 parse_digits
received_run = refl

register_received_coins_adds_example :
    (coins' : List Coin) × (unlocked.unlocked_coins ≡ some coins')
    × (Coins.first_in "utoken" coins'
        ≡ Coins.first_in "utoken" [] + Received.credited_by ascii late.contract "utoken" events)
register_received_coins_adds_example =
    Received.register_received_coins_adds ascii late events hub unlocked [] [] "utoken" received_run
      refl

-- The page of requests after the one on batch 1 begins with the one on batch 1.
page_run :
    Pages.unbond_requests_by_user "ann" (some 1) none hub
    ≡ record { id = 1; shares = 50 } ∷ record { id = 2; shares = 30 } ∷ []
unfolding Pages.unbond_requests_by_user Pages.requests_after Pages.is_after_bound requests_of
    Queries.take
page_run = refl

abbrev letter_a : Char
letter_a = "a"

abbrev request_of_ann : UnbondRequest
request_of_ann = record { id = 1; user = "ann"; shares = 50 }

unbond_requests_by_user_repeats_example :
    IsListed request_of_ann (Pages.requests_after (some 1) (requests_of "ann" hub.unbond_requests))
unbond_requests_by_user_repeats_example =
    Pages.unbond_requests_by_user_repeats hub letter_a "nn" 1 request_of_ann hub-IsValid refl

abbrev old_batch : ℕ → Migrate.BatchV100
old_batch id = record {
  id = id;
  reconciled = false;
  total_shares = 70;
  native_token_unclaimed = 80;
  est_unbond_end_time = 100;
}

abbrev old_hub : State
old_hub = record hub { previous_batches = []; miner_entropy = none; miner_entropy_draft = none }

abbrev stored : String → Migrate.Storage
stored version = record {
  contract_version = some (record { contract = "pfc-steak-hub"; version = version });
  old_batches = (1, old_batch 1) ∷ (2, old_batch 2) ∷ [];
  hub = old_hub;
}

abbrev upgraded : State
upgraded = record old_hub {
  previous_batches = (1, batch 1 false 70 80) ∷ (2, batch 2 false 70 80) ∷ [];
  prev_denom = some 75;
}

upgraded_run : Migrate.upgrade_stores chain late (stored "2.1.5").old_batches old_hub ≡ ok upgraded
unfolding Migrate.upgrade_stores Migrate.save_batches save
upgraded_run = refl

upgrade_stores_carries_example :
    (b : Batch) × (lookup 2 upgraded.previous_batches ≡ some b)
    × Effects.IsCarried (old_batch 2) b
    × (upgraded.validators_active ≡ old_hub.validators)
    × (upgraded.unbond_requests ≡ old_hub.unbond_requests)
upgrade_stores_carries_example =
    Effects.upgrade_stores_carries chain late (stored "2.1.5").old_batches old_hub upgraded 2
      (old_batch 2) upgraded_run (refl, (refl, tt)) (refl, (refl, tt)) refl

abbrev migrated : Migrate.Storage
migrated = record (stored "2.1.8") { contract_version = some Migrate.current }

migrated_run : Migrate.migrate chain late (stored "2.1.8") ≡ ok migrated
unfolding Migrate.migrate Migrate.migrate_from Migrate.arm_of
migrated_run = refl

migrate_skips_entropy_example :
    (migrated.hub.miner_entropy ≡ none)
    × (submit_proof chain late "ann" 8 "alpha" migrated.hub ≡ err not_found)
migrate_skips_entropy_example =
    Effects.migrate_skips_entropy chain chain late late (stored "2.1.8") migrated "ann" 8 "alpha"
      "alpha" migrated_run refl refl refl

-- An encoding that keeps nothing but the kind of a message.
abbrev kind_of : Staking.Proto → Option (List ℕ)
kind_of (Staking.msg_delegate _ _ _) = some (1 ∷ [])
kind_of (Staking.msg_undelegate _ _ _) = some (2 ∷ [])
kind_of (Staking.msg_begin_redelegate _ _ _ _) = some (3 ∷ [])
kind_of (Staking.msg_withdraw_delegator_reward _ _) = some (4 ∷ [])

abbrev unbonding : Msg
unbonding = undelegate (record { validator = "alpha"; amount = 90; denom = "utoken" })

abbrev encoded : Staking.Stargate
encoded = record { type_url = "/liquidstaking.staking.v1beta1.MsgUndelegate"; value = 2 ∷ [] }

encoded_run : Staking.staking_msg kind_of "hub" unbonding ≡ some (ok encoded)
unfolding Staking.undelegation_msg Staking.proto_encode
encoded_run = refl

staking_msg_reads_back_example :
    (p : Staking.Proto) × (kind_of p ≡ some encoded.value)
    × (encoded.type_url ≡ Staking.type_url_of p)
    × (Staking.delegator_of p ≡ "hub")
    × (Staking.read_back p ≡ some unbonding)
staking_msg_reads_back_example =
    Staking.staking_msg_reads_back kind_of "hub" unbonding encoded encoded_run (omega arith)
