-- ===== src/Hub/Tests/Staking.antt =====
-- Runs of contracts/hub/src/execute.rs: bonding, reinvesting and mining.
use liquid_staking.Base.{
  ℕ, String, true, some, ◌+◌, ◌-◌, ◌^◌, ◌≡◌, ◌≤◌, refl, List, [], ◌∷◌, ok, arith, unwrap_or,
}
use Prim.Native.String.{◌++◌ as append}
use liquid_staking.Types.{Delegation, Coin}
use liquid_staking.Store.{lookup, save, nat_key, pair_key, text_key}
use liquid_staking.Chain.{
  Response, message, reply_on_success, bank_send, delegate, mint, call_self, harvest,
}
use liquid_staking.Hub.Queries as Queries
use liquid_staking.State.{State}
use liquid_staking.Helpers.{query_delegation, query_delegations, parse_received_fund}
use liquid_staking.Hub.Bond as Bond
use liquid_staking.Hub.Reinvest as Reinvest
use liquid_staking.Hub.Mining as Mining
use liquid_staking.Hub.Choices as Choices
use liquid_staking.Hub.Difficulty as Difficulty
use liquid_staking.Math.Exchange.{compute_mint_amount, compute_unbond_amount}
use liquid_staking.Math.Target.{compute_target_delegation_from_mining_power}
use liquid_staking.Hub.Tests.Sample.{chain, late, hub}

abbrev reinvest_messages : Response
reinvest_messages =
    message (delegate (record { validator = "alpha"; amount = 45; denom = "utoken" }))
    ∷ message (bank_send "fees" (record { denom = "utoken"; amount = 5 }))
    ∷ []

reinvested_run : Reinvest.reinvest chain late hub ≡ ok (hub, reinvest_messages)
unfolding Reinvest.reinvest Reinvest.pick_gap Reinvest.widest_gap Reinvest.wider_gap
    Reinvest.checked_mul_uint Reinvest.fee_messages Reinvest.send_fee Reinvest.without_denom
    query_delegations query_delegation compute_target_delegation_from_mining_power
reinvested_run = refl

reinvest_spends_example : Choices.IsReinvested chain late hub reinvest_messages (10 ^ 17)
reinvest_spends_example =
    Choices.reinvest_spends chain late hub hub reinvest_messages (10 ^ 17) reinvested_run refl
      (omega arith)

abbrev funds : List Coin
funds = record { denom = "utoken"; amount = 90 } ∷ []

abbrev bonded : State
bonded = record hub { prev_denom = some 75 }

abbrev bond_messages : Response
bond_messages =
    reply_on_success (delegate (record { validator = "beta"; amount = 90; denom = "utoken" })) 2
    ∷ message (mint "steak" "ann" 80)
    ∷ []

bonded_run : Bond.bond chain late "ann" funds hub ≡ ok (bonded, bond_messages)
unfolding Bond.bond Bond.pick_smallest Bond.smallest parse_received_fund query_delegations
    query_delegation compute_mint_amount
bonded_run = refl

bond_to_smallest_example : Choices.IsBonded chain late "ann" funds hub bond_messages
bond_to_smallest_example =
    Choices.bond_to_smallest chain late "ann" funds hub bonded bond_messages bonded_run

charged_run : Reinvest.checked_mul_uint (10 ^ 17) 57 ≡ ok 5
unfolding Reinvest.checked_mul_uint
charged_run = refl

abbrev easy : ℕ
easy = 1

abbrev harder : ℕ
harder = 2

harder_run : Mining.next_difficulty 10 easy true ≡ ok harder
unfolding Mining.next_difficulty
harder_run = refl

abbrev proved : State
proved = record hub {
  fee_account = some "miner";
  miner_entropy = some "1f";
  miner_entropy_draft = some "0f";
  miner_difficulty = some 2;
  miner_last_mined_timestamp = some 1000;
  miner_last_mined_block = some 40;
  validator_mining_powers = ("alpha", 30) ∷ ("beta", 10) ∷ [];
  total_mining_power = some 40;
}

abbrev proof_messages : Response
proof_messages = message (call_self "hub" harvest) ∷ []

proved_run : Mining.submit_proof chain late "miner" 7 "alpha" hub ≡ ok (proved, proof_messages)
unfolding Mining.submit_proof Mining.update_difficulty Mining.next_difficulty
    Mining.compute_miner_proof Mining.create_difficulty_prefix save
proved_run = refl

submit_proof_rewards_example :
    (validator entropy rest : String) × (difficulty last total : ℕ) × (chain.query_validator "alpha"
      ≡ ok (some validator))
    × (hub.miner_entropy ≡ some entropy)
    × (hub.miner_difficulty ≡ some difficulty)
    × (chain.sha256_proof entropy "miner" 7 ≡ append (Difficulty.zeros difficulty) rest)
    × Difficulty.IsLast hub late.height last
    × (last ≤ late.height)
    × (hub.total_mining_power ≡ some total)
    × (proved.total_mining_power ≡ some (total + (late.height - last)))
    × (lookup validator proved.validator_mining_powers
        ≡ some (unwrap_or (lookup validator hub.validator_mining_powers) 0 + (late.height - last)))
    × (proved.miner_last_mined_block ≡ some late.height)
    × (proved.fee_account ≡ some "miner")
submit_proof_rewards_example =
    Difficulty.submit_proof_rewards chain late "miner" 7 "alpha" hub proved proof_messages
      proved_run

quoted_run : Queries.exchange_rate chain 900 800 ≡ ok 1125000000000000000
unfolding Queries.exchange_rate
quoted_run = refl

abbrev delegations : List Delegation
delegations =
    record { validator = "alpha"; amount = 600; denom = "utoken" }
    ∷ record { validator = "beta"; amount = 300; denom = "utoken" }
    ∷ []

unbonded_run : compute_unbond_amount chain.math 800 80 delegations ≡ ok 90
unfolding compute_unbond_amount
unbonded_run = refl
