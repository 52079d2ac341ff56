-- ===== src/Hub/Tests/Closings.antt =====
-- A run of contracts/hub/src/contract.rs: tokens that are received after the open batch was due.
use liquid_staking.Base.{true, false, some, [], ◌∷◌}
use liquid_staking.Store.{nat_key, pair_key}
use liquid_staking.Chain.{
  Response, message, reply_on_success, undelegate, burn, call_self, submit_batch as submit_call,
}
use liquid_staking.State.{State}
use liquid_staking.Hub.Unbond as Unbond
use liquid_staking.Hub.Contract as Contract
use liquid_staking.Hub.Accounting.Closing as Closing
use liquid_staking.Hub.Tests.Sample.{batch, request, waiting, hub}

-- Ann sends 16 tokens.
abbrev queued : State
queued = record hub {
  pending_batch = some (record waiting { usteak_to_burn = 96 });
  unbond_requests =
      request 1 "ann" 50
      ∷ request 2 "ann" 30
      ∷ request 2 "bob" 40
      ∷ request 3 "ann" 16
      ∷ request 3 "bob" 80
      ∷ [];
}

abbrev queued_messages : Response
queued_messages = message (call_self "hub" submit_call) ∷ []

abbrev closed : State
closed = record queued {
  previous_batches =
      (1, batch 1 true 50 49)
      ∷ (2, batch 2 false 70 80)
      ∷ (
        3,
        record {
          id = 3;
          reconciled = false;
          total_shares = 96;
          amount_unclaimed = 108;
          est_unbond_end_time = 1020;
        },
      )
      ∷ [];
  pending_batch = some (record { id = 4; usteak_to_burn = 0; est_unbond_start_time = 1010 });
  prev_denom = some 75;
}

abbrev closed_messages : Response
closed_messages =
    reply_on_success (undelegate (record { validator = "alpha"; amount = 108; denom = "utoken" })) 2
    ∷ message (burn "steak" 96)
    ∷ []
