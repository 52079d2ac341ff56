-- ===== src/Hub/Ledger/Refined.antt =====
-- The messages of contracts/hub/src/contract.rs against the ledger of shares.
use liquid_staking.Base.{
  some, ok, >>=-elim, load, ok_or, require, str_eq, unwrap_or, invalid_message, not_steak_token,
  unauthorized_callback, ◌≡◌, ap,
}
use liquid_staking.Chain.{Env, Chain, Response}
use liquid_staking.State.{State, assert_owner}
use liquid_staking.Hub.Withdraw as Withdrawing
use liquid_staking.Hub.Contract.{
  reinvest, ReceiveMsg, queue_unbond, Cw20ReceiveMsg, ExecuteMsg, receive, bond, withdraw_unbonded,
  withdraw_unbonded_admin, add_validator, remove_validator, remove_validator_ex, pause_validator,
  unpause_validator, transfer_ownership, accept_ownership, harvest, rebalance, reconcile,
  submit_batch, set_unbond_period, transfer_fee_account, update_fee, update_entropy, submit_proof,
  callback, MessageInfo, receiver_or, receive_queued, receive_cw20, run_callback, execute,
}
use liquid_staking.Hub.Difficulty.{ok_or-eq-ok}
use liquid_staking.Hub.Kept.{
  Books, books, Core, core, add_validator-Keeps, remove_validator-Keeps, remove_validator_ex-Keeps,
  pause_validator-Keeps, unpause_validator-Keeps, set_unbond_period-Keeps, accept_ownership-Keeps,
  bond-Keeps, harvest-Keeps, reinvest-Keeps, rebalance-Keeps, transfer_ownership-Keeps,
  transfer_fee_account-Keeps,
}
use liquid_staking.Hub.Accounting.{IsValid}
use liquid_staking.Hub.Ledger.{Same, ledger, Allowed}
use liquid_staking.Hub.Ledger.Handlers.{
  claims-Same, reconcile-stays, update_fee-stays, update_entropy-stays, submit_proof-stays,
  queue_unbond-Deposits, submit_batch-Closes, withdraw_unbonded-Clears,
}

module _ (c : Chain) (env : Env) (info : MessageInfo) where
  receive-Allowed :
      (m : Cw20ReceiveMsg) (st st' : State) (msgs : Response)
      → receive_cw20 c env info m st ≡ ok (st', msgs)
      → Allowed c env info st (receive m) (ledger st) (ledger st')
  unfolding receive_cw20 receive_queued
  receive-Allowed m st st' msgs h =
      >>=-elim (ok_or m.msg invalid_message) _ h
        λ q e h₁. queued q (ok_or-eq-ok m.msg invalid_message e) h₁
    where
      queued :
          (q : ReceiveMsg)
          → m.msg ≡ some q
          → receive_queued c env info m st q ≡ ok (st', msgs)
          → Allowed c env info st (receive m) (ledger st) (ledger st')
      queued (queue_unbond receiver) e h = >>=-elim (load st.steak_token) _ h λ token _ h₁.
          >>=-elim (require (str_eq info.sender token) not_steak_token) _ h₁ λ _ _ h₂.
            >>=-elim (c.addr_validate (unwrap_or receiver m.sender)) _ h₂ λ address valid h₃. (
              receiver,
              address,
              e,
              valid,
              queue_unbond-Deposits env address m.amount st st' msgs h₃,
            )

  booked : (st st' : State) → books st' ≡ books st → Same (ledger st) (ledger st')
  booked st st' e = claims-Same st st' (ap (λ (k : Books). (k.0, k.2)) e)

  kept : (st st' : State) → core st' ≡ core st → Same (ledger st) (ledger st')
  kept st st' e = booked st st' (ap (λ (k : Core). k.0) e)

  -- Every message that the hub accepts in a state whose book-keeping is in order does to the ledger
  -- what it is allowed to: tokens received add their amount to the shares of the user they name, or
  -- else of their sender, in the open batch; a submission closes that batch and opens the next; a
  -- withdrawal takes away all shares of one user in the batches that pay out; all other messages
  -- leave every share alone.
  pub execute-Allowed :
      (m : ExecuteMsg) (st st' : State) (msgs : Response)
      → execute c env info m st ≡ ok (st', msgs)
      → IsValid st
      → Allowed c env info st m (ledger st) (ledger st')
  unfolding execute run_callback Withdrawing.withdraw_unbonded_admin
  execute-Allowed (receive m) st st' msgs h v = receive-Allowed m st st' msgs h
  execute-Allowed (bond receiver) st st' msgs h v =
      >>=-elim (receiver_or c receiver info.sender) _ h
        λ r _ h₁. kept st st' (bond-Keeps c env r info.funds st st' msgs h₁)
  execute-Allowed (withdraw_unbonded receiver) st st' msgs h v =
      >>=-elim (receiver_or c receiver info.sender) _ h
        λ r _ h₁. withdraw_unbonded-Clears c env info.sender r st st' msgs h₁ v
  execute-Allowed (withdraw_unbonded_admin address) st st' msgs h v =
      >>=-elim (c.addr_validate address) _ h λ r valid h₁.
        >>=-elim (assert_owner st info.sender) _ h₁
          λ _ _ h₂. (r, valid, withdraw_unbonded-Clears c env r r st st' msgs h₂ v)
  execute-Allowed (add_validator v') st st' msgs h v =
      kept st st' (add_validator-Keeps info.sender v' st st' msgs h)
  execute-Allowed (remove_validator v') st st' msgs h v =
      kept st st' (remove_validator-Keeps c env info.sender v' st st' msgs h)
  execute-Allowed (remove_validator_ex v') st st' msgs h v =
      kept st st' (remove_validator_ex-Keeps info.sender v' st st' msgs h)
  execute-Allowed (pause_validator v') st st' msgs h v =
      kept st st' (pause_validator-Keeps info.sender v' st st' msgs h)
  execute-Allowed (unpause_validator v') st st' msgs h v =
      kept st st' (unpause_validator-Keeps info.sender v' st st' msgs h)
  execute-Allowed (transfer_ownership o) st st' msgs h v =
      kept st st' (transfer_ownership-Keeps c info.sender o st st' msgs h)
  execute-Allowed accept_ownership st st' msgs h v =
      kept st st' (accept_ownership-Keeps info.sender st st' msgs h)
  execute-Allowed harvest st st' msgs h v =
      kept st st' (harvest-Keeps c env info.sender st st' msgs h)
  execute-Allowed (rebalance minimum) st st' msgs h v =
      kept st st' (rebalance-Keeps c env minimum st st' msgs h)
  execute-Allowed reconcile st st' msgs h v =
      claims-Same st st' (reconcile-stays c env st st' msgs h)
  execute-Allowed submit_batch st st' msgs h v = submit_batch-Closes c env st st' msgs h
  execute-Allowed (set_unbond_period p) st st' msgs h v =
      kept st st' (set_unbond_period-Keeps info.sender p st st' msgs h)
  execute-Allowed (transfer_fee_account t a) st st' msgs h v =
      kept st st' (transfer_fee_account-Keeps c info.sender t a st st' msgs h)
  execute-Allowed (update_fee fee) st st' msgs h v =
      booked st st' (update_fee-stays info.sender fee st st' msgs h)
  execute-Allowed (update_entropy e) st st' msgs h v =
      booked st st' (update_entropy-stays c env e st st' msgs h)
  execute-Allowed (submit_proof nonce v') st st' msgs h v =
      booked st st' (submit_proof-stays c env info.sender nonce v' st st' msgs h)
  execute-Allowed (callback reinvest) st st' msgs h v =
      >>=-elim (require (str_eq env.contract info.sender) unauthorized_callback) _ h
        λ _ _ h₁. kept st st' (reinvest-Keeps c env st st' msgs h₁)
