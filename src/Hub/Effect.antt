-- ===== src/Hub/Effect.antt =====
-- What a message of contracts/hub/src/contract.rs comes to: which handler of the batches, the fee or the
-- mining it ends in, if any.
use liquid_staking.Base.{
  ℕ, String, ok, >>=-elim, load, ok_or, require, str_eq, unwrap_or, invalid_message,
  not_steak_token, unauthorized_callback, ◌≡◌,
}
use liquid_staking.Chain.{Env, Chain, Response}
use liquid_staking.State.{State, assert_owner}
use liquid_staking.Hub.Withdraw as Withdrawing
use liquid_staking.Hub.Unbond as Batches
use liquid_staking.Hub.Contract.{
  reinvest, ReceiveMsg, queue_unbond, Cw20ReceiveMsg, ExecuteMsg, receive, bond, withdraw_unbonded,
  withdraw_unbonded_admin, add_validator, remove_validator, remove_validator_ex, pause_validator,
  unpause_validator, transfer_ownership, accept_ownership, harvest, rebalance, reconcile,
  submit_batch, set_unbond_period, transfer_fee_account, update_fee, update_entropy, submit_proof,
  callback, MessageInfo, receiver_or, receive_queued, receive_cw20, run_callback, execute,
}
use liquid_staking.Hub.Kept.{
  add_validator-Keeps, remove_validator-Keeps, remove_validator_ex-Keeps, pause_validator-Keeps,
  unpause_validator-Keeps, set_unbond_period-Keeps, accept_ownership-Keeps, bond-Keeps,
  harvest-Keeps, reinvest-Keeps, rebalance-Keeps, transfer_ownership-Keeps,
  transfer_fee_account-Keeps,
}
use liquid_staking.Hub.Kept.{core}
use liquid_staking.Hub.Reconcile as Reconciling
use liquid_staking.Hub.Ownership as Owning
use liquid_staking.Hub.Mining as Mining

module _ (c : Chain) (env : Env) where
  pub data Effect (st st' : State) : Type 0 where
    keeps : core st' ≡ core st → Effect st st'
    queues :
        (address : String) (amount : ℕ) (msgs : Response)
        → Batches.queue_unbond env address amount st ≡ ok (st', msgs)
        → Effect st st'
    submits : (msgs : Response) → Batches.submit_batch c env st ≡ ok (st', msgs) → Effect st st'
    reconciles : (msgs : Response) → Reconciling.reconcile c env st ≡ ok (st', msgs) → Effect st st'
    withdraws :
        (user receiver : String) (msgs : Response)
        → Withdrawing.withdraw_unbonded c env user receiver st ≡ ok (st', msgs)
        → Effect st st'
    sets_fee :
        (sender : String) (fee : ℕ) (msgs : Response)
        → Owning.update_fee sender fee st ≡ ok (st', msgs)
        → Effect st st'
    sets_entropy :
        (entropy : String) (msgs : Response)
        → Mining.update_entropy c env entropy st ≡ ok (st', msgs)
        → Effect st st'
    proves :
        (sender : String) (nonce : ℕ) (validator : String) (msgs : Response)
        → Mining.submit_proof c env sender nonce validator st ≡ ok (st', msgs)
        → Effect st st'

module _ (c : Chain) (env : Env) (info : MessageInfo) where
  receive-Effect :
      (m : Cw20ReceiveMsg) (st st' : State) (msgs : Response)
      → receive_cw20 c env info m st ≡ ok (st', msgs)
      → Effect c env st st'
  unfolding receive_cw20 receive_queued
  receive-Effect m st st' msgs h = >>=-elim (ok_or m.msg invalid_message) _ h λ q _ h₁. queued q h₁
    where
      queued :
          (q : ReceiveMsg) → receive_queued c env info m st q ≡ ok (st', msgs) → Effect c env st st'
      queued (queue_unbond receiver) h = >>=-elim (load st.steak_token) _ h λ token _ h₁.
          >>=-elim (require (str_eq info.sender token) not_steak_token) _ h₁ λ _ _ h₂.
            >>=-elim (c.addr_validate (unwrap_or receiver m.sender)) _ h₂
              λ address _ h₃. queues address m.amount msgs h₃

  -- Every message that the hub accepts comes to one of these.
  pub execute-Effect :
      (m : ExecuteMsg) (st st' : State) (msgs : Response)
      → execute c env info m st ≡ ok (st', msgs)
      → Effect c env st st'
  unfolding execute run_callback Withdrawing.withdraw_unbonded_admin
  execute-Effect (receive m) st st' msgs h = receive-Effect m st st' msgs h
  execute-Effect (bond receiver) st st' msgs h =
      >>=-elim (receiver_or c receiver info.sender) _ h
        λ r _ h₁. keeps (bond-Keeps c env r info.funds st st' msgs h₁)
  execute-Effect (withdraw_unbonded receiver) st st' msgs h =
      >>=-elim (receiver_or c receiver info.sender) _ h λ r _ h₁. withdraws info.sender r msgs h₁
  execute-Effect (withdraw_unbonded_admin address) st st' msgs h =
      >>=-elim (c.addr_validate address) _ h
        λ r _ h₁. >>=-elim (assert_owner st info.sender) _ h₁ λ _ _ h₂. withdraws r r msgs h₂
  execute-Effect (add_validator v) st st' msgs h =
      keeps (add_validator-Keeps info.sender v st st' msgs h)
  execute-Effect (remove_validator v) st st' msgs h =
      keeps (remove_validator-Keeps c env info.sender v st st' msgs h)
  execute-Effect (remove_validator_ex v) st st' msgs h =
      keeps (remove_validator_ex-Keeps info.sender v st st' msgs h)
  execute-Effect (pause_validator v) st st' msgs h =
      keeps (pause_validator-Keeps info.sender v st st' msgs h)
  execute-Effect (unpause_validator v) st st' msgs h =
      keeps (unpause_validator-Keeps info.sender v st st' msgs h)
  execute-Effect (transfer_ownership o) st st' msgs h =
      keeps (transfer_ownership-Keeps c info.sender o st st' msgs h)
  execute-Effect accept_ownership st st' msgs h =
      keeps (accept_ownership-Keeps info.sender st st' msgs h)
  execute-Effect harvest st st' msgs h = keeps (harvest-Keeps c env info.sender st st' msgs h)
  execute-Effect (rebalance minimum) st st' msgs h =
      keeps (rebalance-Keeps c env minimum st st' msgs h)
  execute-Effect reconcile st st' msgs h = reconciles msgs h
  execute-Effect submit_batch st st' msgs h = submits msgs h
  execute-Effect (set_unbond_period p) st st' msgs h =
      keeps (set_unbond_period-Keeps info.sender p st st' msgs h)
  execute-Effect (transfer_fee_account t a) st st' msgs h =
      keeps (transfer_fee_account-Keeps c info.sender t a st st' msgs h)
  execute-Effect (update_fee fee) st st' msgs h = sets_fee info.sender fee msgs h
  execute-Effect (update_entropy e) st st' msgs h = sets_entropy e msgs h
  execute-Effect (submit_proof nonce v) st st' msgs h = proves info.sender nonce v msgs h
  execute-Effect (callback reinvest) st st' msgs h =
      >>=-elim (require (str_eq env.contract info.sender) unauthorized_callback) _ h
        λ _ _ h₁. keeps (reinvest-Keeps c env st st' msgs h₁)
