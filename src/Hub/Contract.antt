-- ===== src/Hub/Contract.antt =====
-- The dispatch of contracts/hub/src/contract.rs: `execute`, `receive` and `callback`, with the
-- messages of packages/steak/src/hub.rs. Decoding a message from JSON is not modelled: `none` stands
-- for one that cannot be decoded.
use liquid_staking.Base.{
  ℕ, String, Option, some, none, List, Result, ok, load, ok_or, ◌>>=◌, ◌>>◌, require, str_eq,
  unwrap_or, invalid_message, not_steak_token, unauthorized_callback,
}
use liquid_staking.Types.{Coin}
use liquid_staking.Chain.{Env, Chain, Response}
use liquid_staking.State.{State}
use liquid_staking.Hub.Bond as Bonds
use liquid_staking.Hub.Reinvest as Rewards
use liquid_staking.Hub.Unbond as Batches
use liquid_staking.Hub.Reconcile as Reconciling
use liquid_staking.Hub.Withdraw as Withdrawing
use liquid_staking.Hub.Validators as Validators
use liquid_staking.Hub.Ownership as Owning
use liquid_staking.Hub.Mining as Proofs

pub data CallbackMsg : Type 0 where
  reinvest : CallbackMsg

pub data ReceiveMsg : Type 0 where
  queue_unbond : Option String → ReceiveMsg

-- The sender, the amount, and the message that a `Cw20ReceiveMsg` carries.
pub record Cw20ReceiveMsg : Type 0 where
  pub sender : String
  pub amount : ℕ
  pub msg : Option ReceiveMsg

pub data ExecuteMsg : Type 0 where
  receive : Cw20ReceiveMsg → ExecuteMsg
  bond : Option String → ExecuteMsg
  withdraw_unbonded : Option String → ExecuteMsg
  withdraw_unbonded_admin : String → ExecuteMsg
  add_validator : String → ExecuteMsg
  remove_validator : String → ExecuteMsg
  remove_validator_ex : String → ExecuteMsg
  pause_validator : String → ExecuteMsg
  unpause_validator : String → ExecuteMsg
  transfer_ownership : String → ExecuteMsg
  accept_ownership : ExecuteMsg
  harvest : ExecuteMsg
  rebalance : ℕ → ExecuteMsg
  reconcile : ExecuteMsg
  submit_batch : ExecuteMsg
  set_unbond_period : ℕ → ExecuteMsg
  transfer_fee_account : String → String → ExecuteMsg
  update_fee : ℕ → ExecuteMsg
  update_entropy : String → ExecuteMsg
  submit_proof : ℕ → String → ExecuteMsg
  callback : CallbackMsg → ExecuteMsg

-- `MessageInfo`
pub record MessageInfo : Type 0 where
  pub sender : String
  pub funds : List Coin

module _ (c : Chain) where
  -- `receiver.map(|s| api.addr_validate(&s)).transpose()?.unwrap_or(info.sender)`
  unfoldable pub receiver_or : Option String → String → Result String
  receiver_or none sender = ok sender
  receiver_or (some r) sender = c.addr_validate r

  -- The branch of `receive` for `QueueUnbond`.
  unfoldable pub receive_queued :
      Env → MessageInfo → Cw20ReceiveMsg → State → ReceiveMsg → Result (State × Response)
  receive_queued env info cw20_msg st (queue_unbond receiver) = do
    steak_token ← load st.steak_token
    require (str_eq info.sender steak_token) not_steak_token
    address ← c.addr_validate (unwrap_or receiver cw20_msg.sender)
    Batches.queue_unbond env address cw20_msg.amount st

  unfoldable pub receive_cw20 :
      Env → MessageInfo → Cw20ReceiveMsg → State → Result (State × Response)
  receive_cw20 env info cw20_msg st = do
    m ← ok_or cw20_msg.msg invalid_message
    receive_queued env info cw20_msg st m

  unfoldable pub run_callback : Env → MessageInfo → CallbackMsg → State → Result (State × Response)
  run_callback env info reinvest st = do
    require (str_eq env.contract info.sender) unauthorized_callback
    Rewards.reinvest c env st

  unfoldable pub execute : Env → MessageInfo → ExecuteMsg → State → Result (State × Response)
  execute env info (receive m) st = receive_cw20 env info m st
  execute env info (bond receiver) st = do
    r ← receiver_or receiver info.sender
    Bonds.bond c env r info.funds st
  execute env info (withdraw_unbonded receiver) st = do
    r ← receiver_or receiver info.sender
    Withdrawing.withdraw_unbonded c env info.sender r st
  execute env info (withdraw_unbonded_admin address) st = do
    r ← c.addr_validate address
    Withdrawing.withdraw_unbonded_admin c env info.sender r st
  execute env info (add_validator v) st = Validators.add_validator info.sender v st
  execute env info (remove_validator v) st = Validators.remove_validator c env info.sender v st
  execute env info (remove_validator_ex v) st = Validators.remove_validator_ex info.sender v st
  execute env info (pause_validator v) st = Validators.pause_validator info.sender v st
  execute env info (unpause_validator v) st = Validators.unpause_validator info.sender v st
  execute env info (transfer_ownership o) st = Owning.transfer_ownership c info.sender o st
  execute env info accept_ownership st = Owning.accept_ownership info.sender st
  execute env info harvest st = Bonds.harvest c env info.sender st
  execute env info (rebalance minimum) st = Validators.rebalance c env minimum st
  execute env info reconcile st = Reconciling.reconcile c env st
  execute env info submit_batch st = Batches.submit_batch c env st
  execute env info (set_unbond_period p) st = Owning.set_unbond_period info.sender p st
  execute env info (transfer_fee_account t a) st = Owning.transfer_fee_account c info.sender t a st
  execute env info (update_fee fee) st = Owning.update_fee info.sender fee st
  execute env info (update_entropy e) st = Proofs.update_entropy c env e st
  execute env info (submit_proof nonce v) st = Proofs.submit_proof c env info.sender nonce v st
  execute env info (callback m) st = run_callback env info m st
