-- ===== src/Hub/Invariant.antt =====
-- The invariants of the hub: the book-keeping of unbonding, the bounds of the fee, and the mining
-- power. Every entry point of contracts/hub/src/contract.rs that is modelled keeps them.
mod Parts
mod Unbonding
mod Rates
pub mod Ordered
pub mod Reachable
pub mod Deployed
use liquid_staking.Base.{ok, ◌≡◌}
use liquid_staking.Chain.{Env, Chain, Response}
use liquid_staking.State.{State}
use liquid_staking.Hub.Contract.{ExecuteMsg, MessageInfo, execute}
use liquid_staking.Hub.Effect.{
  Effect, keeps, queues, submits, reconciles, withdraws, sets_fee, sets_entropy, proves,
  execute-Effect,
}
pub use Parts.{IsSound}
use Parts.{Kept-IsSound}
use Unbonding.{
  queue_unbond-IsSound, submit_batch-IsSound, reconcile-IsSound, withdraw_unbonded-IsSound,
}
use Rates.{update_fee-IsSound, update_entropy-IsSound, submit_proof-IsSound}

module _ (c : Chain) (env : Env) where
  Effect-IsSound : (st st' : State) → Effect c env st st' → IsSound st → IsSound st'
  Effect-IsSound st st' (keeps e) s = Kept-IsSound st st' e s
  Effect-IsSound st st' (queues address amount msgs h) s =
      queue_unbond-IsSound env address amount st st' msgs h s
  Effect-IsSound st st' (submits msgs h) s = submit_batch-IsSound c env st st' msgs h s
  Effect-IsSound st st' (reconciles msgs h) s = reconcile-IsSound c env st st' msgs h s
  Effect-IsSound st st' (withdraws user receiver msgs h) s =
      withdraw_unbonded-IsSound c env user receiver st st' msgs h s
  Effect-IsSound st st' (sets_fee sender fee msgs h) s =
      update_fee-IsSound sender fee st st' msgs h s
  Effect-IsSound st st' (sets_entropy entropy msgs h) s =
      update_entropy-IsSound c env entropy st st' msgs h s
  Effect-IsSound st st' (proves sender nonce validator msgs h) s =
      submit_proof-IsSound c env sender nonce validator st st' msgs h s

  -- A message that the hub accepts in a sound state leads to a sound state, whoever sends it and
  -- whatever the chain answers: the shares that the batches record are what the requests on them
  -- add up to, the fee is at most its maximum and that at most one whole, the difficulty is
  -- positive, and the total mining power is what the powers of the validators add up to.
  pub execute-IsSound :
      (info : MessageInfo) (m : ExecuteMsg) (st st' : State) (msgs : Response)
      → execute c env info m st ≡ ok (st', msgs)
      → IsSound st
      → IsSound st'
  execute-IsSound info m st st' msgs h s =
      Effect-IsSound st st' (execute-Effect c env info m st st' msgs h) s
