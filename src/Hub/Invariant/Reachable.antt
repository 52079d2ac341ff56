-- ===== src/Hub/Invariant/Reachable.antt =====
-- The states that a hub can get into: from `instantiate` of contracts/hub/src/execute.rs on, by the
-- messages and the replies of contracts/hub/src/contract.rs that it accepts.
use liquid_staking.Base.{
  some, [], ok, >>=-elim, require, leb, ◌≡◌, refl, arith, max_fee_too_high, fee_above_max,
}
use mathlib.Core.Path.{subst}
use liquid_staking.Uint.{add_u64, decimal_fractional}
use liquid_staking.Types.{PendingBatch}
use liquid_staking.Chain.{Env, Chain, Response}
use liquid_staking.State.{State}
use liquid_staking.Hub.Ownership.{fee_type_of}
use liquid_staking.Hub.Contract.{ExecuteMsg, MessageInfo, execute}
use liquid_staking.Hub.Instantiate.{InstantiateMsg, instantiate, no_state}
use liquid_staking.Coins.FromStr.{Alphabet}
use liquid_staking.Hub.Replies.{Reply, reply, reply-Keeps}
use liquid_staking.Hub.Invariant.{IsSound, execute-IsSound}
use liquid_staking.Hub.Invariant.Parts.{Kept-IsSound}
use liquid_staking.Hub.Invariant.Ordered.{IsOrdered, Effect-IsOrdered}
use liquid_staking.Hub.Effect.{keeps, execute-Effect}

-- A new hub is sound.
pub instantiate-IsSound :
    (c : Chain) (env : Env) (msg : InstantiateMsg) (st : State) (msgs : Response)
    → instantiate c env msg no_state ≡ ok (st, msgs)
    → IsSound st
unfolding instantiate
instantiate-IsSound c env msg st msgs h =
    >>=-elim (require (leb msg.max_fee_amount decimal_fractional) max_fee_too_high) _ h λ _ e h₁.
      >>=-elim (require (leb msg.fee_amount msg.max_fee_amount) fee_above_max) _ h₁ λ _ e₁ h₂.
        >>=-elim (fee_type_of msg.fee_account_type) _ h₂ λ kind _ h₃.
          >>=-elim (c.addr_validate msg.owner) _ h₃ λ owner _ h₄.
            >>=-elim (c.addr_validate msg.fee_account) _ h₄ λ account _ h₅.
              >>=-elim (add_u64 env.time msg.epoch_period) _ h₅ λ start _ h₆.
                let pending : PendingBatch = record {
                  id = 1;
                  usteak_to_burn = 0;
                  est_unbond_start_time = start;
                } in
                let made = record no_state {
                  owner = some owner;
                  epoch_period = some msg.epoch_period;
                  unbond_period = some msg.unbond_period;
                  validators = some msg.validators;
                  unlocked_coins = some [];
                  prev_denom = some 0;
                  denom = some msg.denom;
                  max_fee_rate = some msg.max_fee_amount;
                  fee_rate = some msg.fee_amount;
                  fee_account_type = some kind;
                  fee_account = some account;
                  pending_batch = some pending;
                  validators_active = some msg.validators;
                  miner_entropy = some env.contract;
                  miner_entropy_draft = some env.contract;
                  miner_difficulty = some 1;
                  miner_last_mined_timestamp = some env.time;
                  miner_last_mined_block = some env.height;
                  total_mining_power = some 0;
                } in
                let after : made ≡ st = cc in
                subst IsSound after (record {
                  valid = record {
                    pending = pending;
                    is_pending = refl;
                    accounted = record {
                      shares = λ k. ground arith;
                      fresh = λ k _. refl;
                      numbered = tt;
                      keyed = tt;
                      unique_batches = tt;
                      unique_requests = tt;
                    };
                  };
                  capped =
                      (msg.fee_amount, msg.max_fee_amount, refl, refl, ground arith, ground arith);
                  mining = (1, 0, refl, refl, omega arith, tt, refl);
                })

-- The states of a hub, each step in a block and on a chain of its own.
pub data Reachable : State → Type 0 where
  start :
      (c : Chain) (env : Env) (msg : InstantiateMsg) {st : State} {msgs : Response}
      → instantiate c env msg no_state ≡ ok (st, msgs)
      → Reachable st
  step :
      (c : Chain) (env : Env) (info : MessageInfo) (m : ExecuteMsg) {st st' : State}
      {msgs : Response}
      → Reachable st
      → execute c env info m st ≡ ok (st', msgs)
      → Reachable st'
  replied :
      (u : Alphabet) (c : Chain) (env : Env) (r : Reply) {st st' : State} {msgs : Response}
      → Reachable st
      → reply u c env r st ≡ ok (st', msgs)
      → Reachable st'

-- Every state that a hub can get into, by a successful instantiation and the messages and the replies
-- that it then accepts, is sound.
pub Reachable-IsSound : {st : State} → Reachable st → IsSound st
Reachable-IsSound (start c env msg h) = instantiate-IsSound c env msg _ _ h
Reachable-IsSound (step c env info m r h) =
    execute-IsSound c env info m _ _ _ h (Reachable-IsSound r)
Reachable-IsSound (replied u c env p {st} {st'} {msgs} r h) =
    Kept-IsSound st st' (reply-Keeps u c env p st st' msgs h) (Reachable-IsSound r)

instantiate-IsOrdered :
    (c : Chain) (env : Env) (msg : InstantiateMsg) (st : State) (msgs : Response)
    → instantiate c env msg no_state ≡ ok (st, msgs)
    → IsOrdered st
unfolding instantiate
instantiate-IsOrdered c env msg st msgs h =
    >>=-elim (require (leb msg.max_fee_amount decimal_fractional) max_fee_too_high) _ h λ _ e h₁.
      >>=-elim (require (leb msg.fee_amount msg.max_fee_amount) fee_above_max) _ h₁ λ _ e₁ h₂.
        >>=-elim (fee_type_of msg.fee_account_type) _ h₂ λ kind _ h₃.
          >>=-elim (c.addr_validate msg.owner) _ h₃ λ owner _ h₄.
            >>=-elim (c.addr_validate msg.fee_account) _ h₄ λ account _ h₅.
              >>=-elim (add_u64 env.time msg.epoch_period) _ h₅ λ start _ h₆.
                let none_yet : st.previous_batches ≡ [] = ground (arith, h₆) in rw none_yet tt

-- Every state that a hub can get into has its batches in the order of their ids.
pub Reachable-IsOrdered : {st : State} → Reachable st → IsOrdered st
Reachable-IsOrdered (start c env msg h) = instantiate-IsOrdered c env msg _ _ h
Reachable-IsOrdered (step c env info m r h) =
    Effect-IsOrdered c env _ _ (execute-Effect c env info m _ _ _ h) (Reachable-IsOrdered r)
Reachable-IsOrdered (replied u c env p {st} {st'} {msgs} r h) =
    Effect-IsOrdered c env st st' (keeps (reply-Keeps u c env p st st' msgs h))
      (Reachable-IsOrdered r)
