-- ===== src/Hub/Accounting/Closing.antt =====
-- A transaction of contracts/hub/src/contract.rs: tokens that are received when the open batch is due,
-- and the `submit_batch` that the hub then sends to itself.
use liquid_staking.Base.{ℕ, ◌+◌}
use liquid_staking.Types.{PendingBatch, UnbondRequest}
use liquid_staking.Store.{nat_key, pair_key}
use liquid_staking.Chain.{Chain, submit_batch as submit_call}
use liquid_staking.State.{State}
use liquid_staking.Hub.Contract.{submit_batch}

-- The open batch with the shares of tokens that arrive.
abbrev raised : ℕ → PendingBatch → PendingBatch
raised n q = record q { usteak_to_burn = q.usteak_to_burn + n }

-- A request with the shares of tokens that arrive.
abbrev more : UnbondRequest → ℕ → UnbondRequest
more r n = record r { shares = r.shares + n }
