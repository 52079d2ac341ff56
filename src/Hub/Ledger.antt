-- ===== src/Hub/Ledger.antt =====
-- What users see of the unbonding in contracts/hub/src/execute.rs: the number of the batch that is open,
-- and how many shares each user has in each batch. `Allowed` says what each message may do to it; batches, their
-- amounts and their times, the indexes, the validators and the fees are forgotten.
pub mod Handlers
pub mod Refined
use liquid_staking.Base.{
  ℕ, String, Bool, true, false, Option, none, some, ok, unwrap_or, ltb, ◌+◌, ◌<◌, ◌≡◌, ◌==◌, ◌&&◌,
  if◌then◌else◌, str_eq,
}
use liquid_staking.Types.{UnbondRequest, PendingBatch, Batch}
use liquid_staking.Store.{lookup, nat_key, pair_key}
use liquid_staking.Chain.{Env, Chain}
use liquid_staking.State.{State}
use liquid_staking.Hub.Contract.{
  queue_unbond, MessageInfo, ExecuteMsg, receive, withdraw_unbonded, withdraw_unbonded_admin,
  submit_batch,
}

pub record Ledger : Type 0 where
  pub open_batch : ℕ
  pub stake : ℕ → String → ℕ

-- What one call may do to the ledger: nothing.
pub record Same (before after : Ledger) : Type 0 where
  pub open_batch : after.open_batch ≡ before.open_batch
  pub stake : (id : ℕ) (user : String) → after.stake id user ≡ before.stake id user

-- One user adds shares to the open batch.
pub record Deposits (depositor : String) (amount : ℕ) (before after : Ledger) : Type 0 where
  pub open_batch : after.open_batch ≡ before.open_batch
  pub stake :
      (id : ℕ) (user : String)
      → after.stake id user
        ≡ before.stake id user
          + (if (id == before.open_batch) && str_eq user depositor then amount else 0)

-- The open batch is closed, and the next one is opened.
pub record Closes (before after : Ledger) : Type 0 where
  pub open_batch : after.open_batch ≡ before.open_batch + 1
  pub stake : (id : ℕ) (user : String) → after.stake id user ≡ before.stake id user

-- One user gives up all shares in the batches that are ready, and only closed batches are.
pub record Clears (claimant : String) (ready : ℕ → Bool) (before after : Ledger) : Type 0 where
  pub open_batch : after.open_batch ≡ before.open_batch
  pub closed : (id : ℕ) → ready id ≡ true → id < before.open_batch
  pub stake :
      (id : ℕ) (user : String)
      → after.stake id user ≡ (if str_eq user claimant && ready id then 0 else before.stake id user)

abbrev pub shares_in : Option UnbondRequest → ℕ
shares_in none = 0
shares_in (some r) = r.shares

abbrev pub open_of : Option PendingBatch → ℕ
open_of none = 0
open_of (some p) = p.id

-- The ledger of a state.
abbrev pub ledger : State → Ledger
ledger st = record {
  open_batch = open_of st.pending_batch;
  stake = λ id user. shares_in (lookup (id, user) st.unbond_requests);
}

-- A batch that a withdrawal in this block pays from: it is stored, reconciled and past its time.
abbrev pub pays_out : ℕ → Option Batch → Bool
pays_out time none = false
pays_out time (some b) = b.reconciled && ltb b.est_unbond_end_time time

abbrev pub pays : Env → State → ℕ → Bool
pays env st id = pays_out env.time (lookup id st.previous_batches)

-- What each message may do: a deposit that is received is for the user who is named, or else for the
-- sender of the token; a withdrawal is by its sender, or for the user whom the owner names; a batch
-- is closed by its submission; everything else does nothing.
abbrev pub Allowed : Chain → Env → MessageInfo → State → ExecuteMsg → Ledger → Ledger → Type 0
Allowed c env info st (receive m) before after =
    (receiver : Option String) × (user : String) × (m.msg ≡ some (queue_unbond receiver))
    × (c.addr_validate (unwrap_or receiver m.sender) ≡ ok user)
    × Deposits user m.amount before after
Allowed c env info st (withdraw_unbonded receiver) before after =
    Clears info.sender (pays env st) before after
Allowed c env info st (withdraw_unbonded_admin address) before after =
    (user : String) × (c.addr_validate address ≡ ok user) × Clears user (pays env st) before after
Allowed c env info st submit_batch before after = Closes before after
Allowed c env info st m before after = Same before after
