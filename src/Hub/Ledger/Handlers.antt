-- ===== src/Hub/Ledger/Handlers.antt =====
-- What the handlers of contracts/hub/src/execute.rs do to the ledger of shares.
use liquid_staking.Base.{
  none, not, ℕ, String, false, Option, some, ◌+◌, ◌≡◌, ◌∙◌, refl, ap, ◌==◌, ◌&&◌, str_eq, arith,
  Bool-cases, Option-cases, inl, inr, ok, load, require, leb, fee_above_max, >>=-elim, eq_iff,
}
use liquid_staking.Uint.{add_u128, sum_u128}
use liquid_staking.Types.{UnbondRequest, PendingBatch, Batch}
use liquid_staking.Store.{lookup, nat_key, pair_key, lookup-save}
use liquid_staking.Coins
use liquid_staking.Chain.{Chain, Env, Response}
use liquid_staking.State.{State, assert_owner}
use liquid_staking.Hub.Unbond.{queue_unbond, submit_batch, request_or_new}
use liquid_staking.Hub.Reconcile.{reconcile, due_batches, deduct_if_short}
use liquid_staking.Hub.Withdraw.{withdraw_unbonded}
use liquid_staking.Hub.Ownership.{update_fee}
use liquid_staking.Hub.Mining.{update_entropy, update_difficulty, submit_proof}
use liquid_staking.Hub.Difficulty.{update_difficulty_inv, submit_proof_inv}
use liquid_staking.Hub.Kept.{books, Keeps, keep_bind, keep_ok}
use liquid_staking.Hub.Accounting.{Requests, IsValid}
use liquid_staking.Hub.Accounting.Queue.{queue_unbond_inv}
use liquid_staking.Hub.Accounting.Submit.{submit_batch_inv}
use liquid_staking.Hub.Accounting.Claimed.{withdraw_inv, withdraw_unbonded_effect, is_open}
use liquid_staking.Hub.Accounting.Claimed.Loop.{is_idle}
use liquid_staking.Hub.Ledger.{
  Same, Deposits, Closes, Clears, ledger, shares_in, open_of, pays, pays_out,
}

-- What the ledger reads.
abbrev pub claims : State → Option PendingBatch × Requests
claims st = (st.pending_batch, st.unbond_requests)

pub claims-Same : (st st' : State) → claims st' ≡ claims st → Same (ledger st) (ledger st')
claims-Same st st' e = record {
  open_batch = ap (λ (k : Option PendingBatch × Requests). open_of k.0) e;
  stake =
      λ id user. ap (λ (k : Option PendingBatch × Requests). shares_in (lookup (id, user) k.1)) e;
}

pub reconcile-stays : (c : Chain) (env : Env) (st : State) → Keeps claims st (reconcile c env st)
unfolding reconcile
reconcile-stays c env st =
    let batches = due_batches env.time st.previous_batches in
    keep_bind claims st (sum_u128 (λ (b : Batch). b.amount_unclaimed) batches)
      λ native_expected_received. keep_bind claims st (load st.denom) λ denom.
        keep_bind claims st (load st.unlocked_coins) λ unlocked_coins.
          keep_bind claims st
            (add_u128 native_expected_received (Coins.find unlocked_coins denom).amount)
            λ native_expected.
              keep_bind claims st (c.query_balance env.contract denom) λ native_actual.
                keep_bind claims st (deduct_if_short batches native_expected native_actual)
                  λ _. keep_ok claims st _ refl

pub update_fee-stays :
    (sender : String) (fee : ℕ) (st : State) → Keeps books st (update_fee sender fee st)
unfolding update_fee
update_fee-stays sender fee st = keep_bind books st (assert_owner st sender) λ _.
    keep_bind books st (load st.max_fee_rate)
      λ most. keep_bind books st (require (leb fee most) fee_above_max) λ _. keep_ok books st _ refl

pub update_entropy-stays :
    (c : Chain) (env : Env) (entropy : String) (st : State)
    → Keeps books st (update_entropy c env entropy st)
unfolding update_entropy
update_entropy-stays c env entropy st st' msgs h =
    >>=-elim (load st.miner_entropy_draft) _ h λ draft _ h₁.
      let st₁ = record st { miner_entropy_draft = some (c.sha256_pair draft entropy) } in
      >>=-elim (update_difficulty env.time false st₁) _ h₁ λ st₂ e h₂.
        let a = update_difficulty_inv env.time false st₁ st₂ e in
        let after : st' ≡ st₂ = cc in ap books after ∙ ap books a.after

pub submit_proof-stays :
    (c : Chain) (env : Env) (sender : String) (nonce : ℕ) (address : String) (st : State)
    → Keeps books st (submit_proof c env sender nonce address st)
submit_proof-stays c env sender nonce address st st' msgs h =
    let p = submit_proof_inv c env sender nonce address st st' msgs h in
    ap books p.after ∙ ap books p.adjustment.after

-- `queue_unbond` adds the shares to the receiver's in the open batch.
pub queue_unbond-Deposits :
    (env : Env) (receiver : String) (n : ℕ) (st st' : State) (msgs : Response)
    → queue_unbond env receiver n st ≡ ok (st', msgs)
    → Deposits receiver n (ledger st) (ledger st')
queue_unbond-Deposits env receiver n st st' msgs h =
    let (p, e, e₁, e₂, _) = queue_unbond_inv env receiver n st st' msgs h in
    let rs = st.unbond_requests in
    let r = request_or_new p.id receiver (lookup (p.id, receiver) rs) in
    let r' : UnbondRequest = record r { shares = r.shares + n } in
    let was : r.shares ≡ shares_in (lookup (p.id, receiver) rs) =
      elim (Option-cases (lookup (p.id, receiver) rs)) [
        | inl q ↦ rw q refl
        | inr (_, q) ↦ rw q refl
      ] in
    record {
      open_batch = rw (e, e₁) refl;
      stake = λ id user.
          let written = lookup-save (p.id, receiver) (id, user) r' rs in
          let after = ap (λ (m : Requests). lookup (id, user) m) e₂ ∙ written in
          elim (Bool-cases ((id == p.id) && str_eq user receiver)) [
            | inl q ↦
                let same_id : id ≡ p.id = ground (arith, q) in
                let same_user : user ≡ receiver = (eq_iff user receiver).0 (ground (arith, q)) in
                let mine : lookup (id, user) st'.unbond_requests ≡ some r' = after ∙ rw q refl in
                let raised : r.shares + n ≡ shares_in (lookup (id, user) rs) + n =
                  rw (same_id, same_user) (ap (λ (x : ℕ). x + n) was) in
                rw (e, q) (ap shares_in mine ∙ raised)
            | inr q ↦
                let other : lookup (id, user) st'.unbond_requests ≡ lookup (id, user) rs =
                  after ∙ rw q refl in
                rw (e, q) (omega (arith, ap shares_in other))
          ];
    }

-- `submit_batch` closes the open batch.
pub submit_batch-Closes :
    (c : Chain) (env : Env) (st st' : State) (msgs : Response)
    → submit_batch c env st ≡ ok (st', msgs)
    → Closes (ledger st) (ledger st')
submit_batch-Closes c env st st' msgs h =
    let s = submit_batch_inv c env st st' msgs h in
    record {
      open_batch = rw (s.is_pending, s.new_pending) s.next_id;
      stake = λ id user. ap (λ (m : Requests). shares_in (lookup (id, user) m)) s.same_requests;
    }

-- A batch that is not idle pays.
open_pays : (t : ℕ) (o : Option Batch) → not (is_idle t o) ≡ pays_out t o
open_pays t none = refl
open_pays t (some b) = ground arith

-- `withdraw_unbonded` claims what is ready.
pub withdraw_unbonded-Clears :
    (c : Chain) (env : Env) (user receiver : String) (st st' : State) (msgs : Response)
    → withdraw_unbonded c env user receiver st ≡ ok (st', msgs)
    → IsValid st
    → Clears user (pays env st) (ledger st) (ledger st')
withdraw_unbonded-Clears c env user receiver st st' msgs h v =
    let w = withdraw_inv c env user receiver st st' msgs h in
    record {
      open_batch = ap (λ (s : State). open_of s.pending_batch) w.after;
      closed = λ id ready. elim (Bool-cases (leb (open_of st.pending_batch) id)) [
        | inr lt ↦ ground (arith, lt)
        | inl le ↦
            let same : open_of st.pending_batch ≡ v.pending.id = rw v.is_pending refl in
            let absent = v.accounted.fresh id (ground (arith, le, same)) in
            absurd (ground (arith, ready, absent))
      ];
      stake = λ id other.
          let effect = withdraw_unbonded_effect c env user receiver st st' msgs id other h v in
          let same : is_open env.time st id ≡ pays env st id =
            open_pays env.time (lookup id st.previous_batches) in
          elim (Bool-cases (str_eq other user && pays env st id)) [
            | inl q ↦ rw q (ap shares_in effect ∙ rw (same, q) refl)
            | inr q ↦ rw q (ap shares_in effect ∙ rw (same, q) refl)
          ];
    }
