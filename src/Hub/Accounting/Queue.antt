-- ===== src/Hub/Accounting/Queue.antt =====
-- `queue_unbond` of contracts/hub/src/execute.rs keeps the book-keeping of unbonding.
use liquid_staking.Base.{
  ℕ, String, ◌+◌, ◌≡◌, some, ok, if◌then◌else◌, ◌==◌, arith, Option-cases, inl, inr,
}
use liquid_staking.Types.{UnbondRequest, PendingBatch}
use liquid_staking.Store.{
  lookup, save, nat_key, pair_key, measure, Every, Every-save, Every-lookup, Unique-save, sum-save,
}
use liquid_staking.Chain.{Env, Response}
use liquid_staking.State.{State}
use liquid_staking.Hub.Unbond.{queue_unbond, request_or_new}
use liquid_staking.Hub.Accounting.{
  Requests, Batches, shares_on, IsKeyed, IsAccounted, IsValid, IsAccounted-at, IsValid-of,
}

pub queue_unbond_inv :
    (env : Env) (receiver : String) (n : ℕ) (st st' : State) (msgs : Response)
    → queue_unbond env receiver n st ≡ ok (st', msgs)
    → (p : PendingBatch) × (st.pending_batch ≡ some p)
      × (st'.pending_batch ≡ some (record p { usteak_to_burn = p.usteak_to_burn + n }))
      × (let r = request_or_new p.id receiver (lookup (p.id, receiver) st.unbond_requests) in
          st'.unbond_requests
          ≡ save (p.id, receiver) (record r { shares = r.shares + n }) st.unbond_requests)
      × (st'.previous_batches ≡ st.previous_batches)
unfolding queue_unbond
queue_unbond_inv env receiver n st st' msgs h = elim (Option-cases st.pending_batch) [
  | inl e ↦ absurd (ground (arith, e))
  | inr (p, e) ↦ (p, e, ground (arith, e), ground (arith, e), ground (arith, e))
]

-- The request that is saved stands under its own key.
raised-IsKeyed :
    (p : PendingBatch) (receiver : String) (n : ℕ) (rs : Requests)
    → Every IsKeyed rs
    → let r = request_or_new p.id receiver (lookup (p.id, receiver) rs) in
      IsKeyed (p.id, receiver) (record r { shares = r.shares + n })
raised-IsKeyed p receiver n rs keyed = elim (Option-cases (lookup (p.id, receiver) rs)) [
  | inl e ↦ rw e
  | inr (r, e) ↦ rw e (Every-lookup IsKeyed (p.id, receiver) r rs keyed e)
]

-- The shares of the request that is saved.
raised_shares :
    (p : PendingBatch) (receiver : String) (k : ℕ) (rs : Requests)
    → let found = lookup (p.id, receiver) rs in
      measure (shares_on k) (p.id, receiver) found
      ≡ (if p.id == k then (request_or_new p.id receiver found).shares else 0)
raised_shares p receiver k rs = ground arith

queued-IsAccounted :
    (p : PendingBatch) (receiver : String) (n : ℕ) (m : Batches) (rs : Requests)
    → IsAccounted p m rs
    → let r = request_or_new p.id receiver (lookup (p.id, receiver) rs) in
      IsAccounted
        (record p { usteak_to_burn = p.usteak_to_burn + n })
        m
        (save (p.id, receiver) (record r { shares = r.shares + n }) rs)
queued-IsAccounted p receiver n m rs h =
    let r = request_or_new p.id receiver (lookup (p.id, receiver) rs) in
    let r' : UnbondRequest = record r { shares = r.shares + n } in
    record {
      shares = λ k. ground (
        arith,
        h.shares k,
        sum-save (shares_on k) (p.id, receiver) r' rs,
        raised_shares p receiver k rs,
      );
      fresh = h.fresh;
      numbered = h.numbered;
      keyed =
          Every-save IsKeyed (p.id, receiver) r' rs (raised-IsKeyed p receiver n rs h.keyed)
            h.keyed;
      unique_batches = h.unique_batches;
      unique_requests = Unique-save (p.id, receiver) r' rs h.unique_requests;
    }

-- Queueing shares to unbond keeps the book-keeping.
pub queue_unbond-IsValid :
    (env : Env) (receiver : String) (n : ℕ) (st st' : State) (msgs : Response)
    → queue_unbond env receiver n st ≡ ok (st', msgs)
    → IsValid st
    → IsValid st'
queue_unbond-IsValid env receiver n st st' msgs h v =
    let (p, e, e₁, e₂, e₃) = queue_unbond_inv env receiver n st st' msgs h in
    IsValid-of _ _ _ e₁ e₃ e₂
      (queued-IsAccounted p receiver n st.previous_batches st.unbond_requests (IsAccounted-at v e))
