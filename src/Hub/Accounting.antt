-- ===== src/Hub/Accounting.antt =====
-- The book-keeping of unbonding in contracts/hub/src/execute.rs: what the batches record of shares is
-- what the users' requests add up to.
pub mod Queue
pub mod Submit
pub mod Reconciled
pub mod Claimed
pub mod Closing
use liquid_staking.Base.{
  ℕ, String, Bool, true, false, ◌+◌, ◌-◌, ◌≡◌, ◌≤◌, ◌<◌, refl, Option, some, none, List, [], ◌∷◌,
  ◌++◌, map, Result, ok, err, load, ◌>>=◌, ◌>>◌, if◌then◌else◌, ◌==◌, ltb, leb, not, ◌&&◌, str_eq,
  arith, Option-cases, inl, inr, Bool-cases, eq_iff,
}
use mathlib.Core.Path.{subst}
use liquid_staking.Types.{Batch, UnbondRequest, PendingBatch}
use liquid_staking.Store.{
  lookup, save, remove, nat_key, pair_key, sum_over, measure, Unique, Every, Every-save,
  Every-remove, Every-lookup, Unique-save, Unique-remove, sum-save, sum-remove, lookup-save,
  lookup-remove,
}
use liquid_staking.Chain.{Env, Chain, Response}
use liquid_staking.State.{State}

abbrev pub Requests : Type 0
Requests = List ((ℕ × String) × UnbondRequest)

abbrev pub Batches : Type 0
Batches = List (ℕ × Batch)

-- What the requests on batch `k` add up to.
abbrev pub shares_on : ℕ → ℕ × String → UnbondRequest → ℕ
shares_on k key r = if key.0 == k then r.shares else 0

abbrev pub requested : ℕ → Requests → ℕ
requested k = sum_over (shares_on k)

-- What is recorded for batch `k`: as pending, as submitted, or nothing.
abbrev pub shares_of : ℕ → Batch → ℕ
shares_of k b = b.total_shares

abbrev pub recorded : ℕ → PendingBatch → Batches → ℕ
recorded k p m = if k == p.id then p.usteak_to_burn else measure shares_of k (lookup k m)

abbrev pub IsKeyed : ℕ × String → UnbondRequest → Type 0
IsKeyed k r = k ≡ (r.id, r.user)

abbrev pub IsNumbered : ℕ → Batch → Type 0
IsNumbered k b = b.id ≡ k

-- What is recorded as not yet claimed.
abbrev pub unclaimed_of : ℕ → Batch → ℕ
unclaimed_of k b = b.amount_unclaimed

abbrev pub unclaimed : Batches → ℕ
unclaimed = sum_over unclaimed_of

pub record IsAccounted (p : PendingBatch) (m : Batches) (rs : Requests) : Type 0 where
  pub shares : (k : ℕ) → requested k rs ≡ recorded k p m
  -- The pending batch and later ones have not been submitted.
  pub fresh : (k : ℕ) → p.id ≤ k → lookup k m ≡ none
  pub numbered : Every IsNumbered m
  pub keyed : Every IsKeyed rs
  pub unique_batches : Unique m
  pub unique_requests : Unique rs

pub record IsValid (st : State) : Type 0 where
  pub pending : PendingBatch
  pub is_pending : st.pending_batch ≡ some pending
  pub accounted : IsAccounted pending st.previous_batches st.unbond_requests

-- The book-keeping, with the pending batch that is stored.
pub IsAccounted-at :
    {st : State} {p : PendingBatch}
    → IsValid st
    → st.pending_batch ≡ some p
    → IsAccounted p st.previous_batches st.unbond_requests
IsAccounted-at {st} {p} v e =
    let same : v.pending ≡ p = cc in
    subst (λ (q : PendingBatch). IsAccounted q st.previous_batches st.unbond_requests) same
      v.accounted

-- A state with the pending batch `p` and accounted maps.
pub IsValid-of :
    {st : State} (p : PendingBatch) (m : Batches) (rs : Requests)
    → st.pending_batch ≡ some p
    → st.previous_batches ≡ m
    → st.unbond_requests ≡ rs
    → IsAccounted p m rs
    → IsValid st
IsValid-of p m rs e e₁ e₂ h = record { pending = p; is_pending = e; accounted = rw (e₁, e₂) h }
