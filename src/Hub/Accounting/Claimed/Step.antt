-- ===== src/Hub/Accounting/Claimed/Step.antt =====
-- One claim of `withdraw_unbonded` in contracts/hub/src/execute.rs.
use liquid_staking.Base.{
  ℕ, String, false, ◌+◌, ◌-◌, ◌*◌, ◌/◌, ◌<◌, ◌≤◌, ◌≡◌, refl, sym, ◌∙◌, some, none, ◌==◌, arith, inl,
  inr, Bool-cases, if◌then◌else◌, ok, >>=-elim,
}
use mathlib.Core.Path.{subst, ap}
use native.Mathlib.Nat.{mul-div_cancel}
use liquid_staking.Types.{UnbondRequest, Batch, PendingBatch}
use liquid_staking.Uint.{floor_ratio, floor_ratio_inv, add_u128, sub_uint}
use liquid_staking.Store.{
  lookup, save, remove, nat_key, pair_key, Every-save, Every-remove, Every-lookup, Unique-save,
  Unique-remove, sum-save, sum-remove, lookup-save, lookup-remove, measure,
}
use liquid_staking.Chain.{Chain}
use liquid_staking.Hub.Withdraw.{Claims, claim_ready}
use liquid_staking.Hub.Accounting.{
  Requests, Batches, IsKeyed, IsNumbered, IsAccounted, shares_on, unclaimed, unclaimed_of,
}

-- The batch once `shares` of it are paid with `paid`.
abbrev pub paid_batch : Batch → ℕ → ℕ → Batch
paid_batch b shares paid = record b {
  total_shares = b.total_shares - shares;
  amount_unclaimed = b.amount_unclaimed - paid;
}

-- The map of batches after it.
abbrev pub batches_after : UnbondRequest → Batch → ℕ → Batches → Batches
batches_after r b paid m =
    if b.total_shares - r.shares == 0
    then remove r.id m
    else save b.id (paid_batch b r.shares paid) m

-- What a paid claim has done.
pub record Paid (user : String) (s s' : Claims) (r : UnbondRequest) (b : Batch) : Type 0 where
  pub paid : ℕ
  pub some_shares : 0 < b.total_shares
  pub is_paid : paid ≡ b.amount_unclaimed * r.shares / b.total_shares
  pub covers_shares : r.shares ≤ b.total_shares
  pub covers_paid : paid ≤ b.amount_unclaimed
  pub refund : s'.refund ≡ s.refund + paid
  pub batches : s'.batches ≡ batches_after r b paid s.batches
  pub requests : s'.requests ≡ remove (r.id, user) s.requests

pub claim_ready_inv :
    (c : Chain) (user : String) (s s' : Claims) (r : UnbondRequest) (b : Batch)
    → claim_ready c user s r b ≡ ok s'
    → Paid user s s' r b
unfolding claim_ready
claim_ready_inv c user s s' r b h =
    >>=-elim (c.math.multiply_ratio b.amount_unclaimed r.shares b.total_shares) _ h
      λ paid is_paid h₁. >>=-elim (add_u128 s.refund paid) _ h₁ λ refund is_refund h₂.
        >>=-elim (sub_uint b.total_shares r.shares) _ h₂ λ shares is_shares h₃.
          >>=-elim (sub_uint b.amount_unclaimed paid) _ h₃ λ left is_left h₄.
            let ratio : floor_ratio b.amount_unclaimed r.shares b.total_shares ≡ ok paid =
              sym (c.math.multiply_ratio_lem b.amount_unclaimed r.shares b.total_shares)
              ∙ is_paid in
            let (pos, e, _) =
              floor_ratio_inv b.amount_unclaimed r.shares b.total_shares paid ratio in
            let shares_eq : shares ≡ b.total_shares - r.shares = ground (arith, is_shares) in
            let left_eq : left ≡ b.amount_unclaimed - paid = ground (arith, is_left) in
            record {
              paid = paid;
              some_shares = pos;
              is_paid = e;
              covers_shares = ground (arith, is_shares);
              covers_paid = ground (arith, is_left);
              refund = ground (arith, is_refund);
              batches = rw (← shares_eq, ← left_eq) (cc);
              requests = cc;
            }

-- A batch that is paid out in full has nothing left: its last shares get all that is unclaimed.
last_claim : (a s t paid : ℕ) → 0 < t → s ≤ t → t - s ≡ 0 → paid ≡ a * s / t → paid ≡ a
last_claim a s t paid pos le z e =
    let same : s ≡ t = omega arith in
    e ∙ subst (λ (x : ℕ). a * x / t ≡ a) (sym same) (mul-div_cancel a pos)

module _ (p : PendingBatch) (m : Batches) (rs : Requests) (user : String) (r : UnbondRequest)
    (b : Batch) (paid : ℕ) (h : IsAccounted p m rs) (found : lookup r.id m ≡ some b)
    (held : lookup (r.id, user) rs ≡ some r) where
  numbered_batch : b.id ≡ r.id
  numbered_batch = Every-lookup IsNumbered r.id b m h.numbered found

  lookup-batches_after :
      (k : ℕ)
      → measure (λ _ (x : Batch). x.total_shares) k (lookup k (batches_after r b paid m)) ≡ (
          if k == r.id
          then b.total_shares - r.shares
          else measure (λ _ (x : Batch). x.total_shares) k (lookup k m))
  lookup-batches_after k = ground (
    arith,
    numbered_batch,
    lookup-save b.id k (paid_batch b r.shares paid) m,
    lookup-remove r.id k m h.unique_batches,
  )

  lookup-batches_after-none :
      (k : ℕ) → lookup k m ≡ none → lookup k (batches_after r b paid m) ≡ none
  lookup-batches_after-none k e = ground (
    arith,
    e,
    found,
    numbered_batch,
    lookup-save b.id k (paid_batch b r.shares paid) m,
    lookup-remove r.id k m h.unique_batches,
  )

  pub lookup-batches_after_ne :
      (k : ℕ) → (k == r.id) ≡ false → lookup k (batches_after r b paid m) ≡ lookup k m
  lookup-batches_after_ne k e = ground (
    arith,
    e,
    numbered_batch,
    lookup-save b.id k (paid_batch b r.shares paid) m,
    lookup-remove r.id k m h.unique_batches,
  )

  -- A paid claim keeps the book-keeping.
  pub claimed-IsAccounted :
      r.shares ≤ b.total_shares → IsAccounted p (batches_after r b paid m) (remove (r.id, user) rs)
  claimed-IsAccounted le = record {
    shares = λ k. ground (
      arith,
      h.shares k,
      found,
      h.fresh k,
      lookup-batches_after k,
      sum-remove (shares_on k) (r.id, user) r rs held,
    );
    fresh = λ k q. lookup-batches_after-none k (h.fresh k q);
    numbered = elim (Bool-cases (b.total_shares - r.shares == 0)) [
      | inl e ↦ rw e (Every-remove IsNumbered r.id m h.numbered)
      | inr e ↦ rw e (Every-save IsNumbered b.id (paid_batch b r.shares paid) m refl h.numbered)
    ];
    keyed = Every-remove IsKeyed (r.id, user) rs h.keyed;
    unique_batches = elim (Bool-cases (b.total_shares - r.shares == 0)) [
      | inl e ↦ rw e (Unique-remove r.id m h.unique_batches)
      | inr e ↦ rw e (Unique-save b.id (paid_batch b r.shares paid) m h.unique_batches)
    ];
    unique_requests = Unique-remove (r.id, user) rs h.unique_requests;
  }

  -- What it pays is what the batches lose.
  pub unclaimed-batches_after :
      0 < b.total_shares
      → r.shares ≤ b.total_shares
      → paid ≡ b.amount_unclaimed * r.shares / b.total_shares
      → paid ≤ b.amount_unclaimed
      → unclaimed (batches_after r b paid m) + paid ≡ unclaimed m
  unclaimed-batches_after pos le e covers =
      let at_id = ap (λ (j : ℕ). lookup j m) numbered_batch ∙ found in
      elim (Bool-cases (b.total_shares - r.shares == 0)) [
        | inl q ↦
            let z : b.total_shares - r.shares ≡ 0 = ground (arith, q) in
            let all = last_claim b.amount_unclaimed r.shares b.total_shares paid pos le z e in
            rw q (omega (arith, sum-remove unclaimed_of r.id b m found, all))
        | inr q ↦
            let s = sum-save unclaimed_of b.id (paid_batch b r.shares paid) m in
            rw q (ground (arith, s, at_id))
      ]
