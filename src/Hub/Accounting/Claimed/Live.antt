-- ===== src/Hub/Accounting/Claimed/Live.antt =====
-- The loop of `withdraw_unbonded` in contracts/hub/src/execute.rs runs through where no batch is
-- without shares and the amounts fit 128 bits.
use liquid_staking.Base.{
  ℕ, String, ◌+◌, ◌-◌, ◌*◌, ◌/◌, ◌<◌, ◌≤◌, ◌≡◌, refl, sym, ◌∙◌, some, List, [], ◌∷◌, ◌==◌, arith,
  inl, inr, Bool-cases, Option-cases, if◌then◌else◌, ok,
}
use mathlib.Core.Path.{subst}
use native.Mathlib.Nat.{le_of_mul-le-mul_right, mul-le-mul_left}
use liquid_staking.Types.{UnbondRequest, Batch, PendingBatch}
use liquid_staking.Uint.{floor_bounds, u128_limit}
use liquid_staking.Store.{
  lookup, save, remove, nat_key, pair_key, Every, Every-save, Every-remove, Every-lookup,
  sum-remove,
}
use liquid_staking.Chain.{Chain}
use liquid_staking.Hub.Withdraw.{Claims, claim_ready, claim, claim_all, is_ready}
use liquid_staking.Hub.Accounting.{
  Requests, Batches, IsAccounted, shares_on, unclaimed, unclaimed_of,
}
use liquid_staking.Hub.Accounting.Claimed.Listed.{Held, hold, Held-remove}
use liquid_staking.Hub.Accounting.Claimed.Step.{Paid, paid_batch}
use liquid_staking.Hub.Accounting.Claimed.Loop.{Paid-IsAccounted, Paid-money, claim_cases}

abbrev pub HasShares : ℕ → Batch → Type 0
HasShares k b = 0 < b.total_shares

-- What a share pays is at most what is unclaimed.
paid_within : (a s t : ℕ) → 0 < t → s ≤ t → a * s / t ≤ a
paid_within a s t pos le =
    let (low, _) = floor_bounds (a * s) t (a * s / t) pos refl in
    let most : a * s ≤ a * t = mul-le-mul_left a le in
    le_of_mul-le-mul_right (omega (arith, low, most)) pos

shares_within :
    (p : PendingBatch) (m : Batches) (rs : Requests) (user : String) (r : UnbondRequest) (b : Batch)
    → IsAccounted p m rs
    → lookup r.id m ≡ some b
    → lookup (r.id, user) rs ≡ some r
    → r.shares ≤ b.total_shares
shares_within p m rs user r b a found held =
    ground (
      arith,
      a.shares r.id,
      a.fresh r.id,
      found,
      sum-remove (shares_on r.id) (r.id, user) r rs held,
    )

claim_ready-total :
    (c : Chain) (user : String) (s : Claims) (r : UnbondRequest) (b : Batch)
    → 0 < b.total_shares
    → r.shares ≤ b.total_shares
    → b.amount_unclaimed + s.refund < u128_limit
    → (s' : Claims) × (claim_ready c user s r b ≡ ok s')
unfolding claim_ready
claim_ready-total c user s r b pos le fits =
    let paid = b.amount_unclaimed * r.shares / b.total_shares in
    let within = paid_within b.amount_unclaimed r.shares b.total_shares pos le in
    let ratio : c.math.multiply_ratio b.amount_unclaimed r.shares b.total_shares ≡ ok paid =
      c.math.multiply_ratio_lem b.amount_unclaimed r.shares b.total_shares
      ∙ ground (arith, within, fits, pos) in
    let left = b.amount_unclaimed - paid in
    (
      record {
        batches =
            if b.total_shares - r.shares == 0
            then remove r.id s.batches
            else save b.id
                (record b { total_shares = b.total_shares - r.shares; amount_unclaimed = left })
                s.batches;
        requests = remove (r.id, user) s.requests;
        refund = s.refund + paid;
      },
      ground (arith, ratio, within, fits, le),
    )

-- A claim succeeds: its request is passed over, or its batch pays.
claim-total :
    (c : Chain) (t : ℕ) (user : String) (p : PendingBatch) (s : Claims) (r : UnbondRequest)
    → IsAccounted p s.batches s.requests
    → Every HasShares s.batches
    → unclaimed s.batches + s.refund < u128_limit
    → lookup (r.id, user) s.requests ≡ some r
    → (s' : Claims) × (claim c t user s r (lookup r.id s.batches) ≡ ok s')
unfolding claim
claim-total c t user p s r a pos fits held = elim (Option-cases (lookup r.id s.batches)) [
  | inl e ↦ (s, rw e refl)
  | inr (b, e) ↦ elim (Bool-cases (is_ready t b)) [
    | inl q ↦
        let some_left = sum-remove unclaimed_of r.id b s.batches e in
        let (s', run) =
          claim_ready-total c user s r b (Every-lookup HasShares r.id b s.batches pos e)
            (shares_within p s.batches s.requests user r b a e held)
            (omega (arith, some_left, fits)) in
        (s', rw (e, q) run)
    | inr q ↦ (s, rw (e, q) refl)
  ]
]

-- No batch that is left is without shares.
Paid-HasShares :
    {user : String} {s s' : Claims} {r : UnbondRequest} {b : Batch}
    → Paid user s s' r b
    → Every HasShares s.batches
    → Every HasShares s'.batches
Paid-HasShares {user} {s} {s'} {r} {b} d h =
    subst (Every HasShares) (sym d.batches) (elim (Bool-cases (b.total_shares - r.shares == 0)) [
      | inl e ↦ rw e (Every-remove HasShares r.id s.batches h)
      | inr e ↦
          rw e (
            Every-save HasShares b.id (paid_batch b r.shares d.paid) s.batches (ground (arith, e))
              h)
    ])

-- The loop succeeds.
pub claim_all-total :
    (c : Chain) (t : ℕ) (user : String) (p : PendingBatch) (s : Claims) (l : List UnbondRequest)
    → Held user s.requests l
    → IsAccounted p s.batches s.requests
    → Every HasShares s.batches
    → unclaimed s.batches + s.refund < u128_limit
    → (s' : Claims) × (claim_all c t user s l ≡ ok s')
unfolding claim_all
claim_all-total c t user p s [] k a pos fits = (s, refl)
claim_all-total c t user p s (r ∷ l) (hold found apart k) a pos fits =
    let (s₁, one) = claim-total c t user p s r a pos fits found in
    let (s', more) : (s' : Claims) × (claim_all c t user s₁ l ≡ ok s') =
      elim (claim_cases c t user s s₁ r (lookup r.id s.batches) one) [
        | inl (same, _) ↦
            subst (λ (x : Claims). (s' : Claims) × (claim_all c t user x l ≡ ok s')) (sym same)
              (claim_all-total c t user p s l k a pos fits)
        | inr (b, e, _, d) ↦
            let money = Paid-money p d a e found in
            claim_all-total c t user p s₁ l (rw d.requests (Held-remove r.id apart k))
              (Paid-IsAccounted p d a e found) (Paid-HasShares d pos) (omega (arith, money, fits))
      ] in
    (s', rw one more)
