-- ===== src/Hub/Accounting/Claimed/Fair.antt =====
-- Two users of one batch in `withdraw_unbonded` of contracts/hub/src/execute.rs: the order of their
-- withdrawals.
use mathlib.Core.Path.{subst}
use liquid_staking.Base.{
  ℕ, String, true, false, Option, some, none, ok, ◌+◌, ◌-◌, ◌*◌, ◌/◌, ◌<◌, ◌≤◌, ◌≡◌, ◌≢◌, refl, sym,
  ap, ◌∙◌, arith, inl, inr, Bool-cases, ◌==◌, if◌then◌else◌, eq_iff,
}
use liquid_staking.Uint.{floor_bounds}
use liquid_staking.Types.{UnbondRequest, Batch, PendingBatch}
use liquid_staking.Store.{
  lookup, remove, nat_key, pair_key, same_pair, lookup-save, lookup-remove_ne, lookup-remove_self,
  sum-remove, Every-lookup,
}
use liquid_staking.Chain.{Chain}
use liquid_staking.Hub.Withdraw.{Claims, claim, is_ready}
use liquid_staking.Hub.Accounting.{IsAccounted, IsNumbered, shares_on}
use liquid_staking.Hub.Accounting.Claimed.Portions.{late_no_less, late_no_more}
use liquid_staking.Hub.Accounting.Claimed.Step.{Paid, paid_batch, lookup-batches_after_ne}
use liquid_staking.Hub.Accounting.Claimed.Loop.{claim_cases, is_idle}

-- The requests of two users on one batch are covered by its shares together.
both_covered :
    (p : PendingBatch) (s : Claims) (user other : String) (r q : UnbondRequest) (b : Batch)
    → IsAccounted p s.batches s.requests
    → lookup r.id s.batches ≡ some b
    → lookup (r.id, user) s.requests ≡ some r
    → lookup (r.id, other) s.requests ≡ some q
    → other ≢ user
    → r.shares + q.shares ≤ b.total_shares
both_covered p s user other r q b a found held also apart =
    let k = r.id in
    let differs : same_pair (k, other) (k, user) ≡ false =
      ground (arith, eq_iff other user, apart) in
    let still = lookup-remove_ne (k, user) (k, other) s.requests differs ∙ also in
    ground (
      arith,
      a.shares k,
      a.fresh k,
      found,
      sum-remove (shares_on k) (k, user) r s.requests held,
      sum-remove (shares_on k) (k, other) q (remove (k, user) s.requests) still,
    )

-- The batch after the first claim, while it has shares left.
left_batch :
    (p : PendingBatch) (s s₁ : Claims) (user : String) (r : UnbondRequest) (b : Batch)
    → IsAccounted p s.batches s.requests
    → lookup r.id s.batches ≡ some b
    → (d : Paid user s s₁ r b)
    → lookup r.id s₁.batches
      ≡ (if b.total_shares - r.shares == 0 then none else some (paid_batch b r.shares d.paid))
left_batch p s s₁ user r b a found d =
    let numbered : b.id ≡ r.id = Every-lookup IsNumbered r.id b s.batches a.numbered found in
    ap (lookup r.id) d.batches
    ∙ ground (
      arith,
      numbered,
      lookup-save b.id r.id (paid_batch b r.shares d.paid) s.batches,
      lookup-remove_self r.id s.batches a.unique_batches,
    )

-- What a claim adds to the refund.
abbrev pub gain : Claims → Claims → ℕ
gain s s' = s'.refund - s.refund

Paid-gain :
    {user : String} {s s' : Claims} {r : UnbondRequest} {b : Batch} (d : Paid user s s' r b)
    → gain s s' ≡ b.amount_unclaimed * r.shares / b.total_shares
Paid-gain d = omega (arith, d.refund, d.is_paid)

gain-idle : {s s' : Claims} → s' ≡ s → gain s s' ≡ 0
gain-idle {s} {s'} e = let same = ap (λ (x : Claims). x.refund) e in omega (arith, same)

-- A claim that is not idle is paid.
refund_if_ready :
    (c : Chain) (t : ℕ) (user : String) (s s' : Claims) (r : UnbondRequest) (b : Batch)
    → claim c t user s r (some b) ≡ ok s'
    → is_ready t b ≡ true
    → Paid user s s' r b
refund_if_ready c t user s s' r b run ready = elim (claim_cases c t user s s' r (some b) run) [
  | inl (_, idle) ↦ absurd (ground (arith, idle, ready))
  | inr (b', e, _, d) ↦ let same : b' ≡ b = cc in subst (Paid user s s' r) same d
]

-- On the same batch the same request is worth the same.
same_gain :
    (c : Chain) (t : ℕ) (user : String) (s s₁ s₂ s₃ : Claims) (r : UnbondRequest) (o : Option Batch)
    → claim c t user s r o ≡ ok s₂
    → claim c t user s₁ r o ≡ ok s₃
    → gain s₁ s₃ ≡ gain s s₂
same_gain c t user s s₁ s₂ s₃ r o early late = elim (claim_cases c t user s s₂ r o early) [
  | inl (e, idle) ↦ elim (claim_cases c t user s₁ s₃ r o late) [
    | inl (e', _) ↦ gain-idle e' ∙ sym (gain-idle e)
    | inr (b, there, ready, _) ↦
        let waits = sym (ap (is_idle t) there) ∙ idle in absurd (ground (arith, waits, ready))
  ]
  | inr (b, there, ready, d) ↦
      let late' : claim c t user s₁ r (some b) ≡ ok s₃ =
        sym (ap (claim c t user s₁ r) there) ∙ late in
      Paid-gain (refund_if_ready c t user s₁ s₃ r b late' ready) ∙ sym (Paid-gain d)
]

idle_if_gone :
    (c : Chain) (t : ℕ) (user : String) (s s' : Claims) (r : UnbondRequest)
    → claim c t user s r none ≡ ok s'
    → s' ≡ s
idle_if_gone c t user s s' r run = elim (claim_cases c t user s s' r none run) [
  | inl (same, _) ↦ same
  | inr (b, e, _, _) ↦ absurd (ground (arith, e))
]

-- The same batch, after a claim on it that is paid.
order_on_batch :
    (c : Chain) (t : ℕ) (p : PendingBatch) (user other : String) (s s₁ s₂ s₃ : Claims)
    (r q : UnbondRequest) (b : Batch)
    → IsAccounted p s.batches s.requests
    → lookup r.id s.batches ≡ some b
    → is_ready t b ≡ true
    → r.shares + q.shares ≤ b.total_shares
    → Paid user s s₁ r b
    → Paid other s s₂ q b
    → claim c t other s₁ q (lookup r.id s₁.batches) ≡ ok s₃
    → (gain s s₂ ≤ gain s₁ s₃) × (gain s₁ s₃ ≤ gain s s₂ + 1)
order_on_batch c t p user other s s₁ s₂ s₃ r q b a found ready covers d e run =
    let here = left_batch p s s₁ user r b a found d in
    let a₀ = b.amount_unclaimed in
    let early = a₀ * q.shares / b.total_shares in
    let (early_low, early_high) =
      floor_bounds (a₀ * q.shares) b.total_shares early d.some_shares refl in
    let (low, high) = floor_bounds (a₀ * r.shares) b.total_shares d.paid d.some_shares d.is_paid in
    elim (Bool-cases (b.total_shares - r.shares == 0)) [
      | inl z ↦
          let gone : lookup r.id s₁.batches ≡ none = rw z at here in
          let none_left : q.shares ≡ 0 = ground (arith, z, covers) in
          let worthless : a₀ * q.shares ≡ 0 = ap (λ (n : ℕ). a₀ * n) none_left ∙ omega arith in
          let nothing : early ≡ 0 = grind (arith, early_low, worthless, d.some_shares) in
          let skipped : s₃ ≡ s₁ = idle_if_gone c t other s₁ s₃ q (rw gone at run) in
          let late_gain = gain-idle skipped in
          let early_gain = Paid-gain e in
          (
            omega (arith, nothing, late_gain, early_gain),
            omega (arith, nothing, late_gain, early_gain),
          )
      | inr z ↦
          let b' = paid_batch b r.shares d.paid in
          let still : lookup r.id s₁.batches ≡ some b' = rw z at here in
          let run' : claim c t other s₁ q (some b') ≡ ok s₃ =
            sym (ap (claim c t other s₁ q) still) ∙ run in
          let f = refund_if_ready c t other s₁ s₃ q b' run' ready in
          let t' = b.total_shares - r.shares in
          let left = a₀ - d.paid in
          let late = left * q.shares / t' in
          let pos : 0 < t' = ground (arith, z) in
          let (late_low, late_high) = floor_bounds (left * q.shares) t' late pos refl in
          let all : r.shares + t' ≡ b.total_shares = omega (arith, d.covers_shares) in
          let whole : d.paid + left ≡ a₀ = omega (arith, d.covers_paid) in
          let within : q.shares ≤ t' = omega (arith, covers) in
          let low' : d.paid * (r.shares + t') ≤ (d.paid + left) * r.shares = rw (all, whole) low in
          let high' : (d.paid + left) * r.shares < (d.paid + 1) * (r.shares + t') =
            rw (all, whole) high in
          let e_low : early * (r.shares + t') ≤ (d.paid + left) * q.shares =
            rw (all, whole) early_low in
          let e_high : (d.paid + left) * q.shares < (early + 1) * (r.shares + t') =
            rw (all, whole) early_high in
          let no_less =
            late_no_less r.shares t' q.shares d.paid left early late low' high' e_low e_high
              late_low late_high within pos in
          let no_more =
            late_no_more r.shares t' q.shares d.paid left early late low' high' e_low e_high
              late_low late_high within pos in
          let late_gain = Paid-gain f in
          let early_gain = Paid-gain e in
          (
            omega (arith, no_less, late_gain, early_gain),
            omega (arith, no_more, late_gain, early_gain),
          )
    ]

-- Two users with a request each, in a state whose book-keeping is in order: the second one to claim
-- is paid no less than she would have been paid by claiming first, and one unit more at most,
-- whatever the batches of the two requests are.
pub claim_order_fair :
    (c : Chain) (t : ℕ) (p : PendingBatch) (user other : String) (s s₁ s₂ s₃ : Claims)
    (r q : UnbondRequest)
    → IsAccounted p s.batches s.requests
    → lookup (r.id, user) s.requests ≡ some r
    → lookup (q.id, other) s.requests ≡ some q
    → other ≢ user
    → claim c t user s r (lookup r.id s.batches) ≡ ok s₁
    → claim c t other s q (lookup q.id s.batches) ≡ ok s₂
    → claim c t other s₁ q (lookup q.id s₁.batches) ≡ ok s₃
    → (gain s s₂ ≤ gain s₁ s₃) × (gain s₁ s₃ ≤ gain s s₂ + 1)
claim_order_fair c t p user other s s₁ s₂ s₃ r q a held also apart first early late =
    elim (claim_cases c t user s s₁ r (lookup r.id s.batches) first) [
      | inl (same, _) ↦
          let late' : claim c t other s₁ q (lookup q.id s.batches) ≡ ok s₃ =
            sym (ap (λ (x : Claims). claim c t other s₁ q (lookup q.id x.batches)) same) ∙ late in
          let equal = same_gain c t other s s₁ s₂ s₃ q (lookup q.id s.batches) early late' in
          (omega (arith, equal), omega (arith, equal))
      | inr (b, found, ready, d) ↦ elim (Bool-cases (q.id == r.id)) [
        | inr e ↦
            let kept =
              ap (lookup q.id) d.batches
              ∙ lookup-batches_after_ne p s.batches s.requests user r b d.paid a found held q.id
                  e in
            let late' : claim c t other s₁ q (lookup q.id s.batches) ≡ ok s₃ =
              sym (ap (claim c t other s₁ q) kept) ∙ late in
            let equal = same_gain c t other s s₁ s₂ s₃ q (lookup q.id s.batches) early late' in
            (omega (arith, equal), omega (arith, equal))
        | inl e ↦
            let same : q.id ≡ r.id = ground (arith, e) in
            let also' : lookup (r.id, other) s.requests ≡ some q =
              sym (ap (λ (k : ℕ). lookup (k, other) s.requests) same) ∙ also in
            let there : lookup q.id s.batches ≡ some b =
              ap (λ (k : ℕ). lookup k s.batches) same ∙ found in
            let early' : claim c t other s q (some b) ≡ ok s₂ =
              sym (ap (claim c t other s q) there) ∙ early in
            let late' : claim c t other s₁ q (lookup r.id s₁.batches) ≡ ok s₃ =
              sym (ap (λ (k : ℕ). claim c t other s₁ q (lookup k s₁.batches)) same) ∙ late in
            order_on_batch c t p user other s s₁ s₂ s₃ r q b a found ready
              (both_covered p s user other r q b a found held also' apart) d
              (refund_if_ready c t other s s₂ q b early' ready) late'
      ]
    ]
