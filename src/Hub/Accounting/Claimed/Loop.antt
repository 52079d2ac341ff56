-- ===== src/Hub/Accounting/Claimed/Loop.antt =====
-- The loop of `withdraw_unbonded` in contracts/hub/src/execute.rs: every claim that it pays keeps the
-- book-keeping and pays what the batches lose, and afterwards no request of the user can be paid.
use liquid_staking.Base.{
  ℕ, String, Bool, true, false, ◌+◌, ◌≡◌, refl, sym, ◌∙◌, ◌⊎◌, Option, some, none, List, [], ◌∷◌,
  ◌==◌, arith, inl, inr, Bool-cases, Option-cases, str_eq, eq_iff, not, ok, >>=-elim, All,
}
use mathlib.Core.Path.{subst, ap}
use liquid_staking.Types.{UnbondRequest, Batch, PendingBatch}
use liquid_staking.Store.{lookup, remove, nat_key, pair_key, lookup-remove, lookup-remove_ne}
use liquid_staking.Chain.{Chain}
use liquid_staking.Hub.Withdraw.{Claims, claim, claim_all, is_ready}
use liquid_staking.Hub.Accounting.{IsAccounted, unclaimed}
use liquid_staking.Hub.Accounting.Claimed.Listed.{Held, hold, Held-remove, Asked}
use liquid_staking.Hub.Accounting.Claimed.Step.{
  Paid, claim_ready_inv, claimed-IsAccounted, unclaimed-batches_after, lookup-batches_after_ne,
}

-- No claim can be made on a batch that is missing, or not ready.
abbrev pub is_idle : ℕ → Option Batch → Bool
is_idle t none = true
is_idle t (some b) = not (is_ready t b)

-- A claim passes over its request, or pays it.
pub claim_cases :
    (c : Chain) (t : ℕ) (user : String) (s s' : Claims) (r : UnbondRequest) (o : Option Batch)
    → claim c t user s r o ≡ ok s'
    → ((s' ≡ s) × (is_idle t o ≡ true))
      ⊎ ((b : Batch) × (o ≡ some b) × (is_ready t b ≡ true) × Paid user s s' r b)
unfolding claim
claim_cases c t user s s' r none h = inl (cc, refl)
claim_cases c t user s s' r (some b) h = elim (Bool-cases (is_ready t b)) [
  | inl e ↦ inr (b, refl, e, claim_ready_inv c user s s' r b (rw e at h))
  | inr e ↦ inl (ground (arith, e), rw e)
]

pub Paid-IsAccounted :
    (p : PendingBatch) {user : String} {s s' : Claims} {r : UnbondRequest} {b : Batch}
    → Paid user s s' r b
    → IsAccounted p s.batches s.requests
    → lookup r.id s.batches ≡ some b
    → lookup (r.id, user) s.requests ≡ some r
    → IsAccounted p s'.batches s'.requests
Paid-IsAccounted p {user} {s} {s'} {r} {b} d h found held =
    rw (d.batches, d.requests)
      (claimed-IsAccounted p s.batches s.requests user r b d.paid h found held d.covers_shares)

pub Paid-money :
    (p : PendingBatch) {user : String} {s s' : Claims} {r : UnbondRequest} {b : Batch}
    → Paid user s s' r b
    → IsAccounted p s.batches s.requests
    → lookup r.id s.batches ≡ some b
    → lookup (r.id, user) s.requests ≡ some r
    → unclaimed s'.batches + s'.refund ≡ unclaimed s.batches + s.refund
Paid-money p {user} {s} {s'} {r} {b} d h found held =
    let loss =
      unclaimed-batches_after p s.batches s.requests user r b d.paid h found held d.some_shares
        d.covers_shares d.is_paid d.covers_paid in
    rw (d.batches, d.refund) (omega (arith, loss))

-- The whole loop keeps the book-keeping, and what it pays is what the batches lose.
pub claim_all-IsAccounted :
    (c : Chain) (t : ℕ) (user : String) (p : PendingBatch) (s s' : Claims) (l : List UnbondRequest)
    → claim_all c t user s l ≡ ok s'
    → Held user s.requests l
    → IsAccounted p s.batches s.requests
    → IsAccounted p s'.batches s'.requests
      × (unclaimed s'.batches + s'.refund ≡ unclaimed s.batches + s.refund)
unfolding claim_all
claim_all-IsAccounted c t user p s s' [] h k a = let e : s' ≡ s = cc in rw e (a, refl)
claim_all-IsAccounted c t user p s s' (r ∷ l) h (hold found apart k) a =
    >>=-elim (claim c t user s r (lookup r.id s.batches)) _ h λ s₁ one more.
      elim (claim_cases c t user s s₁ r (lookup r.id s.batches) one) [
        | inl (same, _) ↦ claim_all-IsAccounted c t user p s s' l (rw same at more) k a
        | inr (b, e, _, d) ↦
            let k' : Held user s₁.requests l = rw d.requests (Held-remove r.id apart k) in
            let (a', money) =
              claim_all-IsAccounted c t user p s₁ s' l more k' (Paid-IsAccounted p d a e found) in
            (a', money ∙ Paid-money p d a e found)
      ]

-- Every request of the user is on a batch that is not ready, or is still to be gone through.
abbrev Leaves : ℕ → String → List UnbondRequest → Claims → Type 0
Leaves t user l s =
    (id : ℕ) (x : UnbondRequest)
    → lookup (id, user) s.requests ≡ some x
    → (is_idle t (lookup id s.batches) ≡ true) ⊎ Asked id l

skip-Leaves :
    (t : ℕ) (user : String) (r : UnbondRequest) (l : List UnbondRequest) (s : Claims)
    → is_idle t (lookup r.id s.batches) ≡ true
    → Leaves t user (r ∷ l) s
    → Leaves t user l s
skip-Leaves t user r l s idle q id x e = elim (q id x e) [
  | inl i ↦ inl i
  | inr (inl i) ↦ inl (subst (λ (j : ℕ). is_idle t (lookup j s.batches) ≡ true) (sym i) idle)
  | inr (inr i) ↦ inr i
]

Paid-Leaves :
    (t : ℕ) (user : String) (p : PendingBatch) (r : UnbondRequest) (l : List UnbondRequest)
    (s s' : Claims) (b : Batch)
    → Paid user s s' r b
    → IsAccounted p s.batches s.requests
    → lookup r.id s.batches ≡ some b
    → lookup (r.id, user) s.requests ≡ some r
    → Leaves t user (r ∷ l) s
    → Leaves t user l s'
Paid-Leaves t user p r l s s' b d a found held q id x e =
    let gone = lookup-remove (r.id, user) (id, user) s.requests a.unique_requests in
    let e' : lookup (id, user) (remove (r.id, user) s.requests) ≡ some x = rw d.requests at e in
    let apart : (id == r.id) ≡ false = ground (arith, gone, e', eq_iff user user) in
    let before : lookup (id, user) s.requests ≡ some x = ground (arith, gone, e', apart) in
    let still =
      ap (lookup id) d.batches
      ∙ lookup-batches_after_ne p s.batches s.requests user r b d.paid a found held id apart in
    elim (q id x before) [
      | inl i ↦ inl (ap (is_idle t) still ∙ i)
      | inr (inl i) ↦ absurd (ground (arith, i, apart))
      | inr (inr i) ↦ inr i
    ]

-- After the loop no request of the user is on a batch that is ready.
pub claim_all_idle :
    (c : Chain) (t : ℕ) (user : String) (p : PendingBatch) (s s' : Claims) (l : List UnbondRequest)
    → claim_all c t user s l ≡ ok s'
    → Held user s.requests l
    → IsAccounted p s.batches s.requests
    → Leaves t user l s
    → Leaves t user [] s'
unfolding claim_all
claim_all_idle c t user p s s' [] h k a q =
    let same : s' ≡ s = cc in subst (Leaves t user []) (sym same) q
claim_all_idle c t user p s s' (r ∷ l) h (hold found apart k) a q =
    >>=-elim (claim c t user s r (lookup r.id s.batches)) _ h λ s₁ one more.
      elim (claim_cases c t user s s₁ r (lookup r.id s.batches) one) [
        | inl (same, idle) ↦
            claim_all_idle c t user p s s' l (rw same at more) k a (skip-Leaves t user r l s idle q)
        | inr (b, e, _, d) ↦
            let k' : Held user s₁.requests l = rw d.requests (Held-remove r.id apart k) in
            claim_all_idle c t user p s₁ s' l more k' (Paid-IsAccounted p d a e found)
              (Paid-Leaves t user p r l s s₁ b d a e found q)
      ]

-- A batch that is not ready is not the one that is paid.
pub ready_elsewhere :
    (t j : ℕ) (s : Claims) (r : UnbondRequest) (b : Batch)
    → lookup r.id s.batches ≡ some b
    → is_ready t b ≡ true
    → is_idle t (lookup j s.batches) ≡ true
    → (j == r.id) ≡ false
ready_elsewhere t j s r b e ready idle = elim (Bool-cases (j == r.id)) [
  | inl q ↦
      let i : j ≡ r.id = ground (arith, q) in
      let found : lookup j s.batches ≡ some b = ap (λ (x : ℕ). lookup x s.batches) i ∙ e in
      let idle_b = sym (ap (is_idle t) found) ∙ idle in absurd (ground (arith, ready, idle_b))
  | inr q ↦ q
]

-- The loop touches no request of another user, and no batch that is not ready.
pub claim_all_others :
    (c : Chain) (t : ℕ) (user : String) (p : PendingBatch) (s s' : Claims) (l : List UnbondRequest)
    → claim_all c t user s l ≡ ok s'
    → Held user s.requests l
    → IsAccounted p s.batches s.requests
    → (k : ℕ) (other : String) → str_eq other user ≡ false
    → (lookup (k, other) s'.requests ≡ lookup (k, other) s.requests)
      × ((is_idle t (lookup k s.batches) ≡ true) → lookup k s'.batches ≡ lookup k s.batches)
unfolding claim_all
claim_all_others c t user p s s' [] h k a j other ne =
    let same : s' ≡ s = cc in rw same (refl, λ _. refl)
claim_all_others c t user p s s' (r ∷ l) h (hold found apart k) a j other ne =
    >>=-elim (claim c t user s r (lookup r.id s.batches)) _ h λ s₁ one more.
      elim (claim_cases c t user s s₁ r (lookup r.id s.batches) one) [
        | inl (same, idle) ↦ claim_all_others c t user p s s' l (rw same at more) k a j other ne
        | inr (b, e, ready, d) ↦
            let k' : Held user s₁.requests l = rw d.requests (Held-remove r.id apart k) in
            let (rs, bs) =
              claim_all_others c t user p s₁ s' l more k' (Paid-IsAccounted p d a e found) j other
                ne in
            let same_requests =
              ap (lookup (j, other)) d.requests
              ∙ lookup-remove_ne (r.id, user) (j, other) s.requests (ground (arith, ne)) in
            (
              rs ∙ same_requests,
              λ idle.
                  let away : (j == r.id) ≡ false = ready_elsewhere t j s r b e ready idle in
                  let same_batch =
                    ap (lookup j) d.batches
                    ∙ lookup-batches_after_ne p s.batches s.requests user r b d.paid a e found j
                        away in
                  bs (ap (is_idle t) same_batch ∙ idle) ∙ same_batch,
            )
      ]

-- Requests on batches that are not ready are passed over.
pub claim_all_skips :
    (c : Chain) (t : ℕ) (user : String) (s : Claims) (l : List UnbondRequest)
    → All (λ (r : UnbondRequest). is_idle t (lookup r.id s.batches) ≡ true) l
    → claim_all c t user s l ≡ ok s
unfolding claim_all claim
claim_all_skips c t user s [] h = refl
claim_all_skips c t user s (r ∷ l) h = elim (Option-cases (lookup r.id s.batches)) [
  | inl e ↦ rw e (claim_all_skips c t user s l h.1)
  | inr (b, e) ↦
      let waits : is_ready t b ≡ false = ground (arith, h.0, e) in
      rw (e, waits) (claim_all_skips c t user s l h.1)
]
