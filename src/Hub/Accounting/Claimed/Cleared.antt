-- ===== src/Hub/Accounting/Claimed/Cleared.antt =====
-- What the loop of `withdraw_unbonded` in contracts/hub/src/execute.rs does to the requests of the user
-- who withdraws.
use liquid_staking.Base.{
  ℕ, String, true, false, ◌≡◌, refl, ◌∙◌, none, List, [], ◌∷◌, ◌==◌, arith, inl, inr, Bool-cases,
  ok, >>=-elim, eq_iff, ap,
}
use liquid_staking.Types.{UnbondRequest, PendingBatch}
use liquid_staking.Store.{lookup, nat_key, pair_key, lookup-remove, lookup-remove_ne}
use liquid_staking.Chain.{Chain}
use liquid_staking.Hub.Withdraw.{Claims, claim, claim_all}
use liquid_staking.Hub.Accounting.{IsAccounted}
use liquid_staking.Hub.Accounting.Claimed.Listed.{Held, hold, Held-remove, Asked}
use liquid_staking.Hub.Accounting.Claimed.Step.{lookup-batches_after_ne}
use liquid_staking.Hub.Accounting.Claimed.Loop.{
  Paid-IsAccounted, claim_cases, is_idle, ready_elsewhere,
}

-- Requests only disappear.
pub claim_all-none :
    (c : Chain) (t : ℕ) (user : String) (p : PendingBatch) (s s' : Claims) (l : List UnbondRequest)
    (k : ℕ × String)
    → claim_all c t user s l ≡ ok s'
    → Held user s.requests l
    → IsAccounted p s.batches s.requests
    → lookup k s.requests ≡ none
    → lookup k s'.requests ≡ none
unfolding claim_all
claim_all-none c t user p s s' [] k h held a e = let same : s' ≡ s = cc in rw same e
claim_all-none c t user p s s' (r ∷ l) k h (hold found apart held) a e =
    >>=-elim (claim c t user s r (lookup r.id s.batches)) _ h λ s₁ one more.
      elim (claim_cases c t user s s₁ r (lookup r.id s.batches) one) [
        | inl (same, _) ↦ claim_all-none c t user p s s' l k (rw same at more) held a e
        | inr (b, q, _, d) ↦
            let held' : Held user s₁.requests l = rw d.requests (Held-remove r.id apart held) in
            let gone = lookup-remove (r.id, user) k s.requests a.unique_requests in
            let still : lookup k s₁.requests ≡ none = rw d.requests (ground (arith, gone, e)) in
            claim_all-none c t user p s₁ s' l k more held' (Paid-IsAccounted p d a q found) still
      ]

-- A request on a batch that is not ready stays.
pub claim_all_stays :
    (c : Chain) (t : ℕ) (user : String) (p : PendingBatch) (s s' : Claims) (l : List UnbondRequest)
    (k : ℕ)
    → claim_all c t user s l ≡ ok s'
    → Held user s.requests l
    → IsAccounted p s.batches s.requests
    → is_idle t (lookup k s.batches) ≡ true
    → lookup (k, user) s'.requests ≡ lookup (k, user) s.requests
unfolding claim_all
claim_all_stays c t user p s s' [] k h held a idle = let same : s' ≡ s = cc in rw same refl
claim_all_stays c t user p s s' (r ∷ l) k h (hold found apart held) a idle =
    >>=-elim (claim c t user s r (lookup r.id s.batches)) _ h λ s₁ one more.
      elim (claim_cases c t user s s₁ r (lookup r.id s.batches) one) [
        | inl (same, _) ↦ claim_all_stays c t user p s s' l k (rw same at more) held a idle
        | inr (b, q, ready, d) ↦
            let held' : Held user s₁.requests l = rw d.requests (Held-remove r.id apart held) in
            let away : (k == r.id) ≡ false = ready_elsewhere t k s r b q ready idle in
            let same_batch =
              ap (lookup k) d.batches
              ∙ lookup-batches_after_ne p s.batches s.requests user r b d.paid a q found k away in
            let same_request =
              ap (lookup (k, user)) d.requests
              ∙ lookup-remove_ne (r.id, user) (k, user) s.requests (ground (arith, away)) in
            claim_all_stays c t user p s₁ s' l k more held' (Paid-IsAccounted p d a q found)
              (ap (is_idle t) same_batch ∙ idle)
            ∙ same_request
      ]

-- A request on a batch that is ready, which the loop goes through, is gone.
pub claim_all_clears :
    (c : Chain) (t : ℕ) (user : String) (p : PendingBatch) (s s' : Claims) (l : List UnbondRequest)
    (k : ℕ)
    → claim_all c t user s l ≡ ok s'
    → Held user s.requests l
    → IsAccounted p s.batches s.requests
    → is_idle t (lookup k s.batches) ≡ false
    → Asked k l
    → lookup (k, user) s'.requests ≡ none
unfolding claim_all
claim_all_clears c t user p s s' [] k h held a ready i = elim i [ ]
claim_all_clears c t user p s s' (r ∷ l) k h (hold found apart held) a ready i =
    >>=-elim (claim c t user s r (lookup r.id s.batches)) _ h λ s₁ one more.
      elim (claim_cases c t user s s₁ r (lookup r.id s.batches) one) [
        | inl (same, idle) ↦ elim i [
          | inl e ↦ absurd (
              let idle' = ap (λ (j : ℕ). is_idle t (lookup j s.batches)) e ∙ idle in
              ground (arith, idle', ready))
          | inr j ↦ claim_all_clears c t user p s s' l k (rw same at more) held a ready j
        ]
        | inr (b, q, _, d) ↦
            let held' : Held user s₁.requests l = rw d.requests (Held-remove r.id apart held) in
            let a' = Paid-IsAccounted p d a q found in
            elim (Bool-cases (k == r.id)) [
              | inl e ↦
                  let gone = lookup-remove (r.id, user) (k, user) s.requests a.unique_requests in
                  let cleared : lookup (k, user) s₁.requests ≡ none =
                    rw d.requests (ground (arith, gone, e, eq_iff user user)) in
                  claim_all-none c t user p s₁ s' l (k, user) more held' a' cleared
              | inr away ↦
                  let same_batch =
                    ap (lookup k) d.batches
                    ∙ lookup-batches_after_ne p s.batches s.requests user r b d.paid a q found k
                        away in
                  claim_all_clears c t user p s₁ s' l k more held' a'
                    (ap (is_idle t) same_batch ∙ ready)
                    (elim i [ inl e ↦ absurd (ground (arith, e, away)) | inr j ↦ j ])
            ]
      ]
