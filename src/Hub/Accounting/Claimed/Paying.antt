-- ===== src/Hub/Accounting/Claimed/Paying.antt =====
-- The loop of `withdraw_unbonded` in contracts/hub/src/execute.rs pays what can be paid.
use liquid_staking.Base.{
  ℕ, String, true, false, ◌*◌, ◌<◌, ◌≤◌, ◌≡◌, sym, ◌∙◌, ◌⊎◌, some, List, [], ◌∷◌, ◌==◌, arith, inl,
  inr, Bool-cases, ok, >>=-elim, All, str_eq, eq_iff,
}
use mathlib.Core.Path.{ap}
use liquid_staking.Types.{UnbondRequest, Batch, PendingBatch}
use liquid_staking.Uint.{floor_bounds}
use liquid_staking.Store.{lookup, nat_key, pair_key, Every, same_pair, same_pair_iff}
use liquid_staking.Chain.{Chain}
use liquid_staking.Hub.Withdraw.{Claims, claim, claim_all, is_ready, requests_of}
use liquid_staking.Hub.Accounting.{Requests, IsAccounted, IsKeyed}
use liquid_staking.Hub.Accounting.Claimed.Listed.{Held, hold, Held-remove}
use liquid_staking.Hub.Accounting.Claimed.Step.{Paid, lookup-batches_after_ne}
use liquid_staking.Hub.Accounting.Claimed.Loop.{Paid-IsAccounted, claim_cases, is_idle}

-- A request that is worth one unit at least, on a batch that is ready.
pub record Worth (t : ℕ) (s : Claims) (r : UnbondRequest) : Type 0 where
  pub batch : Batch
  pub found : lookup r.id s.batches ≡ some batch
  pub ready : is_ready t batch ≡ true
  pub worth : batch.total_shares ≤ batch.amount_unclaimed * r.shares

abbrev pub IsListed : UnbondRequest → List UnbondRequest → Type 0
IsListed r [] = ⊥
IsListed r (x ∷ l) = (r ≡ x) ⊎ IsListed r l

listed_apart :
    (r x : UnbondRequest) (l : List UnbondRequest)
    → IsListed r l
    → All (λ (y : UnbondRequest). (x.id == y.id) ≡ false) l
    → (r.id == x.id) ≡ false
listed_apart r x [] i _ = elim i [ ]
listed_apart r x (y ∷ l) (inl e) (d, _) =
    let same : r.id ≡ y.id = ap (λ (z : UnbondRequest). z.id) e in ground (arith, same, d)
listed_apart r x (y ∷ l) (inr i) (_, ds) = listed_apart r x l i ds

pub claim_all-refund :
    (c : Chain) (t : ℕ) (user : String) (p : PendingBatch) (s s' : Claims) (l : List UnbondRequest)
    → claim_all c t user s l ≡ ok s'
    → Held user s.requests l
    → IsAccounted p s.batches s.requests
    → s.refund ≤ s'.refund
unfolding claim_all
claim_all-refund c t user p s s' [] h k a = let e : s' ≡ s = cc in rw e (omega arith)
claim_all-refund c t user p s s' (r ∷ l) h (hold found apart k) a =
    >>=-elim (claim c t user s r (lookup r.id s.batches)) _ h λ s₁ one more.
      elim (claim_cases c t user s s₁ r (lookup r.id s.batches) one) [
        | inl (same, _) ↦ claim_all-refund c t user p s s' l (rw same at more) k a
        | inr (b, e, _, d) ↦
            let k' : Held user s₁.requests l = rw d.requests (Held-remove r.id apart k) in
            let more_paid =
              claim_all-refund c t user p s₁ s' l more k' (Paid-IsAccounted p d a e found) in
            omega (arith, more_paid, d.refund)
      ]

Paid-positive :
    {user : String} {s s' : Claims} {r : UnbondRequest} {b : Batch}
    → Paid user s s' r b
    → b.total_shares ≤ b.amount_unclaimed * r.shares
    → s.refund < s'.refund
Paid-positive {user} {s} {s'} {r} {b} d worth =
    let (_, high) =
      floor_bounds (b.amount_unclaimed * r.shares) b.total_shares d.paid d.some_shares d.is_paid in
    let one : 0 < d.paid = elim (Bool-cases (d.paid == 0)) [
      | inl e ↦
          let none_paid : d.paid ≡ 0 = ground (arith, e) in
          let below : b.amount_unclaimed * r.shares < 1 * b.total_shares = rw none_paid at high in
          absurd (omega (arith, below, worth))
      | inr e ↦ ground (arith, e)
    ] in
    omega (arith, one, d.refund)

-- A request worth one unit at least is paid by the loop.
pub claim_all-pays :
    (c : Chain) (t : ℕ) (user : String) (p : PendingBatch) (s s' : Claims) (l : List UnbondRequest)
    (r : UnbondRequest)
    → claim_all c t user s l ≡ ok s'
    → Held user s.requests l
    → IsAccounted p s.batches s.requests
    → IsListed r l
    → Worth t s r
    → s.refund < s'.refund
unfolding claim_all
claim_all-pays c t user p s s' [] r h k a i w = elim i [ ]
claim_all-pays c t user p s s' (x ∷ l) r h (hold found apart k) a i w =
    >>=-elim (claim c t user s x (lookup x.id s.batches)) _ h λ s₁ one more.
      elim (claim_cases c t user s s₁ x (lookup x.id s.batches) one) [
        | inl (same, idle) ↦ elim i [
          | inl e ↦
              let there : lookup x.id s.batches ≡ some w.batch =
                ap (λ (y : UnbondRequest). lookup y.id s.batches) (sym e) ∙ w.found in
              let waits = sym (ap (is_idle t) there) ∙ idle in
              absurd (ground (arith, waits, w.ready))
          | inr j ↦ claim_all-pays c t user p s s' l r (rw same at more) k a j w
        ]
        | inr (b, e, _, d) ↦
            let k' : Held user s₁.requests l = rw d.requests (Held-remove x.id apart k) in
            let a' = Paid-IsAccounted p d a e found in
            elim i [
              | inl q ↦
                  let there : lookup x.id s.batches ≡ some w.batch =
                    ap (λ (y : UnbondRequest). lookup y.id s.batches) (sym q) ∙ w.found in
                  let same : b ≡ w.batch = cc in
                  let worth : b.total_shares ≤ b.amount_unclaimed * x.shares =
                    rw (same, sym q) w.worth in
                  let paid = Paid-positive d worth in
                  omega (arith, paid, claim_all-refund c t user p s₁ s' l more k' a')
              | inr j ↦
                  let away = listed_apart r x l j apart in
                  let kept =
                    ap (lookup r.id) d.batches
                    ∙ lookup-batches_after_ne p s.batches s.requests user x b d.paid a e found r.id
                        away in
                  let w' : Worth t s₁ r = record {
                    batch = w.batch;
                    found = kept ∙ w.found;
                    ready = w.ready;
                    worth = w.worth;
                  } in
                  omega (arith, d.refund, claim_all-pays c t user p s₁ s' l r more k' a' j w')
            ]
      ]

-- A request that is stored under the user is one of those the loop goes through.
pub requests_of-IsListed :
    (user : String) (m : Requests) (id : ℕ) (r : UnbondRequest)
    → Every IsKeyed m
    → lookup (id, user) m ≡ some r
    → IsListed r (requests_of user m)
unfolding requests_of
requests_of-IsListed user [] id r n e = absurd (ground arith)
requests_of-IsListed user ((k, x) ∷ m) id r n e = elim (Bool-cases (same_pair (id, user) k)) [
  | inl q ↦
      let same : (id, user) ≡ k = (same_pair_iff (id, user) k).0 q in
      let mine : str_eq x.user user ≡ true = ground (arith, n.0, same, eq_iff x.user user) in
      rw mine (inl (ground (arith, e, q)))
  | inr q ↦
      let rest = requests_of-IsListed user m id r n.1 (ground (arith, e, q)) in
      elim (Bool-cases (str_eq x.user user)) [ inl i ↦ rw i (inr rest) | inr i ↦ rw i rest ]
]
