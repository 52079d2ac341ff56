-- ===== src/Hub/Accounting/Claimed/Listed.antt =====
-- The requests that `withdraw_unbonded` of contracts/hub/src/execute.rs goes through.
use liquid_staking.Base.{
  ℕ, String, true, false, ◌≡◌, some, List, [], ◌∷◌, ◌==◌, arith, inl, inr, Bool-cases, All, str_eq,
  eq_iff, ◌⊎◌,
}
use mathlib.Core.Path.{subst, ap}
use liquid_staking.Types.{UnbondRequest}
use liquid_staking.Store.{
  lookup, remove, nat_key, pair_key, Every, Every-differs, Every-weaken, Unique, lookup-remove_ne,
  same_pair, same_pair_iff,
}
use liquid_staking.Hub.Withdraw.{requests_of}
use liquid_staking.Hub.Accounting.{Requests, IsKeyed}

-- Requests of `user` on distinct batches that stand in the map `rs`.
pub data Held (user : String) (rs : Requests) : List UnbondRequest → Type 0 where
  empty : Held user rs []
  hold :
      {r : UnbondRequest} {l : List UnbondRequest}
      → lookup (r.id, user) rs ≡ some r
      → All (λ (x : UnbondRequest). (r.id == x.id) ≡ false) l
      → Held user rs l
      → Held user rs (r ∷ l)

-- What holds of every entry of `user` holds of the requests that are listed.
pub requests_of-All :
    (P : ℕ → UnbondRequest → Type 0) (user : String) (m : Requests)
    → Every (λ k r. k.1 ≡ user → P k.0 r) m
    → Every IsKeyed m
    → All (λ (r : UnbondRequest). P r.id r) (requests_of user m)
unfolding requests_of
requests_of-All P user [] h n = tt
requests_of-All P user ((k, r) ∷ m) h n =
    let rest = requests_of-All P user m h.1 n.1 in
    elim (Bool-cases (str_eq r.user user)) [
      | inl e ↦
          let is_user : r.user ≡ user = (eq_iff r.user user).0 e in
          let of_user : k.1 ≡ user = ground (arith, n.0, is_user) in
          let same : k.0 ≡ r.id = ground (arith, n.0) in
          rw e (subst (λ (j : ℕ). P j r) same (h.0 of_user), rest)
      | inr e ↦ rw e rest
    ]

ids_differ :
    (k j : ℕ × String) (id : ℕ) (user : String)
    → k ≡ (id, user)
    → j.1 ≡ user
    → same_pair k j ≡ false
    → (id == j.0) ≡ false
ids_differ k j id user e q d =
    ground (arith, eq_iff k.1 j.1, ap (λ (x : ℕ × String). x.0) e, ap (λ (x : ℕ × String). x.1) e)

pub requests_of-Held :
    (user : String) (all m : Requests)
    → Every (λ k r. lookup k all ≡ some r) m
    → Every IsKeyed m
    → Unique m
    → Held user all (requests_of user m)
unfolding requests_of
requests_of-Held user all [] f n u = empty
requests_of-Held user all ((k, r) ∷ m) f n u =
    let rest = requests_of-Held user all m f.1 n.1 u.1 in
    elim (Bool-cases (str_eq r.user user)) [
      | inl e ↦
          let is_user : r.user ≡ user = (eq_iff r.user user).0 e in
          let same : k ≡ (r.id, user) = ground (arith, n.0, is_user) in
          let apart =
            requests_of-All (λ j x. (r.id == j) ≡ false) user m
              (Every-weaken (λ j w. same_pair k j ≡ false)
                (λ j w. j.1 ≡ user → (r.id == j.0) ≡ false) m
                (λ j w d q. ids_differ k j r.id user same q d) (Every-differs k m u.0))
              n.1 in
          rw e (hold (subst (λ (j : ℕ × String). lookup j all ≡ some r) same f.0) apart rest)
      | inr e ↦ rw e rest
    ]

pub Held-remove :
    {user : String} {rs : Requests} {l : List UnbondRequest} (id : ℕ)
    → All (λ (x : UnbondRequest). (id == x.id) ≡ false) l
    → Held user rs l
    → Held user (remove (id, user) rs) l
Held-remove id apart empty = empty
Held-remove {user} {rs} id apart (hold {r = r} e d rest) =
    hold (ground (arith, e, apart.0, lookup-remove_ne (id, user) (r.id, user) rs)) d
      (Held-remove id apart.1 rest)

-- A request that is found is listed.
abbrev pub Asked : ℕ → List UnbondRequest → Type 0
Asked id [] = ⊥
Asked id (r ∷ l) = (id ≡ r.id) ⊎ Asked id l

pub requests_of-Asked :
    (user : String) (m : Requests) (id : ℕ) (x : UnbondRequest)
    → Every IsKeyed m
    → lookup (id, user) m ≡ some x
    → Asked id (requests_of user m)
unfolding requests_of
requests_of-Asked user [] id x n e = absurd (ground arith)
requests_of-Asked user ((k, r) ∷ m) id x n e = elim (Bool-cases (same_pair (id, user) k)) [
  | inl q ↦
      let same : (id, user) ≡ k = (same_pair_iff (id, user) k).0 q in
      let mine : str_eq r.user user ≡ true = ground (arith, n.0, same, eq_iff r.user user) in
      rw mine (inl (ground (arith, n.0, same)))
  | inr q ↦
      let rest = requests_of-Asked user m id x n.1 (ground (arith, e, q)) in
      elim (Bool-cases (str_eq r.user user)) [ inl i ↦ rw i (inr rest) | inr i ↦ rw i rest ]
]
