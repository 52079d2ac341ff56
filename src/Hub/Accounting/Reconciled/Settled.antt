-- ===== src/Hub/Accounting/Reconciled/Settled.antt =====
-- After the loop of `reconcile` in contracts/hub/src/execute.rs no batch is due.
use liquid_staking.Base.{
  ℕ, Bool, true, false, ◌≡◌, refl, ◌⊎◌, some, List, [], ◌∷◌, ◌==◌, ltb, not, ◌&&◌, arith, inl, inr,
  Bool-cases,
}
use liquid_staking.Types.{Batch}
use liquid_staking.Store.{lookup, save, nat_key, Every, lookup-save}
use liquid_staking.Hub.Reconcile.{due_batches, save_reconciled}
use liquid_staking.Hub.Accounting.{Batches, IsNumbered}
use liquid_staking.Hub.Accounting.Reconciled.Loop.{Renewed, nothing, renew}

-- The test of `due_batches`.
abbrev pub is_due : ℕ → Batch → Bool
is_due t b = not b.reconciled && ltb b.est_unbond_end_time t

abbrev pub HasId : ℕ → List Batch → Type 0
HasId k [] = ⊥
HasId k (b ∷ bs) = (k ≡ b.id) ⊎ HasId k bs

due_batches-HasId :
    (t k : ℕ) (b : Batch) (m : Batches)
    → Every IsNumbered m
    → lookup k m ≡ some b
    → (is_due t b ≡ false) ⊎ HasId k (due_batches t m)
unfolding due_batches
due_batches-HasId t k b [] n e = absurd cc
due_batches-HasId t k b ((j, x) ∷ m) n e = elim (Bool-cases (k == j)) [
  | inl q ↦
      let same : b ≡ x = ground (arith, q) in
      elim (Bool-cases (is_due t x)) [
        | inl d ↦ rw d (inr (inl (ground (arith, q, n.0))))
        | inr d ↦ inl (rw same d)
      ]
  | inr q ↦ elim (due_batches-HasId t k b m n.1 (ground (arith, q))) [
    | inl d ↦ inl d
    | inr d ↦ elim (Bool-cases (is_due t x)) [ inl y ↦ rw y (inr (inr d)) | inr y ↦ rw y (inr d) ]
  ]
]

save_reconciled-settles :
    (t : ℕ) (m : Batches) {bs bs' : List Batch}
    → Renewed bs bs'
    → ((k : ℕ) (b : Batch) → lookup k m ≡ some b → (is_due t b ≡ false) ⊎ HasId k bs)
    → (k : ℕ) (b : Batch) → lookup k (save_reconciled bs' m) ≡ some b
    → is_due t b ≡ false
unfolding save_reconciled
save_reconciled-settles t m nothing h k b e = elim (h k b e) [ inl d ↦ d | inr x ↦ absurd x ]
save_reconciled-settles t m (renew {b = x} {b' = x'} {bs = bs} {bs' = bs'} same _ _ r) h k b e =
    let c : Batch = record x' { reconciled = true } in
    save_reconciled-settles t (save x'.id c m) r
      (λ j y f. elim (Bool-cases (j == x'.id)) [
        | inl q ↦
            let is_c : y ≡ c = ground (arith, q, f, lookup-save x'.id j c m) in rw is_c (inl refl)
        | inr q ↦ elim (h j y (ground (arith, q, f, lookup-save x'.id j c m))) [
          | inl d ↦ inl d
          | inr (inl w) ↦ absurd (ground (arith, q, w, same))
          | inr (inr w) ↦ inr w
        ]
      ])
      k b e

pub reconciled-settles :
    (t : ℕ) (m : Batches) (bs' : List Batch)
    → Every IsNumbered m
    → Renewed (due_batches t m) bs'
    → (k : ℕ) (b : Batch) → lookup k (save_reconciled bs' m) ≡ some b
    → is_due t b ≡ false
reconciled-settles t m bs' n r =
    save_reconciled-settles t m r (λ k b e. due_batches-HasId t k b m n e)
