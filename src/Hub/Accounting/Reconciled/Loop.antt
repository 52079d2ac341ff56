-- ===== src/Hub/Accounting/Reconciled/Loop.antt =====
-- The loop of `reconcile` in contracts/hub/src/execute.rs keeps the book-keeping of unbonding.
use liquid_staking.Base.{
  ℕ, true, false, ◌+◌, ◌≡◌, refl, sym, ap, some, List, [], ◌∷◌, ◌==◌, ltb, not, ◌&&◌, arith, inl,
  inr, Bool-cases, All,
}
use mathlib.Core.Path.{subst}
use liquid_staking.Types.{Batch, PendingBatch}
use liquid_staking.Store.{
  lookup, save, nat_key, pair_key, Unique, Every, Every-save, Every-differs, Unique-save, sum-save,
  lookup-save,
}
use liquid_staking.Math.Deduct.{Deducted, deduct, done, sum_unclaimed}
use liquid_staking.Hub.Reconcile.{due_batches, save_reconciled}
use liquid_staking.Hub.Accounting.{
  Requests, Batches, IsNumbered, IsAccounted, unclaimed, unclaimed_of,
}

-- `bs'` are the batches of `bs` with other amounts.
pub data Renewed : List Batch → List Batch → Type 0 where
  nothing : Renewed [] []
  renew :
      {b b' : Batch} {bs bs' : List Batch}
      → b'.id ≡ b.id
      → b'.total_shares ≡ b.total_shares
      → b'.est_unbond_end_time ≡ b.est_unbond_end_time
      → Renewed bs bs'
      → Renewed (b ∷ bs) (b' ∷ bs')

pub Renewed-same : (bs : List Batch) → Renewed bs bs
Renewed-same [] = nothing
Renewed-same (b ∷ bs) = renew refl refl refl (Renewed-same bs)

pub Deducted-Renewed :
    {per remainder i : ℕ} {bs bs' : List Batch} → Deducted per remainder i bs bs' → Renewed bs bs'
Deducted-Renewed done = nothing
Deducted-Renewed (deduct _ _ e s t rest) = renew e s t (Deducted-Renewed rest)

-- Distinct batches that stand in the map `m`.
pub data Standing (m : Batches) : List Batch → Type 0 where
  empty : Standing m []
  stand :
      {b : Batch} {bs : List Batch}
      → lookup b.id m ≡ some b
      → All (λ (x : Batch). (b.id == x.id) ≡ false) bs
      → Standing m bs
      → Standing m (b ∷ bs)

-- What holds of every numbered entry holds of the batches that are due.
due_batches-All {ℓ} :
    (P : ℕ → Batch → Type ℓ) (t : ℕ) (m : Batches)
    → Every P m
    → Every IsNumbered m
    → All (λ (b : Batch). P b.id b) (due_batches t m)
unfolding due_batches
due_batches-All P t [] h n = tt
due_batches-All P t ((k, b) ∷ m) h n =
    let rest = due_batches-All P t m h.1 n.1 in
    elim (Bool-cases (not b.reconciled && ltb b.est_unbond_end_time t)) [
      | inl e ↦ rw e (subst (λ (j : ℕ). P j b) (sym n.0) h.0, rest)
      | inr e ↦ rw e rest
    ]

pub due_batches-Standing :
    (t : ℕ) (all m : Batches)
    → Every (λ k b. lookup k all ≡ some b) m
    → Every IsNumbered m
    → Unique m
    → Standing all (due_batches t m)
unfolding due_batches
due_batches-Standing t all [] f n u = empty
due_batches-Standing t all ((k, b) ∷ m) f n u =
    let rest = due_batches-Standing t all m f.1 n.1 u.1 in
    let apart = due_batches-All (λ j x. (k == j) ≡ false) t m (Every-differs k m u.0) n.1 in
    elim (Bool-cases (not b.reconciled && ltb b.est_unbond_end_time t)) [
      | inl e ↦ rw e (
          stand (subst (λ (j : ℕ). lookup j all ≡ some b) (sym n.0) f.0)
            (subst (λ (j : ℕ). All (λ (x : Batch). (j == x.id) ≡ false) (due_batches t m)) (sym n.0)
              apart)
            rest)
      | inr e ↦ rw e rest
    ]

-- Saving a batch under its own number, away from those that stand, leaves them standing.
Standing-save :
    {m : Batches} {bs : List Batch} (k : ℕ) (b : Batch)
    → All (λ (x : Batch). (k == x.id) ≡ false) bs
    → Standing m bs
    → Standing (save k b m) bs
Standing-save k b apart empty = empty
Standing-save {m} k b apart (stand {b = x} e d rest) =
    stand (ground (arith, apart.0, e, lookup-save k x.id b m)) d (Standing-save k b apart.1 rest)

-- Saving a renewed batch keeps the book-keeping.
save-IsAccounted :
    (p : PendingBatch) (m : Batches) (rs : Requests) (b b' : Batch)
    → lookup b.id m ≡ some b
    → b'.id ≡ b.id
    → b'.total_shares ≡ b.total_shares
    → IsAccounted p m rs
    → IsAccounted p (save b.id b' m) rs
save-IsAccounted p m rs b b' found e s h = record {
  shares = λ k. ground (arith, found, s, h.shares k, lookup-save b.id k b' m);
  fresh = λ k le. ground (arith, found, h.fresh k, lookup-save b.id k b' m);
  numbered = Every-save IsNumbered b.id b' m e h.numbered;
  keyed = h.keyed;
  unique_batches = Unique-save b.id b' m h.unique_batches;
  unique_requests = h.unique_requests;
}

pub save_reconciled-IsAccounted :
    {p : PendingBatch} {rs : Requests} (m : Batches) {bs bs' : List Batch}
    → Standing m bs
    → Renewed bs bs'
    → IsAccounted p m rs
    → IsAccounted p (save_reconciled bs' m) rs
unfolding save_reconciled
save_reconciled-IsAccounted m s nothing h = h
save_reconciled-IsAccounted {p} {rs} m (stand f d s) (renew {b} {b'} {bs' = bs'} e sh _ r) h =
    let c : Batch = record b' { reconciled = true } in
    let kept = save-IsAccounted p m rs b c f e sh h in
    let next = save_reconciled-IsAccounted (save b.id c m) (Standing-save b.id c d s) r kept in
    subst (λ (j : ℕ). IsAccounted p (save_reconciled bs' (save j c m)) rs) (sym e) next

-- The sum of what is unclaimed changes by what it changes in the list.
pub sum-save_reconciled :
    (m : Batches) {bs bs' : List Batch}
    → Standing m bs
    → Renewed bs bs'
    → unclaimed (save_reconciled bs' m) + sum_unclaimed bs ≡ unclaimed m + sum_unclaimed bs'
unfolding save_reconciled
sum-save_reconciled m s nothing = refl
sum-save_reconciled m (stand f d s) (renew {b} {b'} {bs' = bs'} e sh _ r) =
    let c : Batch = record b' { reconciled = true } in
    let next = sum-save_reconciled (save b.id c m) (Standing-save b.id c d s) r in
    let one = sum-save unclaimed_of b.id c m in
    let same = ap (λ (j : ℕ). unclaimed (save_reconciled bs' (save j c m))) e in
    ground (arith, next, one, f, same)
