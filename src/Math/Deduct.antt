-- ===== src/Math/Deduct.antt =====
-- `reconcile_batches` of contracts/hub/src/math.rs: a loss is taken off the batches in even shares.
use liquid_staking.Base.{
  ℕ, ◌+◌, ◌-◌, ◌/◌, ◌%◌, ◌≤◌, ◌<◌, ◌≡◌, refl, List, [], ◌∷◌, inl, inr, sum_by, arith, Bool-cases,
  Result, ok, err, panic, ◌>>=◌, >>=-eq-ok, length, true, leb,
}
use liquid_staking.Uint.{sub_uint, div_uint, rem_uint}
use liquid_staking.Types.{Batch}
use liquid_staking.Math.Share.{even_share, sum_shares, sum_shares-eq}

-- The loop, from the place `i` on.
unfoldable pub deduct_loop : ℕ → ℕ → ℕ → List Batch → Result (List Batch)
deduct_loop per remainder i [] = ok []
deduct_loop per remainder i (b ∷ bs) = do
  amount_unclaimed ← sub_uint b.amount_unclaimed (even_share per remainder i)
  rest ← deduct_loop per remainder (i + 1) bs
  ok (record b { amount_unclaimed = amount_unclaimed; reconciled = true } ∷ rest)

unfoldable pub reconcile_batches : List Batch → ℕ → Result (List Batch)
reconcile_batches batches native_to_deduct = do
  native_per_batch ← div_uint native_to_deduct (length batches)
  remainder ← rem_uint native_to_deduct (length batches)
  deduct_loop native_per_batch remainder 0 batches

abbrev pub sum_unclaimed : List Batch → ℕ
sum_unclaimed = sum_by (λ (b : Batch). b.amount_unclaimed)

-- `bs'` is `bs` after the deduction, from the place `i` on: each batch has lost its share and is
-- reconciled, and is otherwise what it was.
pub data Deducted (per remainder : ℕ) : ℕ → List Batch → List Batch → Type 0 where
  done : {i : ℕ} → Deducted per remainder i [] []
  deduct :
      {i : ℕ} {b b' : Batch} {bs bs' : List Batch}
      → b'.amount_unclaimed + even_share per remainder i ≡ b.amount_unclaimed
      → b'.reconciled ≡ true
      → b'.id ≡ b.id
      → b'.total_shares ≡ b.total_shares
      → b'.est_unbond_end_time ≡ b.est_unbond_end_time
      → Deducted per remainder (i + 1) bs bs'
      → Deducted per remainder i (b ∷ bs) (b' ∷ bs')

deduct_loop-Deducted :
    (per remainder i : ℕ) (bs bs' : List Batch)
    → deduct_loop per remainder i bs ≡ ok bs'
    → Deducted per remainder i bs bs'
unfolding deduct_loop
deduct_loop-Deducted per remainder i [] bs' h = let e : bs' ≡ [] = cc in rw e done
deduct_loop-Deducted per remainder i (b ∷ bs) bs' h =
    let (a, got, h₁) = >>=-eq-ok (sub_uint b.amount_unclaimed (even_share per remainder i)) _ h in
    let (rest, rec, h₂) = >>=-eq-ok (deduct_loop per remainder (i + 1) bs) _ h₁ in
    let e : bs' ≡ record b { amount_unclaimed = a; reconciled = true } ∷ rest = cc in
    rw e (
      deduct (ground arith) refl refl refl refl
        (deduct_loop-Deducted per remainder (i + 1) bs rest rec))

sum-Deducted :
    {per remainder i : ℕ} {bs bs' : List Batch}
    → Deducted per remainder i bs bs'
    → sum_unclaimed bs' + sum_shares per remainder i bs ≡ sum_unclaimed bs
sum-Deducted done = omega arith
sum-Deducted (deduct e _ _ _ _ rest) = omega (arith, e, sum-Deducted rest)

-- A successful reconciliation takes exactly the loss off the batches: `n` of them lose `loss / n`
-- each, the first `loss % n` one more, and all become reconciled and keep all else.
pub reconcile_batches_exact :
    (batches : List Batch) (loss : ℕ) (batches' : List Batch)
    → reconcile_batches batches loss ≡ ok batches'
    → (sum_unclaimed batches' + loss ≡ sum_unclaimed batches)
      × Deducted (loss / length batches) (loss % length batches) 0 batches batches'
unfolding reconcile_batches
reconcile_batches_exact batches loss batches' h =
    let per = loss / length batches in
    let remainder = loss % length batches in
    let pos : 0 < length batches = ground arith in
    let run : deduct_loop per remainder 0 batches ≡ ok batches' = ground arith in
    let d = deduct_loop-Deducted per remainder 0 batches batches' run in
    (omega (arith, sum-Deducted d, sum_shares-eq loss batches pos), d)

-- Every batch from the place `i` on can bear its share.
abbrev pub CanBear : ℕ → ℕ → ℕ → List Batch → Type 0
CanBear per remainder i [] = Unit
CanBear per remainder i (b ∷ bs) =
    (even_share per remainder i ≤ b.amount_unclaimed) × CanBear per remainder (i + 1) bs

deduct_loop-total :
    (per remainder i : ℕ) (bs : List Batch)
    → CanBear per remainder i bs
    → (bs' : List Batch) × (deduct_loop per remainder i bs ≡ ok bs')
unfolding deduct_loop
deduct_loop-total per remainder i [] h = ([], refl)
deduct_loop-total per remainder i (b ∷ bs) (fits, more) =
    let (rest, e) = deduct_loop-total per remainder (i + 1) bs more in
    let share = even_share per remainder i in
    (
      record b { amount_unclaimed = b.amount_unclaimed - share; reconciled = true } ∷ rest,
      ground (arith, e),
    )

-- The reconciliation succeeds if there is a batch and each can bear its share.
pub reconcile_batches_total :
    (batches : List Batch) (loss : ℕ)
    → 0 < length batches
    → CanBear (loss / length batches) (loss % length batches) 0 batches
    → (batches' : List Batch) × (reconcile_batches batches loss ≡ ok batches')
unfolding reconcile_batches
reconcile_batches_total batches loss pos h =
    let (bs', e) = deduct_loop-total (loss / length batches) (loss % length batches) 0 batches h in
    (bs', ground (arith, e))

deduct_loop-panics :
    (per remainder i : ℕ) (bs : List Batch)
    → ¬ CanBear per remainder i bs
    → deduct_loop per remainder i bs ≡ err panic
unfolding deduct_loop
deduct_loop-panics per remainder i [] h = absurd (h tt)
deduct_loop-panics per remainder i (b ∷ bs) h =
    elim (Bool-cases (leb (even_share per remainder i) b.amount_unclaimed)) [
      | inl fits ↦
          let more = deduct_loop-panics per remainder (i + 1) bs (λ c. h (ground arith, c)) in
          rw (fits, more)
      | inr short ↦ rw short
    ]

-- If some batch has less left than its even share, the reconciliation panics, however much the others have.
pub reconcile_batches_panics :
    (batches : List Batch) (loss : ℕ)
    → ¬ CanBear (loss / length batches) (loss % length batches) 0 batches
    → reconcile_batches batches loss ≡ err panic
unfolding reconcile_batches
reconcile_batches_panics [] loss h = absurd (h tt)
reconcile_batches_panics (b ∷ bs) loss h =
    ground
      (arith, deduct_loop-panics (loss / length (b ∷ bs)) (loss % length (b ∷ bs)) 0 (b ∷ bs) h)
