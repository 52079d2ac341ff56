-- ===== src/Hub/Accounting/Reconciled.antt =====
-- `reconcile` of contracts/hub/src/execute.rs: it keeps the book-keeping of unbonding, takes exactly
-- the missing amount off what is unclaimed, and leaves no batch due.
mod Loop
mod Settled
use liquid_staking.Base.{
  ℕ, String, Bool, true, false, ◌+◌, ◌-◌, ◌≡◌, ◌≤◌, ◌<◌, refl, sym, ap, ◌∙◌, Option, some, none,
  List, [], ◌∷◌, ◌++◌, map, Result, ok, err, load, ◌>>=◌, ◌>>◌, >>=-elim, load-eq-ok, if◌then◌else◌,
  ◌==◌, ltb, leb, not, ◌&&◌, str_eq, arith, Option-cases, inl, inr, Bool-cases, eq_iff, All,
}
use liquid_staking.Types.{Batch, UnbondRequest, PendingBatch, Coin}
use liquid_staking.Uint.{sum_u128, add_u128, sub_uint}
use liquid_staking.Chain.{Env, Chain, Response}
use liquid_staking.State.{State}
use liquid_staking.Coins
use liquid_staking.Store.{lookup, save, nat_key, pair_key, sum_over, Every-found}
use liquid_staking.Math.Deduct.{reconcile_batches, reconcile_batches_exact, sum_unclaimed}
use liquid_staking.Hub.Reconcile.{due_batches, save_reconciled, deduct_if_short, reconcile}
use liquid_staking.Hub.Accounting.{Requests, Batches, IsAccounted, IsValid, unclaimed, IsValid-of}
use Loop.{
  Renewed, Renewed-same, Deducted-Renewed, save_reconciled-IsAccounted, sum-save_reconciled,
  due_batches-Standing,
}
pub use Settled.{is_due}
use Settled.{reconciled-settles}

-- What a successful reconciliation has read and written.
pub record Reconciliation (c : Chain) (env : Env) (st st' : State) : Type 0 where
  pub denom : String
  pub coins : List Coin
  pub actual : ℕ
  pub renewed : List Batch
  pub is_denom : st.denom ≡ some denom
  pub are_coins : st.unlocked_coins ≡ some coins
  pub is_actual : c.query_balance env.contract denom ≡ ok actual
  pub are_renewed :
      let due = due_batches env.time st.previous_batches in
      deduct_if_short due (sum_unclaimed due + (Coins.find coins denom).amount) actual ≡ ok renewed
  pub new_batches : st'.previous_batches ≡ save_reconciled renewed st.previous_batches
  pub same_requests : st'.unbond_requests ≡ st.unbond_requests
  pub same_pending : st'.pending_batch ≡ st.pending_batch

pub reconcile_inv :
    (c : Chain) (env : Env) (st st' : State) (msgs : Response)
    → reconcile c env st ≡ ok (st', msgs)
    → Reconciliation c env st st'
unfolding reconcile
reconcile_inv c env st st' msgs h =
    let due = due_batches env.time st.previous_batches in
    >>=-elim (sum_u128 (λ (b : Batch). b.amount_unclaimed) due) _ h λ received is_received h₁.
      >>=-elim (load st.denom) _ h₁ λ denom is_denom h₂.
        >>=-elim (load st.unlocked_coins) _ h₂ λ coins are_coins h₃.
          >>=-elim (add_u128 received (Coins.find coins denom).amount) _ h₃
            λ expected is_expected h₄.
              >>=-elim (c.query_balance env.contract denom) _ h₄ λ actual is_actual h₅.
                >>=-elim (deduct_if_short due expected actual) _ h₅ λ renewed are_renewed h₆.
                  let same : expected ≡ sum_unclaimed due + (Coins.find coins denom).amount =
                    ground (arith, is_received, is_expected) in
                  record {
                    denom = denom;
                    coins = coins;
                    actual = actual;
                    renewed = renewed;
                    is_denom = load-eq-ok _ is_denom;
                    are_coins = load-eq-ok _ are_coins;
                    is_actual = is_actual;
                    are_renewed = rw same at are_renewed;
                    new_batches = cc;
                    same_requests = cc;
                    same_pending = cc;
                  }

-- The deduction takes off what is missing, if anything is.
deducted :
    (bs bs' : List Batch) (expected actual : ℕ)
    → deduct_if_short bs expected actual ≡ ok bs'
    → Renewed bs bs' × (sum_unclaimed bs' + (expected - actual) ≡ sum_unclaimed bs)
unfolding deduct_if_short
deducted bs bs' expected actual h = elim (Bool-cases (expected - actual == 0)) [
  | inl e ↦
      let same : bs' ≡ bs = ground (arith, e) in
      let none_missing : expected - actual ≡ 0 = ground (arith, e) in
      rw same (Renewed-same bs, omega (arith, none_missing))
  | inr e ↦
      let run : reconcile_batches bs (expected - actual) ≡ ok bs' = ground (arith, e) in
      let (total, d) = reconcile_batches_exact bs (expected - actual) bs' run in
      (Deducted-Renewed d, total)
]

-- Reconciling keeps the book-keeping.
pub reconcile-IsValid :
    (c : Chain) (env : Env) (st st' : State) (msgs : Response)
    → reconcile c env st ≡ ok (st', msgs)
    → IsValid st
    → IsValid st'
reconcile-IsValid c env st st' msgs h v =
    let r = reconcile_inv c env st st' msgs h in
    let m = st.previous_batches in
    let a = v.accounted in
    let (renewed, _) = deducted _ _ _ _ r.are_renewed in
    IsValid-of v.pending _ _ (r.same_pending ∙ v.is_pending) r.new_batches r.same_requests (
      save_reconciled-IsAccounted m
        (due_batches-Standing env.time m m (Every-found m a.unique_batches) a.numbered
          a.unique_batches)
        renewed a)

-- What a batch calls for at a time: what is unclaimed of it, if it is not reconciled and the time is
-- after its end.
abbrev pub called_for : ℕ → ℕ → Batch → ℕ
called_for t k b = elim b.reconciled [
  | true ↦ 0
  | false ↦ if ltb b.est_unbond_end_time t then b.amount_unclaimed else 0
]

sum-due_batches :
    (t : ℕ) (m : Batches) → sum_unclaimed (due_batches t m) ≡ sum_over (called_for t) m
unfolding due_batches
sum-due_batches t [] = refl
sum-due_batches t ((k, b) ∷ m) = elim (Bool-cases b.reconciled) [
  | inl done ↦ rw (called_for, done) (omega (arith, sum-due_batches t m))
  | inr unpaid ↦ elim (Bool-cases (ltb b.est_unbond_end_time t)) [
    | inl over ↦
        rw (called_for, unpaid, over) (ap (λ (n : ℕ). b.amount_unclaimed + n) (sum-due_batches t m))
    | inr before ↦ rw (called_for, unpaid, before) (omega (arith, sum-due_batches t m))
  ]
]

-- A successful reconciliation of a state whose book-keeping is in order: with `expected` what the
-- first unlocked coin of the hub's denomination and the batches call for that are not reconciled and whose
-- time is over, what is unclaimed falls by what the balance is short of `expected`.
pub reconcile_deducts_shortfall :
    (c : Chain) (env : Env) (st st' : State) (msgs : Response)
    → reconcile c env st ≡ ok (st', msgs)
    → IsValid st
    → (denom : String) × (coins : List Coin) × (actual : ℕ) × (st.denom ≡ some denom)
      × (st.unlocked_coins ≡ some coins)
      × (c.query_balance env.contract denom ≡ ok actual)
      × (let expected =
            sum_over (called_for env.time) st.previous_batches + Coins.first_in denom coins in
          unclaimed st'.previous_batches + (expected - actual) ≡ unclaimed st.previous_batches)
reconcile_deducts_shortfall c env st st' msgs h v =
    let r = reconcile_inv c env st st' msgs h in
    let m = st.previous_batches in
    let a = v.accounted in
    let (renewed, total) = deducted _ _ _ _ r.are_renewed in
    let standing =
      due_batches-Standing env.time m m (Every-found m a.unique_batches) a.numbered
        a.unique_batches in
    let sums = sum-save_reconciled m standing renewed in
    let called = sum-due_batches env.time m in
    let held = Coins.find-first_in r.denom r.coins in
    (
      r.denom,
      r.coins,
      r.actual,
      r.is_denom,
      r.are_coins,
      r.is_actual,
      rw r.new_batches (omega (arith, sums, total, called, held)),
    )

-- After a successful reconciliation of a state whose book-keeping is in order, no batch that is
-- stored is due.
pub reconcile_leaves_none_due :
    (c : Chain) (env : Env) (st st' : State) (msgs : Response) (k : ℕ) (b : Batch)
    → reconcile c env st ≡ ok (st', msgs)
    → IsValid st
    → lookup k st'.previous_batches ≡ some b
    → is_due env.time b ≡ false
reconcile_leaves_none_due c env st st' msgs k b h v found =
    let r = reconcile_inv c env st st' msgs h in
    let m = st.previous_batches in
    let (renewed, _) = deducted _ _ _ _ r.are_renewed in
    let settled : (j : ℕ) (x : Batch)
        → lookup j st'.previous_batches ≡ some x
        → is_due env.time x ≡ false =
      rw r.new_batches (reconciled-settles env.time m r.renewed v.accounted.numbered renewed) in
    settled k b found
