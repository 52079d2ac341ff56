-- ===== src/Hub/Invariant/Ordered.antt =====
-- The hub keeps its batches in the order of their ids, by the handlers of contracts/hub/src/execute.rs
-- that write them.
use liquid_staking.Base.{
  ℕ, String, true, List, [], ◌∷◌, ok, load, >>=-elim, ◌==◌, ◌-◌, ◌≡◌, refl, sym, ap, inl, inr,
  Bool-cases,
}
use mathlib.Core.Path.{subst}
use liquid_staking.Uint.{add_u128}
use liquid_staking.Types.{Batch, UnbondRequest}
use liquid_staking.Store.{
  lookup, nat_key, pair_key, IsAscending, save-IsAscending, remove-IsAscending,
}
use liquid_staking.Chain.{Env, Chain}
use liquid_staking.State.{State}
use liquid_staking.Hub.Unbond.{queue_unbond, request_or_new}
use liquid_staking.Hub.Reconcile.{save_reconciled}
use liquid_staking.Hub.Withdraw.{Claims, claim, claim_all}
use liquid_staking.Hub.Kept.{Books, Core, Keeps, keep_bind, keep_ok}
use liquid_staking.Hub.Effect.{
  Effect, keeps, queues, submits, reconciles, withdraws, sets_fee, sets_entropy, proves,
}
use liquid_staking.Hub.Accounting.{Batches}
use liquid_staking.Hub.Accounting.Submit.{submit_batch_inv}
use liquid_staking.Hub.Accounting.Reconciled.{reconcile_inv}
use liquid_staking.Hub.Accounting.Claimed.{withdraw_inv}
use liquid_staking.Hub.Accounting.Claimed.Step.{paid_batch}
use liquid_staking.Hub.Accounting.Claimed.Loop.{claim_cases}
use liquid_staking.Hub.Ledger.Handlers.{update_fee-stays, update_entropy-stays, submit_proof-stays}

abbrev pub IsOrdered : State → Type 0
IsOrdered st = IsAscending st.previous_batches

batches_of : State → Batches
batches_of st = st.previous_batches

same-IsOrdered :
    (st st' : State) → st'.previous_batches ≡ st.previous_batches → IsOrdered st → IsOrdered st'
same-IsOrdered st st' e h = subst IsAscending (sym e) h

queue_unbond-stays :
    (env : Env) (receiver : String) (n : ℕ) (st : State)
    → Keeps batches_of st (queue_unbond env receiver n st)
unfolding queue_unbond batches_of
queue_unbond-stays env receiver n st = keep_bind batches_of st (load st.pending_batch) λ pending.
    keep_bind batches_of st (add_u128 pending.usteak_to_burn n) λ burned.
      keep_bind batches_of st
        (add_u128
          (request_or_new pending.id receiver
            (lookup (pending.id, receiver) st.unbond_requests)).shares
          n)
        λ shares. keep_ok batches_of st _ refl

save_reconciled-IsAscending :
    (bs : List Batch) (m : Batches) → IsAscending m → IsAscending (save_reconciled bs m)
unfolding save_reconciled
save_reconciled-IsAscending [] m h = h
save_reconciled-IsAscending (b ∷ bs) m h =
    save_reconciled-IsAscending bs _ (save-IsAscending b.id (record b { reconciled = true }) m h)

claim-IsAscending :
    (c : Chain) (t : ℕ) (user : String) (s s' : Claims) (r : UnbondRequest)
    → claim c t user s r (lookup r.id s.batches) ≡ ok s'
    → IsAscending s.batches
    → IsAscending s'.batches
claim-IsAscending c t user s s' r run h =
    elim (claim_cases c t user s s' r (lookup r.id s.batches) run) [
      | inl (same, _) ↦ subst (λ (x : Claims). IsAscending x.batches) (sym same) h
      | inr (b, _, _, d) ↦
          subst IsAscending (sym d.batches) (elim (Bool-cases (b.total_shares - r.shares == 0)) [
            | inl e ↦ rw e (remove-IsAscending r.id s.batches h)
            | inr e ↦ rw e (save-IsAscending b.id (paid_batch b r.shares d.paid) s.batches h)
          ])
    ]

claim_all-IsAscending :
    (c : Chain) (t : ℕ) (user : String) (s s' : Claims) (l : List UnbondRequest)
    → claim_all c t user s l ≡ ok s'
    → IsAscending s.batches
    → IsAscending s'.batches
unfolding claim_all
claim_all-IsAscending c t user s s' [] run h =
    let same : s ≡ s' = cc in subst (λ (x : Claims). IsAscending x.batches) same h
claim_all-IsAscending c t user s s' (r ∷ l) run h =
    >>=-elim (claim c t user s r (lookup r.id s.batches)) _ run λ s₁ one more.
      claim_all-IsAscending c t user s₁ s' l more (claim-IsAscending c t user s s₁ r one h)

module _ (c : Chain) (env : Env) where
  pub Effect-IsOrdered : (st st' : State) → Effect c env st st' → IsOrdered st → IsOrdered st'
  unfolding batches_of
  Effect-IsOrdered st st' (keeps e) o = same-IsOrdered st st' (ap (λ (k : Core). k.0.1) e) o
  Effect-IsOrdered st st' (queues address amount msgs h) o =
      same-IsOrdered st st' (queue_unbond-stays env address amount st st' msgs h) o
  Effect-IsOrdered st st' (submits msgs h) o =
      let s = submit_batch_inv c env st st' msgs h in
      subst IsAscending (sym s.new_batches) (save-IsAscending _ _ st.previous_batches o)
  Effect-IsOrdered st st' (reconciles msgs h) o =
      let r = reconcile_inv c env st st' msgs h in
      subst IsAscending (sym r.new_batches)
        (save_reconciled-IsAscending r.renewed st.previous_batches o)
  Effect-IsOrdered st st' (withdraws user receiver msgs h) o =
      let w = withdraw_inv c env user receiver st st' msgs h in
      same-IsOrdered
        (record st { previous_batches = w.claims.batches; unbond_requests = w.claims.requests }) st'
        (ap (λ (s : State). s.previous_batches) w.after)
        (claim_all-IsAscending c env.time user _ w.claims _ w.run o)
  Effect-IsOrdered st st' (sets_fee sender fee msgs h) o =
      same-IsOrdered st st' (ap (λ (k : Books). k.1) (update_fee-stays sender fee st st' msgs h)) o
  Effect-IsOrdered st st' (sets_entropy entropy msgs h) o =
      same-IsOrdered st st'
        (ap (λ (k : Books). k.1) (update_entropy-stays c env entropy st st' msgs h)) o
  Effect-IsOrdered st st' (proves sender nonce validator msgs h) o =
      same-IsOrdered st st'
        (ap (λ (k : Books). k.1) (submit_proof-stays c env sender nonce validator st st' msgs h)) o
