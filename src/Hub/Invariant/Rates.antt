-- ===== src/Hub/Invariant/Rates.antt =====
-- The handlers of the fee and of mining in contracts/hub/src/execute.rs keep the invariants of the hub.
use liquid_staking.Base.{
  ℕ, String, Bool, false, some, ok, >>=-elim, load, load-eq-ok, require, leb, ◌≡◌, ◌≤◌, ◌+◌, ◌-◌,
  refl, sym, ap, ◌∙◌, arith, unwrap_or, fee_above_max, Option-cases, inl, inr,
}
use mathlib.Core.Path.{subst}
use liquid_staking.Store.{
  text_key, nat_key, pair_key, lookup, sum_over, sum-save, measure, Unique, Unique-save,
}
use liquid_staking.Chain.{Env, Chain, Response}
use liquid_staking.State.{State, assert_owner}
use liquid_staking.Hub.Ownership.{update_fee}
use liquid_staking.Hub.Mining.{update_entropy, update_difficulty, submit_proof}
use liquid_staking.Hub.Kept.{books, rates, mined}
use liquid_staking.Hub.Difficulty.{
  next_difficulty_moves, update_difficulty_inv, submit_proof_inv, Adjustment,
}
use liquid_staking.Hub.Accounting.{IsValid-of}
use liquid_staking.Hub.Invariant.Parts.{IsCapped, power_of, IsMined, IsSound, books-IsValid}

pub update_fee-IsSound :
    (sender : String) (fee : ℕ) (st st' : State) (msgs : Response)
    → update_fee sender fee st ≡ ok (st', msgs)
    → IsSound st
    → IsSound st'
unfolding update_fee
update_fee-IsSound sender fee st st' msgs h s = >>=-elim (assert_owner st sender) _ h λ _ _ h₁.
    >>=-elim (load st.max_fee_rate) _ h₁ λ most e h₂.
      >>=-elim (require (leb fee most) fee_above_max) _ h₂ λ _ e₁ h₃.
        let after : record st { fee_rate = some fee } ≡ st' = cc in
        let (_, m, _, is_most, _, capped) = s.capped in
        let is_max : st.max_fee_rate ≡ some most = load-eq-ok _ e in
        let same : m ≡ most = cc in
        subst IsSound after (record {
          valid = IsValid-of s.valid.pending _ _ s.valid.is_pending refl refl s.valid.accounted;
          capped = (fee, most, refl, is_max, ground arith, ground (arith, capped, same));
          mining = s.mining;
        })

-- The new difficulty is positive.
adjusted_positive :
    {t : ℕ} {proof : Bool} {st st' : State}
    → Adjustment t proof st st'
    → IsMined (mined st)
    → (d : ℕ) × (st'.miner_difficulty ≡ some d) × (1 ≤ d)
adjusted_positive {t} {proof} {st} {st'} a (d, _, e, _, p, _, _) =
    let same : d ≡ a.difficulty = ground (arith, e, a.is_difficulty) in
    let (positive, _) =
      next_difficulty_moves _ a.difficulty a.next proof a.is_next (ground (arith, p, same)) in
    (a.next, ap (λ (s : State). s.miner_difficulty) a.after, positive)

pub update_entropy-IsSound :
    (c : Chain) (env : Env) (entropy : String) (st st' : State) (msgs : Response)
    → update_entropy c env entropy st ≡ ok (st', msgs)
    → IsSound st
    → IsSound st'
unfolding update_entropy
update_entropy-IsSound c env entropy st st' msgs h s =
    >>=-elim (load st.miner_entropy_draft) _ h λ draft _ h₁.
      let st₁ = record st { miner_entropy_draft = some (c.sha256_pair draft entropy) } in
      >>=-elim (update_difficulty env.time false st₁) _ h₁ λ st₂ e h₂.
        let a = update_difficulty_inv env.time false st₁ st₂ e in
        let after : st₂ ≡ st' = cc in
        let (_, total, _, is_total, _, unique, sums) = s.mining in
        let (d, is_d, positive) = adjusted_positive a s.mining in
        subst IsSound after (record {
          valid = books-IsValid st st₂ (ap books a.after) s.valid;
          capped = subst IsCapped (sym (ap rates a.after)) s.capped;
          mining = (
            d,
            total,
            is_d,
            ap (λ (s : State). s.total_mining_power) a.after ∙ is_total,
            positive,
            subst (λ (s : State). Unique s.validator_mining_powers) (sym a.after) unique,
            ap (λ (s : State). sum_over power_of s.validator_mining_powers) a.after ∙ sums,
          );
        })

pub submit_proof-IsSound :
    (c : Chain) (env : Env) (sender : String) (nonce : ℕ) (address : String) (st st' : State)
    (msgs : Response)
    → submit_proof c env sender nonce address st ≡ ok (st', msgs)
    → IsSound st
    → IsSound st'
submit_proof-IsSound c env sender nonce address st st' msgs h s =
    let p = submit_proof_inv c env sender nonce address st st' msgs h in
    let a = p.adjustment in
    let (_, total, _, is_total, _, unique, sums) = s.mining in
    let (d, is_d, positive) = adjusted_positive a s.mining in
    let blocks = env.height - p.last_block in
    let old = lookup p.validator st.validator_mining_powers in
    let power = unwrap_or old 0 + blocks in
    let same : total ≡ p.total = ground (arith, is_total, p.is_total) in
    let written = sum-save power_of p.validator power st.validator_mining_powers in
    let was : measure power_of p.validator old ≡ unwrap_or old 0 = elim (Option-cases old) [
      | inl e ↦ rw e refl
      | inr (q, e) ↦ rw e refl
    ] in
    let after_books : books st' ≡ books st = ap books p.after ∙ ap books a.after in
    let after_rates : rates st' ≡ rates st = ap rates p.after ∙ ap rates a.after in
    record {
      valid = books-IsValid st st' after_books s.valid;
      capped = subst IsCapped (sym after_rates) s.capped;
      mining = (
        d,
        p.total + blocks,
        ap (λ (s : State). s.miner_difficulty) p.after ∙ is_d,
        ap (λ (s : State). s.total_mining_power) p.after,
        positive,
        subst (λ (s : State). Unique s.validator_mining_powers) (sym p.after)
            (Unique-save p.validator power st.validator_mining_powers unique),
        ap (λ (s : State). sum_over power_of s.validator_mining_powers) p.after
            ∙ omega (arith, written, was, sums, same),
      );
    }
