-- ===== src/Hub/Accounting/Submit.antt =====
-- `submit_batch` of contracts/hub/src/execute.rs keeps the book-keeping of unbonding.
use liquid_staking.Base.{
  All, ◌*◌, ◌<◌, ℕ, String, false, ◌+◌, ◌≡◌, ◌≤◌, refl, some, List, [], ◌∷◌, ◌++◌, map, ok, load,
  ap, ◌∙◌, sum_by, >>=-elim, load-eq-ok, require, too_early, ltb, not, arith,
}
use liquid_staking.Types.{Delegation, Undelegation, Batch, PendingBatch}
use liquid_staking.Store.{
  save, nat_key, pair_key, Every-save, Unique-save, lookup-save, lookup, same_self,
}
use liquid_staking.Chain.{Env, Chain, Response, reply_on_success, undelegate, message, burn}
use liquid_staking.Uint.{add_u64}
use liquid_staking.Helpers.{query_delegations, Delegated, query_delegations-Delegated}
use liquid_staking.Math.Exchange.{bonded, compute_unbond_amount, compute_unbond_amount_floor}
use liquid_staking.Math.Undelegate.{
  compute_undelegations, sum_undelegations, compute_undelegations_denom,
}
use liquid_staking.State.{State}
use liquid_staking.Hub.Unbond.{submit_batch, reply_register_received_coins}
use liquid_staking.Hub.Accounting.{
  Requests, Batches, IsNumbered, IsAccounted, IsValid, IsAccounted-at, IsValid-of,
}

-- The pending batch as it is stored once it has been submitted.
abbrev pub submitted : PendingBatch → ℕ → ℕ → Batch
submitted p amount end_time = record {
  id = p.id;
  reconciled = false;
  total_shares = p.usteak_to_burn;
  amount_unclaimed = amount;
  est_unbond_end_time = end_time;
}

-- What a successful submission has read, computed and written.
pub record Submission (c : Chain) (env : Env) (st st' : State) (msgs : Response) : Type 0 where
  pub pending : PendingBatch
  pub next : PendingBatch
  pub denom : String
  pub token : String
  pub validators : List String
  pub delegations : List Delegation
  pub undelegations : List Undelegation
  pub supply : ℕ
  pub amount : ℕ
  pub end_time : ℕ
  pub is_denom : st.denom ≡ some denom
  pub is_token : st.steak_token ≡ some token
  pub is_supply : c.query_total_supply token ≡ ok supply
  pub is_pending : st.pending_batch ≡ some pending
  pub is_due : pending.est_unbond_start_time ≤ env.time
  pub are_validators : st.validators ≡ some validators
  pub are_delegations : query_delegations c validators env.contract denom ≡ ok delegations
  pub is_amount : compute_unbond_amount c.math supply pending.usteak_to_burn delegations ≡ ok amount
  pub are_undelegations : compute_undelegations amount delegations denom ≡ ok undelegations
  pub next_id : next.id ≡ pending.id + 1
  pub next_empty : next.usteak_to_burn ≡ 0
  pub new_pending : st'.pending_batch ≡ some next
  pub new_batches :
      st'.previous_batches ≡ save pending.id (submitted pending amount end_time) st.previous_batches
  pub same_requests : st'.unbond_requests ≡ st.unbond_requests
  pub sent :
      msgs
      ≡ map
          (λ (u : Undelegation). reply_on_success (undelegate u) reply_register_received_coins)
          undelegations
        ++ message (burn token pending.usteak_to_burn) ∷ []

pub submit_batch_inv :
    (c : Chain) (env : Env) (st st' : State) (msgs : Response)
    → submit_batch c env st ≡ ok (st', msgs)
    → Submission c env st st' msgs
unfolding submit_batch
submit_batch_inv c env st st' msgs h = >>=-elim (load st.denom) _ h λ denom e_d h₁.
    >>=-elim (load st.steak_token) _ h₁ λ token e_t h₂.
      >>=-elim (load st.validators) _ h₂ λ validators are_vs h₃.
        >>=-elim (load st.unbond_period) _ h₃ λ period _ h₄.
          >>=-elim (load st.pending_batch) _ h₄ λ p e h₅.
            >>=-elim (require (not (ltb env.time p.est_unbond_start_time)) too_early) _ h₅
              λ _ time h₆.
                >>=-elim (query_delegations c validators env.contract denom) _ h₆ λ ds are_ds h₇.
                  >>=-elim (c.query_total_supply token) _ h₇ λ supply e_s h₈.
                    >>=-elim (compute_unbond_amount c.math supply p.usteak_to_burn ds) _ h₈
                      λ amount is_amount h₉.
                        >>=-elim (compute_undelegations amount ds denom) _ h₉ λ us are_us h₁₀.
                          >>=-elim (add_u64 env.time period) _ h₁₀ λ end_time _ h₁₁.
                            >>=-elim (load st.epoch_period) _ h₁₁ λ epoch _ h₁₂.
                              >>=-elim (add_u64 p.id 1) _ h₁₂ λ id next_id h₁₃.
                                >>=-elim (add_u64 env.time epoch) _ h₁₃ λ start _ h₁₄.
                                  >>=-elim (c.query_balance env.contract denom) _ h₁₄
                                    λ balance _ h₁₅. record {
                                      pending = p;
                                      next = record {
                                        id = id;
                                        usteak_to_burn = 0;
                                        est_unbond_start_time = start;
                                      };
                                      denom = denom;
                                      token = token;
                                      validators = validators;
                                      delegations = ds;
                                      undelegations = us;
                                      supply = supply;
                                      amount = amount;
                                      end_time = end_time;
                                      is_denom = load-eq-ok _ e_d;
                                      is_token = load-eq-ok _ e_t;
                                      is_supply = e_s;
                                      is_pending = load-eq-ok _ e;
                                      is_due = ground arith;
                                      are_validators = load-eq-ok _ are_vs;
                                      are_delegations = are_ds;
                                      is_amount = is_amount;
                                      are_undelegations = are_us;
                                      next_id = ground arith;
                                      next_empty = refl;
                                      new_pending = cc;
                                      new_batches = cc;
                                      same_requests = cc;
                                      sent = cc;
                                    }

submitted-IsAccounted :
    (p next : PendingBatch) (amount end_time : ℕ) (m : Batches) (rs : Requests)
    → next.id ≡ p.id + 1
    → next.usteak_to_burn ≡ 0
    → IsAccounted p m rs
    → IsAccounted next (save p.id (submitted p amount end_time) m) rs
submitted-IsAccounted p next amount end_time m rs e z h = record {
  shares = λ k.
      ground (arith, h.shares k, h.fresh k, lookup-save p.id k (submitted p amount end_time) m);
  fresh = λ k le. ground (arith, h.fresh k, lookup-save p.id k (submitted p amount end_time) m);
  numbered = Every-save IsNumbered p.id (submitted p amount end_time) m refl h.numbered;
  keyed = h.keyed;
  unique_batches = Unique-save p.id (submitted p amount end_time) m h.unique_batches;
  unique_requests = h.unique_requests;
}

-- Submitting the pending batch keeps the book-keeping.
pub submit_batch-IsValid :
    (c : Chain) (env : Env) (st st' : State) (msgs : Response)
    → submit_batch c env st ≡ ok (st', msgs)
    → IsValid st
    → IsValid st'
submit_batch-IsValid c env st st' msgs h v =
    let s = submit_batch_inv c env st st' msgs h in
    IsValid-of s.next _ _ s.new_pending s.new_batches s.same_requests (
      submitted-IsAccounted s.pending s.next s.amount s.end_time _ _ s.next_id s.next_empty
        (IsAccounted-at v s.is_pending))

-- The submission of a batch, by what the chain and the state say.
pub record IsUndelegated (c : Chain) (env : Env) (st st' : State) (msgs : Response) : Type 0 where
  pub pending : PendingBatch
  pub batch : Batch
  pub denom : String
  pub token : String
  pub supply : ℕ
  pub validators : List String
  pub delegations : List Delegation
  pub undelegations : List Undelegation
  pub is_pending : st.pending_batch ≡ some pending
  pub is_due : pending.est_unbond_start_time ≤ env.time
  pub is_denom : st.denom ≡ some denom
  pub is_token : st.steak_token ≡ some token
  pub is_supply : c.query_total_supply token ≡ ok supply
  pub are_validators : st.validators ≡ some validators
  pub are_delegations : Delegated c env.contract denom validators delegations
  pub is_batch : lookup pending.id st'.previous_batches ≡ some batch
  pub all_shares : batch.total_shares ≡ pending.usteak_to_burn
  -- The amount is the share of the burned Steak in what is bonded, rounded down.
  pub at_most : batch.amount_unclaimed * supply ≤ bonded delegations * pending.usteak_to_burn
  pub no_less : bonded delegations * pending.usteak_to_burn < (batch.amount_unclaimed + 1) * supply
  pub sum : sum_by (λ (u : Undelegation). u.amount) undelegations ≡ batch.amount_unclaimed
  pub in_denom : All (λ (u : Undelegation). u.denom ≡ denom) undelegations
  pub sent :
      msgs
      ≡ map
          (λ (u : Undelegation). reply_on_success (undelegate u) reply_register_received_coins)
          undelegations
        ++ message (burn token pending.usteak_to_burn) ∷ []

-- A successful submission comes when the pending batch is due, and burns all of its Steak at the token
-- of the hub. The new batch has all shares of the pending one, and as unclaimed what they are worth by
-- the delegations to the whitelist and the supply of that token, rounded down; undelegations in the
-- hub's denomination add up to exactly that.
pub submit_batch_undelegates :
    (c : Chain) (env : Env) (st st' : State) (msgs : Response)
    → submit_batch c env st ≡ ok (st', msgs)
    → IsUndelegated c env st st' msgs
submit_batch_undelegates c env st st' msgs h =
    let s = submit_batch_inv c env st st' msgs h in
    let p = s.pending in
    let b = submitted p s.amount s.end_time in
    let written : lookup p.id (save p.id b st.previous_batches) ≡ some b =
      lookup-save p.id p.id b st.previous_batches ∙ rw (same_self p.id) refl in
    let (_, low, high) =
      compute_unbond_amount_floor c.math s.supply p.usteak_to_burn s.amount s.delegations
        s.is_amount in
    record {
      pending = p;
      batch = b;
      denom = s.denom;
      token = s.token;
      supply = s.supply;
      validators = s.validators;
      delegations = s.delegations;
      undelegations = s.undelegations;
      is_pending = s.is_pending;
      is_due = s.is_due;
      is_denom = s.is_denom;
      is_token = s.is_token;
      is_supply = s.is_supply;
      are_validators = s.are_validators;
      are_delegations =
          query_delegations-Delegated c s.validators env.contract s.denom s.delegations
            s.are_delegations;
      is_batch = ap (lookup p.id) s.new_batches ∙ written;
      all_shares = refl;
      at_most = low;
      no_less = high;
      sum = sum_undelegations s.amount s.delegations s.denom s.undelegations s.are_undelegations;
      in_denom =
          compute_undelegations_denom s.amount s.delegations s.denom s.undelegations
            s.are_undelegations;
      sent = s.sent;
    }
