-- ===== src/Hub/Accounting/Claimed.antt =====
-- `withdraw_unbonded` of contracts/hub/src/execute.rs: it keeps the book-keeping of unbonding, pays what
-- the batches lose, pays each request once, and touches nothing else.
mod Listed
pub mod Step
pub mod Loop
mod Live
pub mod Paying
mod Cleared
mod Portions
pub mod Fair
use liquid_staking.Base.{
  ℕ, String, Bool, true, false, ◌+◌, ◌-◌, ◌<◌, ◌≤◌, ◌≡◌, refl, sym, ◌∙◌, ◌⊎◌, Option, some, none,
  List, [], ◌∷◌, ◌==◌, arith, inl, inr, Bool-cases, Option-cases, if◌then◌else◌, str_eq, eq_iff,
  ◌&&◌, not, Result, ok, err, ◌>>=◌, >>=-elim, All, load, load-eq-ok, nothing_to_withdraw,
}
use mathlib.Core.Path.{subst, ap}
use liquid_staking.Types.{UnbondRequest, Batch, PendingBatch}
use liquid_staking.Store.{lookup, nat_key, pair_key, Every-found, Every, Every-weaken}
use liquid_staking.Uint.{u128_limit}
use liquid_staking.Chain.{Chain, Env, Response, message, bank_send}
use liquid_staking.State.{State}
use liquid_staking.Hub.Withdraw.{Claims, claim, claim_all, is_ready, requests_of, withdraw_unbonded}
use liquid_staking.Hub.Accounting.{Requests, Batches, IsAccounted, IsValid, IsValid-of, unclaimed}
use Listed.{Held, Asked, requests_of-Held, requests_of-All, requests_of-Asked}
use Live.{HasShares, claim_all-total}
use Paying.{Worth, claim_all-pays, requests_of-IsListed}
use Cleared.{claim_all-none, claim_all_stays, claim_all_clears}
use Loop.{is_idle, claim_all_skips, claim_all-IsAccounted, claim_all_idle, claim_all_others}

-- Where the loop begins.
abbrev pub start : State → Claims
start st = record { batches = st.previous_batches; requests = st.unbond_requests; refund = 0 }

-- What a successful withdrawal has done.
pub record Withdrawal (c : Chain) (env : Env) (user receiver : String) (st st' : State)
    (msgs : Response) : Type 0 where
  pub denom : String
  pub claims : Claims
  pub run : claim_all c env.time user (start st) (requests_of user st.unbond_requests) ≡ ok claims
  pub is_denom : st.denom ≡ some denom
  pub positive : 0 < claims.refund
  pub after :
      st' ≡ record st { previous_batches = claims.batches; unbond_requests = claims.requests }
  pub sent :
      msgs ≡ message (bank_send receiver (record { denom = denom; amount = claims.refund })) ∷ []

pub withdraw_inv :
    (c : Chain) (env : Env) (user receiver : String) (st st' : State) (msgs : Response)
    → withdraw_unbonded c env user receiver st ≡ ok (st', msgs)
    → Withdrawal c env user receiver st st' msgs
unfolding withdraw_unbonded
withdraw_inv c env user receiver st st' msgs h = >>=-elim (load st.denom) _ h λ denom is_denom h₁.
    >>=-elim (claim_all c env.time user (start st) (requests_of user st.unbond_requests)) _ h₁
      λ claims run h₂. elim (Bool-cases (claims.refund == 0)) [
        | inl e ↦ absurd (ground (arith, e))
        | inr e ↦ record {
          denom = denom;
          claims = claims;
          run = run;
          is_denom = load-eq-ok _ is_denom;
          positive = ground (arith, e);
          after = ground (arith, e);
          sent = ground (arith, e);
        }
      ]

-- The requests that are gone through stand in the map.
listed :
    {st : State} (v : IsValid st) (user : String)
    → Held user st.unbond_requests (requests_of user st.unbond_requests)
listed {st} v user =
    let a = v.accounted in
    let rs = st.unbond_requests in
    requests_of-Held user rs rs (Every-found rs a.unique_requests) a.keyed a.unique_requests

-- A withdrawal keeps the book-keeping.
pub withdraw_unbonded-IsValid :
    (c : Chain) (env : Env) (user receiver : String) (st st' : State) (msgs : Response)
    → withdraw_unbonded c env user receiver st ≡ ok (st', msgs)
    → IsValid st
    → IsValid st'
withdraw_unbonded-IsValid c env user receiver st st' msgs h v =
    let w = withdraw_inv c env user receiver st st' msgs h in
    let (a, _) =
      claim_all-IsAccounted c env.time user v.pending (start st) w.claims _ w.run (listed v user)
        v.accounted in
    subst IsValid (sym w.after)
      (record { pending = v.pending; is_pending = v.is_pending; accounted = a })

-- From a state whose book-keeping is in order, a successful withdrawal sends one payment to the
-- receiver, of a positive amount, and that amount is what the batches lose.
pub withdraw_unbonded_pays :
    (c : Chain) (env : Env) (user receiver : String) (st st' : State) (msgs : Response)
    → withdraw_unbonded c env user receiver st ≡ ok (st', msgs)
    → IsValid st
    → (denom : String) × (amount : ℕ) × (st.denom ≡ some denom)
      × (msgs ≡ message (bank_send receiver (record { denom = denom; amount = amount })) ∷ [])
      × (0 < amount)
      × (unclaimed st'.previous_batches + amount ≡ unclaimed st.previous_batches)
withdraw_unbonded_pays c env user receiver st st' msgs h v =
    let w = withdraw_inv c env user receiver st st' msgs h in
    let (_, money) =
      claim_all-IsAccounted c env.time user v.pending (start st) w.claims _ w.run (listed v user)
        v.accounted in
    let after : st'.previous_batches ≡ w.claims.batches =
      ap (λ (s : State). s.previous_batches) w.after in
    (w.denom, w.claims.refund, w.is_denom, w.sent, w.positive, ground (arith, money, after))

-- After a successful withdrawal from a state whose book-keeping is in order, a second one by the
-- same user in the same block finds nothing.
pub withdraw_unbonded_once :
    (c : Chain) (env : Env) (user receiver : String) (st st' : State) (msgs : Response)
    → withdraw_unbonded c env user receiver st ≡ ok (st', msgs)
    → IsValid st
    → withdraw_unbonded c env user receiver st' ≡ err nothing_to_withdraw
unfolding withdraw_unbonded
withdraw_unbonded_once c env user receiver st st' msgs h v =
    let w = withdraw_inv c env user receiver st st' msgs h in
    let rs = st.unbond_requests in
    let k = listed v user in
    let idle =
      claim_all_idle c env.time user v.pending (start st) w.claims _ w.run k v.accounted
        (λ id x e. inr (requests_of-Asked user rs id x v.accounted.keyed e)) in
    let (a, _) =
      claim_all-IsAccounted c env.time user v.pending (start st) w.claims _ w.run k v.accounted in
    let after = w.claims.requests in
    let batches = w.claims.batches in
    let waits : (k : ℕ × String) (r : UnbondRequest)
        → lookup k after ≡ some r
        → k.1 ≡ user
        → is_idle env.time (lookup k.0 batches) ≡ true =
      λ k r e same.
        let here : k ≡ (k.0, user) = ap (λ (u : String). (k.0, u)) same in
        elim (idle k.0 r (subst (λ (j : ℕ × String). lookup j after ≡ some r) here e)) [
          | inl i ↦ i
          | inr i ↦ absurd i
        ] in
    let none_ready =
      requests_of-All (λ id r. is_idle env.time (lookup id batches) ≡ true) user after
        (Every-weaken (λ k r. lookup k after ≡ some r)
          (λ k r. k.1 ≡ user → is_idle env.time (lookup k.0 batches) ≡ true) after waits
          (Every-found after a.unique_requests))
        a.keyed in
    let written = record st { previous_batches = batches; unbond_requests = after } in
    let skips =
      claim_all_skips c env.time user (start written) (requests_of user after) none_ready in
    subst (λ (s : State). withdraw_unbonded c env user receiver s ≡ err nothing_to_withdraw)
      (sym w.after) (rw (w.is_denom, skips) refl)

-- A successful withdrawal from a state whose book-keeping is in order leaves the requests of every
-- other user as they were.
pub withdraw_unbonded_others :
    (c : Chain) (env : Env) (user receiver : String) (st st' : State) (msgs : Response) (id : ℕ)
    (other : String)
    → withdraw_unbonded c env user receiver st ≡ ok (st', msgs)
    → IsValid st
    → str_eq other user ≡ false
    → lookup (id, other) st'.unbond_requests ≡ lookup (id, other) st.unbond_requests
withdraw_unbonded_others c env user receiver st st' msgs id other h v ne =
    let w = withdraw_inv c env user receiver st st' msgs h in
    let (same, _) =
      claim_all_others c env.time user v.pending (start st) w.claims _ w.run (listed v user)
        v.accounted id other ne in
    ap (λ (s : State). lookup (id, other) s.unbond_requests) w.after ∙ same

-- A withdrawal succeeds from a state whose book-keeping is in order, where the denomination is set,
-- every batch has shares left and what the batches owe fits 128 bits, for a user with a stored
-- request on a batch that is ready, which is worth one unit at least.
pub withdraw_unbonded_succeeds :
    (c : Chain) (env : Env) (user receiver : String) (st : State) (denom : String) (id : ℕ)
    (r : UnbondRequest)
    → IsValid st
    → st.denom ≡ some denom
    → Every HasShares st.previous_batches
    → unclaimed st.previous_batches < u128_limit
    → lookup (id, user) st.unbond_requests ≡ some r
    → Worth env.time (start st) r
    → (st' : State) × (msgs : Response) × (withdraw_unbonded c env user receiver st
        ≡ ok (st', msgs))
unfolding withdraw_unbonded
withdraw_unbonded_succeeds c env user receiver st denom id r v has_denom pos fits held w =
    let rs = st.unbond_requests in
    let l = requests_of user rs in
    let k = listed v user in
    let (s', run) =
      claim_all-total c env.time user v.pending (start st) l k v.accounted pos
        (omega (arith, fits)) in
    let paid =
      claim_all-pays c env.time user v.pending (start st) s' l r run k v.accounted
        (requests_of-IsListed user rs id r v.accounted.keyed held) w in
    let some_paid : (s'.refund == 0) ≡ false = ground (arith, paid) in
    (
      record st { previous_batches = s'.batches; unbond_requests = s'.requests },
      message (bank_send receiver (record { denom = denom; amount = s'.refund })) ∷ [],
      rw (has_denom, run, some_paid) refl,
    )

-- The batches that a withdrawal at time `t` pays from.
abbrev pub is_open : ℕ → State → ℕ → Bool
is_open t st id = not (is_idle t (lookup id st.previous_batches))

-- After a successful withdrawal from a state whose book-keeping is in order, a request is gone if it
-- is the user's and its batch is ready, and stands as before otherwise.
pub withdraw_unbonded_effect :
    (c : Chain) (env : Env) (user receiver : String) (st st' : State) (msgs : Response) (id : ℕ)
    (other : String)
    → withdraw_unbonded c env user receiver st ≡ ok (st', msgs)
    → IsValid st
    → lookup (id, other) st'.unbond_requests ≡ (
        if str_eq other user && is_open env.time st id
        then none
        else lookup (id, other) st.unbond_requests)
withdraw_unbonded_effect c env user receiver st st' msgs id other h v =
    let w = withdraw_inv c env user receiver st st' msgs h in
    let rs = st.unbond_requests in
    let k = listed v user in
    let a = v.accounted in
    let after = ap (λ (s : State). lookup (id, other) s.unbond_requests) w.after in
    elim (Bool-cases (str_eq other user)) [
      | inr ne ↦ rw ne (withdraw_unbonded_others c env user receiver st st' msgs id other h v ne)
      | inl e ↦
          let same : other ≡ user = (eq_iff other user).0 e in
          elim (Bool-cases (is_idle env.time (lookup id st.previous_batches))) [
            | inl idle ↦
                let stays =
                  claim_all_stays c env.time user v.pending (start st) w.claims _ id w.run k a
                    idle in
                rw (e, idle) (after ∙ rw same stays)
            | inr ready ↦
                let gone : lookup (id, user) w.claims.requests ≡ none =
                  elim (Option-cases (lookup (id, user) rs)) [
                    | inl absent ↦
                        claim_all-none c env.time user v.pending (start st) w.claims _ (id, user)
                          w.run k a absent
                    | inr (x, found) ↦
                        claim_all_clears c env.time user v.pending (start st) w.claims _ id w.run k
                          a ready (requests_of-Asked user rs id x a.keyed found)
                  ] in
                rw (e, ready) (after ∙ rw same gone)
          ]
    ]
