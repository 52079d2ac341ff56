-- ===== src/Hub/Withdraw.antt =====
-- `withdraw_unbonded` and `withdraw_unbonded_admin` of contracts/hub/src/execute.rs.
use liquid_staking.Base.{
  ℕ, String, Bool, Option, some, none, List, [], ◌∷◌, Result, ok, err, load, ◌>>=◌, ◌>>◌,
  if◌then◌else◌, ◌==◌, ltb, ◌&&◌, str_eq, nothing_to_withdraw,
}
use liquid_staking.Uint.{add_u128, sub_uint}
use liquid_staking.Types.{Batch, UnbondRequest}
use liquid_staking.Store.{lookup, save, remove, nat_key, pair_key}
use liquid_staking.Chain.{Env, Chain, Response, message, bank_send}
use liquid_staking.State.{State, assert_owner}

-- The requests that the index lists for `user`, by their ids.
unfoldable pub requests_of : String → List ((ℕ × String) × UnbondRequest) → List UnbondRequest
requests_of user [] = []
requests_of user ((k, r) ∷ m) =
    let rest = requests_of user m in if str_eq r.user user then r ∷ rest else rest

-- What the loop changes: the two maps and the running total.
pub record Claims : Type 0 where
  pub batches : List (ℕ × Batch)
  pub requests : List ((ℕ × String) × UnbondRequest)
  pub refund : ℕ

-- `batch.reconciled && batch.est_unbond_end_time < current_time`
abbrev pub is_ready : ℕ → Batch → Bool
is_ready current_time b = b.reconciled && ltb b.est_unbond_end_time current_time

module _ (c : Chain) where
  -- A request on a batch that is ready is paid: its part of what is unclaimed, rounded down.
  unfoldable pub claim_ready : String → Claims → UnbondRequest → Batch → Result Claims
  claim_ready user claims request batch = do
    native_to_refund ←
        c.math.multiply_ratio batch.amount_unclaimed request.shares batch.total_shares
    refund ← add_u128 claims.refund native_to_refund
    total_shares ← sub_uint batch.total_shares request.shares
    amount_unclaimed ← sub_uint batch.amount_unclaimed native_to_refund
    let batch' = record batch { total_shares = total_shares; amount_unclaimed = amount_unclaimed }
    let batches =
        if total_shares == 0
        then remove request.id claims.batches
        else save batch.id batch' claims.batches
    ok (record {
      batches = batches;
      requests = remove (request.id, user) claims.requests;
      refund = refund;
    })

  -- The body of the loop; a request on a missing batch is skipped.
  unfoldable pub claim : ℕ → String → Claims → UnbondRequest → Option Batch → Result Claims
  claim current_time user claims request none = ok claims
  claim current_time user claims request (some batch) =
      if is_ready current_time batch then claim_ready user claims request batch else ok claims

  unfoldable pub claim_all : ℕ → String → Claims → List UnbondRequest → Result Claims
  claim_all current_time user claims [] = ok claims
  claim_all current_time user claims (request ∷ requests) = do
    claims' ← claim current_time user claims request (lookup request.id claims.batches)
    claim_all current_time user claims' requests

  unfoldable pub withdraw_unbonded : Env → String → String → State → Result (State × Response)
  withdraw_unbonded env user receiver st = do
    denom ← load st.denom
    let requests = requests_of user st.unbond_requests
    let start : Claims = record {
      batches = st.previous_batches;
      requests = st.unbond_requests;
      refund = 0;
    }
    claims ← claim_all env.time user start requests
    if claims.refund == 0
        then err nothing_to_withdraw
        else ok (
          record st { previous_batches = claims.batches; unbond_requests = claims.requests },
          message (bank_send receiver (record { denom = denom; amount = claims.refund })) ∷ [],
        )

  unfoldable pub withdraw_unbonded_admin : Env → String → String → State → Result (State × Response)
  withdraw_unbonded_admin env user receiver st = do
    assert_owner st user
    withdraw_unbonded env receiver receiver st
