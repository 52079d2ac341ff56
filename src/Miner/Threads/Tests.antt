-- ===== src/Miner/Threads/Tests.antt =====
-- Runs of the threads of packages/dpow-miner-cli/src/main.rs in a given order.
use liquid_staking.Base.{
  ℕ, zero, suc, String, Bool, true, false, Option, some, none, List, [], ◌∷◌, ◌≡◌, ◌≢◌, refl, arith,
  ok, All, ◌==◌, Result-cases, inl, inr, ◌^◌, ap, str_eq, if◌then◌else◌,
}
use mathlib.Core.List.{foldl}
use native.Mathlib.Decide.{dec_lt}
use liquid_staking.Hub.Queries.{miner_params}
use liquid_staking.Hub.Tests.Sample.{chain, late, hub}
use liquid_staking.Miner.{difficulty_string}
use liquid_staking.Miner.Cli.{MinedProof, MinerParams, attempt, delay_increment_of, mul_u64}
use liquid_staking.Miner.Threads.{
  submitting, crashed, System, proceed, flag_after, sent_by, work, poll_by, first, start, Reach,
  here, later, works, polls,
}
use liquid_staking.Hub.Contract.{ExecuteMsg, submit_proof}
use liquid_staking.Text.{parse_u128, parse_digits}
use liquid_staking.Miner.Commands.{
  Host, get_speed_as_int, parse_u64, poll_miner_params, get_contract_address, get_rpc_url,
  query_command,
}
use liquid_staking.Miner.Delivered.{IsConfigured, Arrives, submissions_delivered}
use liquid_staking.Miner.Tests.{hub-IsMining}
use liquid_staking.Miner.Threads.Sent.{MinedFor, submitted_backed}
use liquid_staking.Miner.Threads.Flag.{flag_clears}
use liquid_staking.Miner.Threads.Races.{is_past_check, crash_stops_submissions, two_submit}

-- A digest that every nonce meets the difficulty 1 with.
abbrev always : String → String → ℕ → String
always entropy address nonce = "0f"

abbrev params : MinerParams
params = record { entropy = "aa"; difficulty = 1 }

-- Whose turn it is.
data Turn : Type 0 where
  turn_of : ℕ → Bool → Turn
  poll_of : Option MinerParams → Turn

record Run (sha256_proof : String → String → ℕ → String) : Type 0 where
  last : System
  reach : Reach sha256_proof "ann" 500 2 start last

module _ (sha256_proof : String → String → ℕ → String) where
  take_turn : Run sha256_proof → Turn → Run sha256_proof
  take_turn r (turn_of i returns) = elim (dec_lt i 2) [
    | yes lt ↦ record { last = _; reach = later r.reach (works i returns lt) }
    | no _ ↦ r
  ]
  take_turn r (poll_of answer) = record { last = _; reach = later r.reach (polls answer) }

  run : List Turn → Run sha256_proof
  unfolding take_turn work proceed flag_after sent_by poll_by first start attempt difficulty_string
      delay_increment_of dec_lt
  run = foldl take_turn (record { last = start; reach = here })

abbrev rounds : ℕ → ℕ → List Turn → List Turn
rounds i zero rest = rest
rounds i (suc n) rest = turn_of i true ∷ rounds i n rest

abbrev polling : List Turn → List Turn
polling rest = poll_of (some params) ∷ poll_of none ∷ poll_of none ∷ rest

abbrev proof_of : ℕ → MinedProof
proof_of n = record { nonce = n; hash = "0f"; success = true }

-- Worker 0 has sent a proof, and has not cleared the flag yet.
abbrev one_sent : Run always
one_sent = run always (polling (rounds 0 7 []))

one_sent_run : one_sent.last.submitted ≡ proof_of 1 ∷ []
unfolding run
one_sent_run = refl

submitted_backed_example : All (MinedFor always "ann" (params ∷ [])) (proof_of 1 ∷ [])
unfolding run
submitted_backed_example = submitted_backed always "ann" 500 2 one_sent.last one_sent.reach

first-ne-crashed : (i : ℕ) → first i ≢ crashed
unfolding first
first-ne-crashed i = elim (Result-cases (mul_u64 i (10 ^ 11))) [
  | inl (n, e) ↦ rw e (λ h. cc)
  | inr (x, e) ↦ rw e (λ h. cc)
]

one_sent-ne-crashed : (i : ℕ) → one_sent.last.worker i ≢ crashed
unfolding run
one_sent-ne-crashed zero = λ h. cc
one_sent-ne-crashed (suc i) =
    let other : (suc i == 0) ≡ false = ground arith in rw other (first-ne-crashed (suc i))

flag_clears_example :
    (t : System) × Reach always "ann" 500 2 one_sent.last t × (t.shared.tx_in_flight ≡ false)
flag_clears_example =
    flag_clears always "ann" 500 2 one_sent.last one_sent.reach one_sent-ne-crashed

-- Worker 0 is submitting.
abbrev one_submitting : Run always
one_submitting = run always (polling (rounds 0 6 []))

first-waits : (i : ℕ) → is_past_check (first i) ≡ false
unfolding first
first-waits i = elim (Result-cases (mul_u64 i (10 ^ 11))) [
  | inl (n, e) ↦ rw e refl
  | inr (x, e) ↦ rw e refl
]

others_wait : (j : ℕ) → j ≢ 0 → is_past_check (one_submitting.last.worker j) ≡ false
unfolding run
others_wait zero ne = absurd (ne refl)
others_wait (suc j) ne =
    let other : (suc j == 0) ≡ false = ground arith in rw other (first-waits (suc j))

-- Worker 0 panics, and worker 1 goes on.
abbrev after_crash : System
after_crash = work always "ann" 500 1 true (work always "ann" 500 0 false one_submitting.last)

crash_stops_submissions_example :
    (after_crash.submitted ≡ one_submitting.last.submitted)
    × (after_crash.shared.tx_in_flight ≡ true)
unfolding run
crash_stops_submissions_example =
    crash_stops_submissions always "ann" 500 2 0 (proof_of 1) one_submitting.last after_crash refl
      refl others_wait (later here (works 1 true (omega arith)))

-- Both workers have found a proof.
abbrev two_found : Run always
two_found = run always (polling (rounds 0 4 (rounds 1 4 [])))

two_submit_example :
    (t : System) × Reach always "ann" 500 2 two_found.last t
    × (t.worker 0 ≡ submitting (proof_of 1))
    × (t.worker 1 ≡ submitting (proof_of 100000000001))
unfolding run
two_submit_example =
    two_submit always "ann" 500 2 0 1 (proof_of 1) (proof_of 100000000001) two_found.last
      (omega arith) (omega arith) (λ h. omega (arith, h)) refl refl refl refl refl

params_run : miner_params hub ≡ ok (params.entropy, params.difficulty)
unfolding miner_params
params_run = refl

-- JSON that is as many zeros as its nonce, for one validator.
unary : ℕ → String
unary zero = String.[]
unary (suc n) = String.◌∷◌ "0" (unary n)

count : String → ℕ
count String.[] = 0
count (String.◌∷◌ c s) = suc (count s)

count-unary : (n : ℕ) → count (unary n) ≡ n
unfolding count unary
count-unary zero = refl
count-unary (suc n) = ap suc (count-unary n)

abbrev write : ExecuteMsg → Option String
write (submit_proof nonce validator) = some (unary nonce)
write m = none

abbrev read : String → Option ExecuteMsg
read text = some (submit_proof (count text) "alpha")

abbrev variable_of : String → Option String
variable_of name =
    if str_eq name "VALIDATOR_ADDRESS"
    then some "alpha"
    else if str_eq name "MINER_ADDRESS"
    then some "ann"
    else if str_eq name "SPEED"
    then some "500"
    else some "hub"

abbrev host : Host
host = record {
  Value = String;
  env_var = variable_of;
  output = λ command. some (record { success = true; stdout = ""; stderr = "" });
  jq = λ text. ok (record { success = true; stdout = text; stderr = "" });
  query_to_string = λ q. some "";
  execute_to_string = write;
  value_from_str = λ text. some text;
  get = λ value name. some value;
  params_from_value = λ value. some params;
}

host-IsConfigured : IsConfigured host read "hub" "ann" "alpha"
host-IsConfigured = record {
  node = "hub";
  is_contract = refl;
  is_node = refl;
  is_miner = refl;
  is_validator = refl;
  reads_back = λ n. (unary n, refl, ap (λ (k : ℕ). some (submit_proof k "alpha")) (count-unary n));
}

speed_run : get_speed_as_int host ≡ ok 500
unfolding get_speed_as_int parse_u64 parse_u128 parse_digits
speed_run = refl

poll_run : poll_miner_params host ≡ ok params
unfolding poll_miner_params get_contract_address get_rpc_url query_command
poll_run = refl

-- The hub of the other tests, which has answered the parameters above.
submissions_delivered_example : All (Arrives chain late host read hub) (proof_of 1 ∷ [])
unfolding run
submissions_delivered_example =
    submissions_delivered chain late host read "ann" "alpha" 500 2 params hub one_sent.last
      one_sent.reach (refl, tt) params_run (omega arith) hub-IsMining host-IsConfigured
