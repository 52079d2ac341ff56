-- ===== src/Miner/Threads.antt =====
-- `main` of packages/dpow-miner-cli/src/main.rs with its threads: one that polls the hub for the
-- parameters, and workers that mine and submit, in any order. A step is one access to the shared state
-- behind its lock, since no lock is held across two of them. Which proofs a run has sent and which
-- parameters the hub has answered is kept beside the state; the thread that updates the entropy shares
-- nothing and is left out, and so are sleeping and printing.

pub mod Sent
pub mod Flag
pub mod Races
mod Tests
use liquid_staking.Base.{
  ℕ, String, Bool, true, false, Option, none, some, List, [], ◌∷◌, Result, ok, err, ◌>>=◌,
  if◌then◌else◌, not, ◌&&◌, ◌==◌, ◌*◌, ◌^◌, ◌<◌, ◌++◌,
}
use liquid_staking.Uint.{add_u64}
use liquid_staking.Miner.Cli.{
  MinedProof, MinerParams, Shared, Round, wait, return, next, mul_u64, rem_u64, attempt,
  delay_increment_of,
}

-- Where the polling thread stands.
pub data Poller : Type 0 where
  asking : Poller
  answered : MinerParams → Poller  -- before it writes the parameters
  written : Poller  -- before it sets `miner_params_loaded`
  stopped : Poller

-- Where a worker stands, with the local variables that are live there.
pub data Worker : Type 0 where
  resting : (last_nonce : ℕ) → Worker  -- head of its loop
  checking : (nonce : ℕ) → Worker  -- head of the loop in `mine`
  idle : (nonce : ℕ) → Worker  -- has seen that nothing is in flight
  loaded : (nonce : ℕ) → Worker  -- has seen that there are parameters
  found : MinedProof → Worker  -- `mine` has returned
  cleared : MinedProof → Worker  -- has seen again that nothing is in flight
  submitting : MinedProof → Worker  -- has set `tx_in_flight`
  sent : MinedProof → Worker  -- `submit_proof` has returned
  crashed : Worker  -- `submit_proof` has panicked
  dead : Worker  -- any other panic

pub record System : Type 0 where
  pub shared : Shared
  pub poller : Poller
  pub worker : ℕ → Worker
  pub polled : List MinerParams
  pub submitted : List MinedProof

abbrev pub update : (ℕ → Worker) → ℕ → Worker → ℕ → Worker
update workers i w j = if j == i then w else workers j

-- A worker at the head of its loop, or dead where a step before it has panicked.
abbrev pub go_on : (ℕ → Worker) → Result ℕ → Worker
go_on f (err e) = dead
go_on f (ok n) = f n

abbrev pub after_attempt : ℕ → Round → Worker
after_attempt nonce wait = checking nonce
after_attempt nonce (return proof) = found proof
after_attempt nonce (next n) = checking n

-- What a worker writes to the shared state.
unfoldable pub flag_after : Worker → Bool → Bool
flag_after (cleared proof) flag = true
flag_after (sent proof) flag = false
flag_after w flag = flag

-- The proof that a worker has sent once `submit_proof` has returned.
unfoldable pub sent_by : Bool → Worker → List MinedProof
sent_by true (submitting proof) = proof ∷ []
sent_by returns w = []

module _ (sha256_proof : String → String → ℕ → String) (miner_address : String) (speed : ℕ) where
  -- Where a worker goes from here; the Boolean says whether `submit_proof` returns.
  unfoldable pub proceed : Bool → Shared → Worker → Worker
  proceed returns s (resting last_nonce) =
      go_on checking (do n ← add_u64 last_nonce 1; _ ← delay_increment_of speed; ok n)
  proceed returns s (checking nonce) =
      go_on (if s.tx_in_flight then checking else idle)
        (do d ← delay_increment_of speed; _ ← rem_u64 nonce d; ok nonce)
  proceed returns s (idle nonce) = if s.miner_params_loaded then loaded nonce else checking nonce
  proceed returns s (loaded nonce) =
      after_attempt nonce (attempt sha256_proof miner_address nonce s.miner_params)
  proceed returns s (found proof) =
      if proof.success && not s.tx_in_flight then cleared proof else resting proof.nonce
  proceed returns s (cleared proof) = submitting proof
  proceed returns s (submitting proof) = if returns then sent proof else crashed
  proceed returns s (sent proof) = resting proof.nonce
  proceed returns s crashed = crashed
  proceed returns s dead = dead

  unfoldable pub work : ℕ → Bool → System → System
  work i returns s = record s {
    shared = record s.shared { tx_in_flight = flag_after (s.worker i) s.shared.tx_in_flight };
    worker = update s.worker i (proceed returns s.shared (s.worker i));
    submitted = sent_by returns (s.worker i) ++ s.submitted;
  }

-- One step of the polling thread; the option is what `poll_miner_params` answers.
unfoldable pub poll_by : Option MinerParams → Poller → System → System
poll_by none asking s = record s { poller = stopped }
poll_by (some params) asking s = record s { poller = answered params; polled = params ∷ s.polled }
poll_by answer (answered params) s = record s {
  shared = record s.shared { miner_params = params };
  poller = written;
}
poll_by answer written s = record s {
  shared = record s.shared { miner_params_loaded = true };
  poller = asking;
}
poll_by answer stopped s = s

abbrev pub poll : Option MinerParams → System → System
poll answer s = poll_by answer s.poller s

-- Worker `i` begins at its own range of nonces.
unfoldable pub first : ℕ → Worker
first i = go_on resting (mul_u64 i (10 ^ 11))

unfoldable pub start : System
start = record {
  shared = record {
    miner_params = record {
      entropy = "0x0000000000000000000000000000000000000000000000000000000000000000";
      difficulty = 0;
    };
    tx_in_flight = false;
    miner_params_loaded = false;
  };
  poller = asking;
  worker = first;
  polled = [];
  submitted = [];
}

module _ (sha256_proof : String → String → ℕ → String) (miner_address : String)
    (speed threads : ℕ) where
  pub data Step (s : System) : System → Type 0 where
    works :
        (i : ℕ) (returns : Bool)
        → i < threads
        → Step s (work sha256_proof miner_address speed i returns s)
    polls : (answer : Option MinerParams) → Step s (poll answer s)

  -- The states that a run can get to from `s`.
  pub data Reach (s : System) : System → Type 0 where
    here : Reach s s
    later : {t u : System} → Reach s t → Step t u → Reach s u
