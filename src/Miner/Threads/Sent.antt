-- ===== src/Miner/Threads/Sent.antt =====
-- What the threads of packages/dpow-miner-cli/src/main.rs send is backed by parameters that the hub has
-- answered.
use text.Mathlib.Text.{starts_with}
use liquid_staking.Base.{
  ℕ, String, Bool, true, false, Option, none, some, List, [], ◌∷◌, Result, ok, err, All, ◌==◌, ◌≡◌,
  refl, sym, arith, inl, inr, ◌⊎◌, Bool-cases, ◌++◌,
}
use liquid_staking.Miner.{difficulty_string}
use liquid_staking.Miner.Cli.{MinedProof, MinerParams, Shared, attempt}
use liquid_staking.Miner.Threads.{
  Poller, asking, answered, written, stopped, Worker, resting, checking, idle, loaded, found,
  cleared, submitting, sent, crashed, dead, System, update, go_on, after_attempt, proceed, sent_by,
  work, poll_by, start, first, Step, works, polls, Reach, here, later,
}

-- Some parameters of the list are these.
abbrev pub Polled : MinerParams → List MinerParams → Type 0
Polled params [] = ⊥
Polled params (p ∷ ps) = (params ≡ p) ⊎ Polled params ps

-- Either end of a step that may panic.
go_on-cases :
    (P : Worker → Type 0) (f : ℕ → Worker) (r : Result ℕ)
    → P dead
    → ((n : ℕ) → P (f n))
    → P (go_on f r)
go_on-cases P f (err e) d h = d
go_on-cases P f (ok n) d h = h n

module _ (sha256_proof : String → String → ℕ → String) (miner_address : String) where
  -- A proof for the parameters.
  pub record Answers (proof : MinedProof) (params : MinerParams) : Type 0 where
    pub digest : proof.hash ≡ sha256_proof params.entropy miner_address proof.nonce
    pub prefix : starts_with proof.hash (difficulty_string params.difficulty) ≡ true
    pub success : proof.success ≡ true

  -- A proof for some parameters of the list.
  abbrev pub MinedFor : List MinerParams → MinedProof → Type 0
  MinedFor [] proof = ⊥
  MinedFor (p ∷ ps) proof = Answers proof p ⊎ MinedFor ps proof

  MinedFor-polled :
      (ps : List MinerParams) (params : MinerParams) (proof : MinedProof)
      → Polled params ps
      → Answers proof params
      → MinedFor ps proof
  MinedFor-polled [] params proof h a = h
  MinedFor-polled (p ∷ ps) params proof (inl e) a = inl (rw (sym e) a)
  MinedFor-polled (p ∷ ps) params proof (inr h) a = inr (MinedFor-polled ps params proof h a)

  abbrev PollerOk : List MinerParams → MinerParams → Poller → Type 0
  PollerOk ps params (answered p) = Polled p ps
  PollerOk ps params written = Polled params ps
  PollerOk ps params poller = Unit

  abbrev WorkerOk : List MinerParams → Bool → Worker → Type 0
  WorkerOk ps is_loaded (loaded nonce) = is_loaded ≡ true
  WorkerOk ps is_loaded (found proof) = MinedFor ps proof
  WorkerOk ps is_loaded (cleared proof) = MinedFor ps proof
  WorkerOk ps is_loaded (submitting proof) = MinedFor ps proof
  WorkerOk ps is_loaded (sent proof) = MinedFor ps proof
  WorkerOk ps is_loaded w = Unit

  record IsBound (s : System) : Type 0 where
    polling : PollerOk s.polled s.shared.miner_params s.poller
    params : s.shared.miner_params_loaded ≡ true → Polled s.shared.miner_params s.polled
    working : (i : ℕ) → WorkerOk s.polled s.shared.miner_params_loaded (s.worker i)
    backed : All (MinedFor s.polled) s.submitted

  attempt-WorkerOk :
      (ps : List MinerParams) (is_loaded : Bool) (nonce : ℕ) (params : MinerParams)
      → Polled params ps
      → WorkerOk ps is_loaded
          (after_attempt nonce (attempt sha256_proof miner_address nonce params))
  unfolding attempt
  attempt-WorkerOk ps is_loaded nonce params h =
      let hash = sha256_proof params.entropy miner_address nonce in
      elim (Bool-cases (starts_with hash (difficulty_string params.difficulty))) [
        | inl e ↦ rw e (
            MinedFor-polled ps params (record { nonce = nonce; hash = hash; success = true }) h
              (record { digest = refl; prefix = e; success = refl }))
        | inr e ↦ rw e tt
      ]

  proceed-WorkerOk :
      (speed : ℕ) (returns : Bool) (ps : List MinerParams) (s : Shared) (w : Worker)
      → (s.miner_params_loaded ≡ true → Polled s.miner_params ps)
      → WorkerOk ps s.miner_params_loaded w
      → WorkerOk ps s.miner_params_loaded (proceed sha256_proof miner_address speed returns s w)
  unfolding proceed
  proceed-WorkerOk speed returns ps s (resting last_nonce) p h =
      go_on-cases (WorkerOk ps s.miner_params_loaded) checking _ tt (λ _. tt)
  proceed-WorkerOk speed returns ps s (checking nonce) p h = elim (Bool-cases s.tx_in_flight) [
    | inl e ↦ rw e (go_on-cases (WorkerOk ps s.miner_params_loaded) checking _ tt (λ _. tt))
    | inr e ↦ rw e (go_on-cases (WorkerOk ps s.miner_params_loaded) idle _ tt (λ _. tt))
  ]
  proceed-WorkerOk speed returns ps s (idle nonce) p h = ground arith
  proceed-WorkerOk speed returns ps s (loaded nonce) p h =
      attempt-WorkerOk ps s.miner_params_loaded nonce s.miner_params (p h)
  proceed-WorkerOk speed returns ps s (found proof) p h = ground arith
  proceed-WorkerOk speed returns ps s (cleared proof) p h = h
  proceed-WorkerOk speed returns ps s (submitting proof) p h = ground arith
  proceed-WorkerOk speed returns ps s (sent proof) p h = tt
  proceed-WorkerOk speed returns ps s crashed p h = tt
  proceed-WorkerOk speed returns ps s dead p h = tt

  sent_by-backed :
      (returns : Bool) (ps : List MinerParams) (is_loaded : Bool) (w : Worker)
      (proofs : List MinedProof)
      → WorkerOk ps is_loaded w
      → All (MinedFor ps) proofs
      → All (MinedFor ps) (sent_by returns w ++ proofs)
  unfolding sent_by
  sent_by-backed true ps is_loaded (submitting proof) proofs h all = (h, all)
  sent_by-backed true ps is_loaded w proofs h all = all
  sent_by-backed false ps is_loaded w proofs h all = all

  -- What holds of every worker holds after one of them has moved to where it holds.
  update-all :
      (P : Worker → Type 0) (workers : ℕ → Worker) (i : ℕ) (w : Worker)
      → ((j : ℕ) → P (workers j))
      → P w
      → (j : ℕ) → P (update workers i w j)
  update-all P workers i w all h j = elim (Bool-cases (j == i)) [
    | inl e ↦ rw e h
    | inr e ↦ rw e (all j)
  ]

  work-IsBound :
      (speed i : ℕ) (returns : Bool) (s : System)
      → IsBound s
      → IsBound (work sha256_proof miner_address speed i returns s)
  unfolding work
  work-IsBound speed i returns s v =
      let w = s.worker i in
      let is_loaded = s.shared.miner_params_loaded in
      record {
        polling = v.polling;
        params = v.params;
        working =
            update-all (WorkerOk s.polled is_loaded) s.worker i _ v.working
              (proceed-WorkerOk speed returns s.polled s.shared w v.params (v.working i));
        backed = sent_by-backed returns s.polled is_loaded w s.submitted (v.working i) v.backed;
      }

  -- One more answer takes nothing away.
  WorkerOk-polled :
      (p : MinerParams) (ps : List MinerParams) (is_loaded : Bool) (w : Worker)
      → WorkerOk ps is_loaded w
      → WorkerOk (p ∷ ps) is_loaded w
  WorkerOk-polled p ps is_loaded (loaded nonce) h = h
  WorkerOk-polled p ps is_loaded (found proof) h = inr h
  WorkerOk-polled p ps is_loaded (cleared proof) h = inr h
  WorkerOk-polled p ps is_loaded (submitting proof) h = inr h
  WorkerOk-polled p ps is_loaded (sent proof) h = inr h
  WorkerOk-polled p ps is_loaded w h = tt

  WorkerOk-loaded :
      (ps : List MinerParams) (is_loaded : Bool) (w : Worker)
      → WorkerOk ps is_loaded w
      → WorkerOk ps true w
  WorkerOk-loaded ps is_loaded (loaded nonce) h = refl
  WorkerOk-loaded ps is_loaded (found proof) h = h
  WorkerOk-loaded ps is_loaded (cleared proof) h = h
  WorkerOk-loaded ps is_loaded (submitting proof) h = h
  WorkerOk-loaded ps is_loaded (sent proof) h = h
  WorkerOk-loaded ps is_loaded w h = tt

  backed-polled :
      (p : MinerParams) (ps : List MinerParams) (proofs : List MinedProof)
      → All (MinedFor ps) proofs
      → All (MinedFor (p ∷ ps)) proofs
  backed-polled p ps [] h = tt
  backed-polled p ps (proof ∷ proofs) (h, hs) = (inr h, backed-polled p ps proofs hs)

  poll_by-IsBound :
      (answer : Option MinerParams) (poller : Poller) (s : System)
      → PollerOk s.polled s.shared.miner_params poller
      → IsBound s
      → IsBound (poll_by answer poller s)
  unfolding poll_by
  poll_by-IsBound none asking s h v = record {
    polling = tt;
    params = v.params;
    working = v.working;
    backed = v.backed;
  }
  poll_by-IsBound (some p) asking s h v = record {
    polling = inl refl;
    params = λ e. inr (v.params e);
    working =
        λ i. WorkerOk-polled p s.polled s.shared.miner_params_loaded (s.worker i) (v.working i);
    backed = backed-polled p s.polled s.submitted v.backed;
  }
  poll_by-IsBound answer (answered p) s h v = record {
    polling = h;
    params = λ _. h;
    working = v.working;
    backed = v.backed;
  }
  poll_by-IsBound answer written s h v = record {
    polling = tt;
    params = λ _. h;
    working = λ i. WorkerOk-loaded s.polled s.shared.miner_params_loaded (s.worker i) (v.working i);
    backed = v.backed;
  }
  poll_by-IsBound answer stopped s h v = v

  first-WorkerOk : (i : ℕ) → WorkerOk [] false (first i)
  unfolding first
  first-WorkerOk i = go_on-cases (WorkerOk [] false) resting _ tt (λ _. tt)

  start-IsBound : IsBound start
  unfolding start
  start-IsBound = record {
    polling = tt;
    params = λ e. absurd (cc);
    working = first-WorkerOk;
    backed = tt;
  }

  Step-IsBound :
      {speed threads : ℕ} {s t : System}
      → Step sha256_proof miner_address speed threads s t
      → IsBound s
      → IsBound t
  Step-IsBound {speed} {threads} {s} (works i returns lt) v = work-IsBound speed i returns s v
  Step-IsBound {speed} {threads} {s} (polls answer) v =
      poll_by-IsBound answer s.poller s v.polling v

  Reach-IsBound :
      {speed threads : ℕ} {s t : System}
      → IsBound s
      → Reach sha256_proof miner_address speed threads s t
      → IsBound t
  Reach-IsBound v here = v
  Reach-IsBound v (later r st) = Step-IsBound st (Reach-IsBound v r)

  -- In every state that a run of the threads can get to, whatever their order, whatever the hub answers
  -- and however the submissions end, each proof that was submitted is marked as a success and is a
  -- proof for entropy and difficulty that the hub had answered before: its digest is the one of that
  -- entropy, and starts with as many zeros as that difficulty asks for.
  pub submitted_backed :
      (speed threads : ℕ) (s : System)
      → Reach sha256_proof miner_address speed threads start s
      → All (MinedFor s.polled) s.submitted
  submitted_backed speed threads s r =
      let open_state : IsBound s = Reach-IsBound start-IsBound r in open_state.backed
