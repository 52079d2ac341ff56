-- ===== src/Miner/Threads/Flag.antt =====
-- The flag `tx_in_flight` of packages/dpow-miner-cli/src/main.rs: who has set it, and that it
-- can be cleared.
use liquid_staking.Base.{
  ℕ, String, Bool, true, false, Option, none, some, ◌≡◌, ◌≢◌, ◌<◌, refl, sym, ap, ◌∙◌, arith, inl,
  inr, ◌⊎◌, Bool-cases, ◌==◌,
}
use liquid_staking.Miner.Cli.{MinerParams, Shared}
use liquid_staking.Miner.Threads.{
  Poller, asking, answered, written, stopped, Worker, cleared, submitting, sent, crashed, System,
  update, proceed, flag_after, work, poll_by, start, Step, works, polls, Reach, here, later,
}

-- A worker that has set the flag and not cleared it.
abbrev pub holds : Worker → Bool
holds (submitting proof) = true
holds (sent proof) = true
holds crashed = true
holds w = false

pub update_self : (workers : ℕ → Worker) (i : ℕ) (w : Worker) → update workers i w i ≡ w
update_self workers i w = let same : (i == i) ≡ true = ground arith in rw same refl

pub update_ne :
    (workers : ℕ → Worker) (i j : ℕ) (w : Worker) → j ≢ i → update workers i w j ≡ workers j
update_ne workers i j w ne = let apart : (j == i) ≡ false = ground (arith, ne) in rw apart refl

-- The polling thread leaves the workers, the flag and what was sent alone.
pub record SameWork (s t : System) : Type 0 where
  pub workers : t.worker ≡ s.worker
  pub flag : t.shared.tx_in_flight ≡ s.shared.tx_in_flight
  pub submitted : t.submitted ≡ s.submitted

pub poll_by-SameWork :
    (answer : Option MinerParams) (poller : Poller) (s : System)
    → SameWork s (poll_by answer poller s)
unfolding poll_by
poll_by-SameWork none asking s = record { workers = refl; flag = refl; submitted = refl }
poll_by-SameWork (some p) asking s = record { workers = refl; flag = refl; submitted = refl }
poll_by-SameWork answer (answered p) s = record { workers = refl; flag = refl; submitted = refl }
poll_by-SameWork answer written s = record { workers = refl; flag = refl; submitted = refl }
poll_by-SameWork answer stopped s = record { workers = refl; flag = refl; submitted = refl }

module _ (sha256_proof : String → String → ℕ → String) (miner_address : String)
    (speed threads : ℕ) where
  -- Where the flag is set, some thread holds it.
  abbrev IsHeld : System → Type 0
  IsHeld s = s.shared.tx_in_flight ≡ true → (i : ℕ) × (i < threads) × (holds (s.worker i) ≡ true)

  proceed-holds :
      (returns : Bool) (s : Shared) (w : Worker)
      → flag_after w s.tx_in_flight ≡ true
      → (holds (proceed sha256_proof miner_address speed returns s w) ≡ true)
        ⊎ ((s.tx_in_flight ≡ true) × (holds w ≡ false))
  unfolding proceed flag_after
  proceed-holds returns s (cleared proof) h = inl refl
  proceed-holds true s (submitting proof) h = inl refl
  proceed-holds false s (submitting proof) h = inl refl
  proceed-holds returns s (sent proof) h = absurd (cc)
  proceed-holds returns s crashed h = inl refl
  proceed-holds returns s w h = inr (h, refl)

  work-IsHeld :
      (i : ℕ) (returns : Bool) (s : System)
      → i < threads
      → IsHeld s
      → IsHeld (work sha256_proof miner_address speed i returns s)
  unfolding work
  work-IsHeld i returns s lt held h =
      let w = proceed sha256_proof miner_address speed returns s.shared (s.worker i) in
      elim (proceed-holds returns s.shared (s.worker i) h) [
        | inl p ↦ (i, lt, rw (update_self s.worker i w) p)
        | inr (flag, free) ↦
            let (k, k_lt, p) = held flag in
            let apart : k ≢ i = λ e. let q : holds (s.worker i) ≡ true = rw (sym e) p in cc in
            (k, k_lt, rw (update_ne s.worker i k w apart) p)
      ]

  Step-IsHeld :
      {s t : System} → Step sha256_proof miner_address speed threads s t → IsHeld s → IsHeld t
  Step-IsHeld {s} (works i returns lt) held h = work-IsHeld i returns s lt held h
  Step-IsHeld {s} (polls answer) held h =
      let same = poll_by-SameWork answer s.poller s in
      let (i, lt, p) = held (sym same.flag ∙ h) in
      (i, lt, ap (λ (f : ℕ → Worker). holds (f i)) same.workers ∙ p)

  Reach-IsHeld :
      {s t : System} → IsHeld s → Reach sha256_proof miner_address speed threads s t → IsHeld t
  Reach-IsHeld held here = held
  Reach-IsHeld held (later r st) = Step-IsHeld st (Reach-IsHeld held r)

  start-IsHeld : IsHeld start
  unfolding start
  start-IsHeld h = absurd (cc)

  -- What a step of one worker does.
  pub work_self :
      (i : ℕ) (returns : Bool) (s : System)
      → (work sha256_proof miner_address speed i returns s).worker i
        ≡ proceed sha256_proof miner_address speed returns s.shared (s.worker i)
  unfolding work
  work_self i returns s = update_self s.worker i _

  pub work_other :
      (i j : ℕ) (returns : Bool) (s : System)
      → j ≢ i
      → (work sha256_proof miner_address speed i returns s).worker j ≡ s.worker j
  unfolding work
  work_other i j returns s ne = update_ne s.worker i j _ ne

  pub work-flag :
      (i : ℕ) (returns : Bool) (s : System)
      → (work sha256_proof miner_address speed i returns s).shared.tx_in_flight
        ≡ flag_after (s.worker i) s.shared.tx_in_flight
  unfolding work
  work-flag i returns s = refl

  clears :
      (i : ℕ) (s : System) (w : Worker)
      → i < threads
      → s.worker i ≡ w
      → holds w ≡ true
      → w ≢ crashed
      → (t : System) × Reach sha256_proof miner_address speed threads s t
        × (t.shared.tx_in_flight ≡ false)
  unfolding proceed flag_after
  clears i s (sent proof) lt e h live = (
    work sha256_proof miner_address speed i true s,
    later here (works i true lt),
    work-flag i true s ∙ ap (λ (w : Worker). flag_after w s.shared.tx_in_flight) e,
  )
  clears i s (submitting proof) lt e h live =
      let s₁ = work sha256_proof miner_address speed i true s in
      let there : s₁.worker i ≡ sent proof =
        work_self i true s ∙ ap (proceed sha256_proof miner_address speed true s.shared) e in
      (
        work sha256_proof miner_address speed i true s₁,
        later (later here (works i true lt)) (works i true lt),
        work-flag i true s₁ ∙ ap (λ (w : Worker). flag_after w s₁.shared.tx_in_flight) there,
      )
  clears i s crashed lt e h live = absurd (live refl)
  clears i s w lt e h live = absurd (cc)

  -- As long as no submission has panicked, no state that a run of the threads can get to is stuck with
  -- the flag set: the run can go on to a state where it is clear.
  pub flag_clears :
      (s : System)
      → Reach sha256_proof miner_address speed threads start s
      → ((i : ℕ) → s.worker i ≢ crashed)
      → (t : System) × Reach sha256_proof miner_address speed threads s t
        × (t.shared.tx_in_flight ≡ false)
  flag_clears s r live = elim (Bool-cases s.shared.tx_in_flight) [
    | inr e ↦ (s, here, e)
    | inl e ↦
        let (i, lt, h) = Reach-IsHeld start-IsHeld r e in clears i s (s.worker i) lt refl h (live i)
  ]
