-- ===== src/Miner/Threads/Races.antt =====
-- What goes wrong with the flag `tx_in_flight` of packages/dpow-miner-cli/src/main.rs: a worker that
-- panics leaves it set, and there is a gap between its test and its write.
use liquid_staking.Base.{
  ℕ, String, Bool, true, false, [], ◌≡◌, ◌≢◌, ◌<◌, refl, sym, ap, ◌∙◌, arith, inl, inr, Bool-cases,
  ◌==◌, ◌++◌,
}
use native.Mathlib.Decide.{ℕ_discrete}
use liquid_staking.Miner.Cli.{MinedProof, Shared}
use liquid_staking.Miner.Threads.{
  Worker, found, cleared, submitting, sent, crashed, System, update, proceed, flag_after, sent_by,
  work, Step, works, polls, Reach, here, later,
}
use liquid_staking.Miner.Threads.Flag.{work_self, work_other, work-flag, poll_by-SameWork}

-- A worker between its last look at the flag and the write that clears it.
abbrev pub is_past_check : Worker → Bool
is_past_check (cleared proof) = true
is_past_check (submitting proof) = true
is_past_check (sent proof) = true
is_past_check w = false

module _ (sha256_proof : String → String → ℕ → String) (miner_address : String)
    (speed threads : ℕ) where
  -- The flag is set, and no worker is on its way to send or to clear it.
  abbrev Stuck : System → Type 0
  Stuck s = (s.shared.tx_in_flight ≡ true) × ((i : ℕ) → is_past_check (s.worker i) ≡ false)

  proceed-waits :
      (returns : Bool) (s : Shared) (w : Worker)
      → s.tx_in_flight ≡ true
      → is_past_check w ≡ false
      → (is_past_check (proceed sha256_proof miner_address speed returns s w) ≡ false)
        × (flag_after w true ≡ true)
        × (sent_by returns w ≡ [])
  unfolding proceed flag_after sent_by
  proceed-waits returns s (found proof) flag h = ground arith
  proceed-waits returns s (cleared proof) flag h = absurd (cc)
  proceed-waits returns s (submitting proof) flag h = absurd (cc)
  proceed-waits returns s (sent proof) flag h = absurd (cc)
  proceed-waits returns s w flag h = ground arith

  Step-Stuck :
      {s t : System}
      → Step sha256_proof miner_address speed threads s t
      → Stuck s
      → Stuck t × (t.submitted ≡ s.submitted)
  unfolding work
  Step-Stuck {s} (works i returns lt) (flag, past) =
      let (waits, kept, none_sent) = proceed-waits returns s.shared (s.worker i) flag (past i) in
      let waits_all : (j : ℕ)
          → is_past_check (
              update s.worker i
                (proceed sha256_proof miner_address speed returns s.shared (s.worker i)) j)
            ≡ false =
        λ j. elim (Bool-cases (j == i)) [ inl e ↦ rw e waits | inr e ↦ rw e (past j) ] in
      ((ap (flag_after (s.worker i)) flag ∙ kept, waits_all), rw none_sent refl)
  Step-Stuck {s} (polls answer) (flag, past) =
      let same = poll_by-SameWork answer s.poller s in
      (
        (same.flag ∙ flag, λ j. ap (λ (f : ℕ → Worker). is_past_check (f j)) same.workers ∙ past j),
        same.submitted,
      )

  Reach-Stuck :
      {s t : System}
      → Reach sha256_proof miner_address speed threads s t
      → Stuck s
      → Stuck t × (t.submitted ≡ s.submitted)
  Reach-Stuck here stuck = (stuck, refl)
  Reach-Stuck (later r st) stuck =
      let (before, same) = Reach-Stuck r stuck in
      let (after, same') = Step-Stuck st before in (after, same' ∙ same)

  -- Where the flag is set by a worker whose `submit_proof` then panics, and no other worker is past
  -- its check of the flag, nothing is ever submitted again, by any worker and whatever the hub answers.
  pub crash_stops_submissions :
      (i : ℕ) (proof : MinedProof) (s t : System)
      → s.worker i ≡ submitting proof
      → s.shared.tx_in_flight ≡ true
      → ((j : ℕ) → j ≢ i → is_past_check (s.worker j) ≡ false)
      → Reach sha256_proof miner_address speed threads
          (work sha256_proof miner_address speed i false s)
          t
      → (t.submitted ≡ s.submitted) × (t.shared.tx_in_flight ≡ true)
  unfolding work proceed flag_after sent_by
  crash_stops_submissions i proof s t e flag others r =
      let s₁ = work sha256_proof miner_address speed i false s in
      let set : s₁.shared.tx_in_flight ≡ true =
        work-flag sha256_proof miner_address speed threads i false s
        ∙ ap (λ (w : Worker). flag_after w s.shared.tx_in_flight) e
        ∙ flag in
      let gone : s₁.worker i ≡ crashed =
        work_self sha256_proof miner_address speed threads i false s
        ∙ ap (proceed sha256_proof miner_address speed false s.shared) e in
      let past : (j : ℕ) → is_past_check (s₁.worker j) ≡ false = λ j. elim (ℕ_discrete j i) [
        | yes q ↦ rw (q, gone) refl
        | no q ↦
            ap is_past_check (work_other sha256_proof miner_address speed threads i j false s q)
            ∙ others j q
      ] in
      let none_sent : s₁.submitted ≡ s.submitted =
        ap (λ (w : Worker). sent_by false w ++ s.submitted) e in
      let ((still, _), same) = Reach-Stuck r (set, past) in (same ∙ none_sent, still)

  -- The test of the flag and its write are apart: where two workers have each found a proof and nothing
  -- is in flight, they can both come to submit theirs at once.
  pub two_submit :
      (i j : ℕ) (p q : MinedProof) (s : System)
      → i < threads
      → j < threads
      → j ≢ i
      → s.worker i ≡ found p
      → s.worker j ≡ found q
      → p.success ≡ true
      → q.success ≡ true
      → s.shared.tx_in_flight ≡ false
      → (t : System) × Reach sha256_proof miner_address speed threads s t
        × (t.worker i ≡ submitting p)
        × (t.worker j ≡ submitting q)
  unfolding proceed flag_after
  two_submit i j p q s i_lt j_lt ne is_p is_q p_good q_good flag =
      let go = work sha256_proof miner_address speed in
      let s₁ = go i true s in
      let s₂ = go j true s₁ in
      let s₃ = go i true s₂ in
      let s₄ = go j true s₃ in
      let ne' : i ≢ j = λ e. ne (sym e) in
      let i₁ : s₁.worker i ≡ cleared p =
        work_self sha256_proof miner_address speed threads i true s
        ∙ rw (is_p, p_good, flag) refl in
      let j₁ : s₁.worker j ≡ found q =
        work_other sha256_proof miner_address speed threads i j true s ne ∙ is_q in
      let flag₁ : s₁.shared.tx_in_flight ≡ false =
        work-flag sha256_proof miner_address speed threads i true s ∙ rw (is_p) flag in
      let j₂ : s₂.worker j ≡ cleared q =
        work_self sha256_proof miner_address speed threads j true s₁
        ∙ rw (j₁, q_good, flag₁) refl in
      let i₂ : s₂.worker i ≡ cleared p =
        work_other sha256_proof miner_address speed threads j i true s₁ ne' ∙ i₁ in
      let i₃ : s₃.worker i ≡ submitting p =
        work_self sha256_proof miner_address speed threads i true s₂ ∙ rw i₂ refl in
      let j₃ : s₃.worker j ≡ cleared q =
        work_other sha256_proof miner_address speed threads i j true s₂ ne ∙ j₂ in
      (
        s₄,
        later
            (later (later (later here (works i true i_lt)) (works j true j_lt)) (works i true i_lt))
            (works j true j_lt),
        work_other sha256_proof miner_address speed threads j i true s₃ ne' ∙ i₃,
        work_self sha256_proof miner_address speed threads j true s₃ ∙ rw j₃ refl,
      )
