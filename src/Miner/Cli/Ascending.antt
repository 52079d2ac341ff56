-- ===== src/Miner/Cli/Ascending.antt =====
-- The workers of packages/dpow-miner-cli/src/main.rs never submit a nonce twice.
use liquid_staking.Base.{
  ℕ, zero, suc, String, Option, none, some, List, [], ◌∷◌, Result, ok, err, not, ◌&&◌, ◌+◌, ◌*◌,
  ◌^◌, ◌≤◌, ◌<◌, ◌≡◌, refl, arith, inl, inr, Bool-cases, >>=-elim, length,
}
use liquid_staking.Uint.{add_u64, u64_limit}
use liquid_staking.Miner.Cli.{
  MinedProof, Shared, mul_u64, mine, submit_and_go_on, worker_loop, worker,
}
use liquid_staking.Miner.Cli.Met.{mine_meets}

module _ (sha256_proof : String → String → ℕ → String) (miner_address : String) where
  -- Proofs with ascending nonces, all after `n`.
  abbrev pub Ascending : ℕ → List MinedProof → Type 0
  Ascending n [] = Unit
  Ascending n (proof ∷ proofs) = (n < proof.nonce) × Ascending proof.nonce proofs

  Ascending-weaken :
      (n m : ℕ) (proofs : List MinedProof) → n ≤ m → Ascending m proofs → Ascending n proofs
  Ascending-weaken n m [] le h = tt
  Ascending-weaken n m (proof ∷ proofs) le (above, rest) = (omega (arith, le, above), rest)

  submit-Ascending :
      (more : ℕ → List Shared → Result (List MinedProof))
      (o : Option (Result (MinedProof × List Shared))) (n size : ℕ) (proofs : List MinedProof)
      → ((m : ℕ) (states : List Shared) (rest : List MinedProof)
          → more m states ≡ ok rest
          → m + length states < size
          → Ascending m rest)
      → ((proof : MinedProof) (rest : List Shared)
          → o ≡ some (ok (proof, rest))
          → (n < proof.nonce) × (proof.nonce + length rest < size))
      → submit_and_go_on sha256_proof miner_address more o ≡ ok proofs
      → Ascending n proofs
  submit-Ascending more none n size proofs f g h = let q : proofs ≡ [] = cc in rw q tt
  submit-Ascending more (some (err e)) n size proofs f g h = absurd cc
  submit-Ascending more (some (ok (proof, []))) n size proofs f g h =
      let q : proofs ≡ [] = cc in rw q tt
  submit-Ascending more (some (ok (proof, state ∷ rest))) n size proofs f g h =
      let (above, fits) = g proof (state ∷ rest) refl in
      >>=-elim (more proof.nonce rest) _ h λ later e h₁.
        let after = f proof.nonce rest later e (omega (arith, fits)) in
        elim (Bool-cases (proof.success && not state.tx_in_flight)) [
          | inl t ↦ let q : proofs ≡ proof ∷ later = ground (arith, h₁, t) in rw q (above, after)
          | inr t ↦
              let q : proofs ≡ later = ground (arith, h₁, t) in
              rw q (Ascending-weaken n proof.nonce later (omega (arith, above)) after)
        ]

  worker_loop-Ascending :
      (rounds speed last_nonce : ℕ) (states : List Shared) (proofs : List MinedProof)
      → worker_loop sha256_proof miner_address rounds speed last_nonce states ≡ ok proofs
      → last_nonce + 1 + length states < u64_limit
      → Ascending last_nonce proofs
  unfolding worker_loop
  worker_loop-Ascending zero speed last_nonce states proofs h fits =
      let none_yet : proofs ≡ [] = cc in rw none_yet tt
  worker_loop-Ascending (suc rounds) speed last_nonce states proofs h fits =
      >>=-elim (add_u64 last_nonce 1) _ h λ start e h₁.
        let is_start : start ≡ last_nonce + 1 = ground (arith, e) in
        submit-Ascending (worker_loop sha256_proof miner_address rounds speed)
          (mine sha256_proof miner_address speed start states) last_nonce
          (last_nonce + 1 + length states) proofs
          (λ m left ps run few.
            worker_loop-Ascending rounds speed m left ps run (omega (arith, few, fits)))
          (λ proof left run.
            let (_, from, used) =
              mine_meets sha256_proof miner_address speed start states left proof run
                (omega (arith, is_start, fits)) in
            (omega (arith, is_start, from), omega (arith, used, is_start)))
          h₁

  -- Where the nonces of worker `i` do not wrap around, it submits proofs with ever larger nonces,
  -- all of them after its first one: it never submits a nonce twice.
  pub worker_ascends :
      (rounds speed i : ℕ) (states : List Shared) (proofs : List MinedProof)
      → worker sha256_proof miner_address rounds speed i states ≡ ok proofs
      → i * 10 ^ 11 + 1 + length states < u64_limit
      → Ascending (i * 10 ^ 11) proofs
  unfolding worker
  worker_ascends rounds speed i states proofs h fits =
      >>=-elim (mul_u64 i (10 ^ 11)) _ h λ last e h₁.
        let is_last : last ≡ i * 10 ^ 11 = ground (arith, e) in
        worker_loop-Ascending rounds speed (i * 10 ^ 11) states proofs (rw is_last at h₁) fits
