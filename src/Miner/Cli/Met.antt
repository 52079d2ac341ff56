-- ===== src/Miner/Cli/Met.antt =====
-- What `mine` of packages/dpow-miner-cli/src/main.rs returns is a proof for what it read.
use text.Mathlib.Text.{starts_with}
use liquid_staking.Base.{
  ℕ, String, true, false, some, List, [], ◌∷◌, ok, err, not, ◌||◌, ◌+◌, ◌%◌, ◌≤◌, ◌<◌, ◌≡◌, refl,
  arith, inl, inr, Bool-cases, >>=-elim, ◌⊎◌, Result-cases, length,
}
use native.Mathlib.Nat.{mod-eq_of_lt}
use liquid_staking.Uint.{u64_limit}
use liquid_staking.Miner.{difficulty_string}
use liquid_staking.Miner.Cli.{
  MinedProof, Shared, Round, wait, return, next, rem_u64, round, delay_increment_of, mine_loop,
  mine,
}

module _ (sha256_proof : String → String → ℕ → String) (miner_address : String) where
  -- A proof that some observation accounts for.
  pub record Meets (proof : MinedProof) (state : Shared) : Type 0 where
    pub idle : state.tx_in_flight ≡ false
    pub loaded : state.miner_params_loaded ≡ true
    pub digest : proof.hash ≡ sha256_proof state.miner_params.entropy miner_address proof.nonce
    pub prefix : starts_with proof.hash (difficulty_string state.miner_params.difficulty) ≡ true
    pub success : proof.success ≡ true

  round_inv :
      (delay_increment nonce : ℕ) (state : Shared) (r : Round)
      → round sha256_proof miner_address delay_increment nonce state ≡ ok r
      → (r ≡ wait)
        ⊎ (((proof : MinedProof) × (r ≡ return proof) × Meets proof state × (proof.nonce ≡ nonce))
            ⊎ (r ≡ next ((nonce + 1) % u64_limit)))
  unfolding round
  round_inv delay_increment nonce state r h = >>=-elim (rem_u64 nonce delay_increment) _ h λ _ _ h₁.
      let hash = sha256_proof state.miner_params.entropy miner_address nonce in
      let proof : MinedProof = record { nonce = nonce; hash = hash; success = true } in
      elim (Bool-cases (state.tx_in_flight || not state.miner_params_loaded)) [
        | inl e ↦ inl (ground (arith, h₁, e))
        | inr e ↦
            elim (Bool-cases (starts_with hash (difficulty_string state.miner_params.difficulty))) [
              | inl m ↦ inr (
                  inl (
                    proof,
                    ground (arith, h₁, e, m),
                    record {
                      idle = ground (arith, e);
                      loaded = ground (arith, e);
                      digest = refl;
                      prefix = m;
                      success = refl;
                    },
                    refl,
                  ))
              | inr m ↦ inr (inr (ground (arith, h₁, e, m)))
            ]
      ]

  -- Some observation accounts for the proof.
  abbrev pub MetBy : MinedProof → List Shared → Type 0
  MetBy proof [] = ⊥
  MetBy proof (state ∷ states) = Meets proof state ⊎ MetBy proof states

  -- A proof that the loop returns comes from its first round, or from a later one.
  mine_loop_cases :
      (delay_increment nonce : ℕ) (state : Shared) (states rest : List Shared) (proof : MinedProof)
      → mine_loop sha256_proof miner_address delay_increment nonce (state ∷ states)
        ≡ some (ok (proof, rest))
      → (mine_loop sha256_proof miner_address delay_increment nonce states
          ≡ some (ok (proof, rest)))
        ⊎ ((Meets proof state × (proof.nonce ≡ nonce) × (rest ≡ states))
            ⊎ (mine_loop sha256_proof miner_address delay_increment ((nonce + 1) % u64_limit) states
                ≡ some (ok (proof, rest))))
  unfolding mine_loop
  mine_loop_cases delay_increment nonce state states rest proof h =
      elim (Result-cases (round sha256_proof miner_address delay_increment nonce state)) [
        | inr (e, q) ↦
            absurd (let h' : some (err e) ≡ some (ok (proof, rest)) = rw (q, mine_loop) at h in cc)
        | inl (r, q) ↦ elim (round_inv delay_increment nonce state r q) [
          | inl w ↦ inl (rw (q, w, mine_loop) at h)
          | inr (inl (found, w, m, e)) ↦
              let h' : some (ok (found, states)) ≡ some (ok (proof, rest)) =
                rw (q, w, mine_loop) at h in
              let same : found ≡ proof = cc in inr (inl (rw same at m, rw same at e, cc))
          | inr (inr w) ↦ inr (inr (rw (q, w, mine_loop) at h))
        ]
      ]

  mine_loop_meets :
      (delay_increment nonce : ℕ) (states rest : List Shared) (proof : MinedProof)
      → mine_loop sha256_proof miner_address delay_increment nonce states ≡ some (ok (proof, rest))
      → MetBy proof states
  unfolding mine_loop
  mine_loop_meets delay_increment nonce [] rest proof h = absurd cc
  mine_loop_meets delay_increment nonce (state ∷ states) rest proof h =
      elim (mine_loop_cases delay_increment nonce state states rest proof h) [
        | inl again ↦ inr (mine_loop_meets delay_increment nonce states rest proof again)
        | inr (inl (m, _, _)) ↦ inl m
        | inr (inr more) ↦
            inr (mine_loop_meets delay_increment ((nonce + 1) % u64_limit) states rest proof more)
      ]

  mine_loop_advances :
      (delay_increment nonce : ℕ) (states rest : List Shared) (proof : MinedProof)
      → mine_loop sha256_proof miner_address delay_increment nonce states ≡ some (ok (proof, rest))
      → nonce + length states < u64_limit
      → (nonce ≤ proof.nonce) × (proof.nonce + length rest < nonce + length states)
  unfolding mine_loop
  mine_loop_advances delay_increment nonce [] rest proof h fits = absurd cc
  mine_loop_advances delay_increment nonce (state ∷ states) rest proof h fits =
      elim (mine_loop_cases delay_increment nonce state states rest proof h) [
        | inl again ↦
            let (from, left) =
              mine_loop_advances delay_increment nonce states rest proof again
                (omega (arith, fits)) in
            (from, omega (arith, left))
        | inr (inl (_, same, all)) ↦ (omega (arith, same), rw all (omega (arith, same)))
        | inr (inr more) ↦
            let small : (nonce + 1) % u64_limit ≡ nonce + 1 = mod-eq_of_lt (omega (arith, fits)) in
            let (from, left) =
              mine_loop_advances delay_increment (nonce + 1) states rest proof (rw small at more)
                (omega (arith, fits)) in
            (omega (arith, from), omega (arith, left))
      ]

  -- Every proof that `mine` returns is accounted for by an observation of the shared state with no
  -- transaction in flight and loaded parameters, whose entropy gives the proof's digest and whose
  -- difficulty the digest meets; where the nonces do not wrap around, its nonce is not before the
  -- first one, and each nonce takes an observation.
  pub mine_meets :
      (speed start_nonce : ℕ) (states rest : List Shared) (proof : MinedProof)
      → mine sha256_proof miner_address speed start_nonce states ≡ some (ok (proof, rest))
      → start_nonce + length states < u64_limit
      → MetBy proof states
        × (start_nonce ≤ proof.nonce)
        × (proof.nonce + length rest < start_nonce + length states)
  unfolding mine
  mine_meets speed start_nonce states rest proof h fits =
      elim (Result-cases (delay_increment_of speed)) [
        | inr (e, q) ↦
            absurd (let h' : some (err e) ≡ some (ok (proof, rest)) = rw (q, mine) at h in cc)
        | inl (d, q) ↦
            let run : mine_loop sha256_proof miner_address d start_nonce states
                ≡ some (ok (proof, rest)) =
              rw (q, mine) at h in
            let (from, left) = mine_loop_advances d start_nonce states rest proof run fits in
            (mine_loop_meets d start_nonce states rest proof run, from, left)
      ]
