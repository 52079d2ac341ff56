-- ===== src/Miner/Browser.antt =====
-- `mine` of packages/dpow-browser-miner/src/lib.rs. The fuel bounds the rounds of its loop.
use text.Mathlib.Text.{starts_with}
use liquid_staking.Base.{
  ℕ, zero, suc, String, Bool, true, false, Option, none, some, Result, ok, err, ◌>>=◌,
  if◌then◌else◌, leb, ◌||◌, ◌+◌, ◌-◌, ◌≤◌, ◌<◌, ◌≡◌, refl, arith, ◌⊎◌, inl, inr, Bool-cases, ltb,
  ◌∙◌, sym,
}
use liquid_staking.Uint.{add_u64, sub_uint, u64_limit}
use liquid_staking.Miner.{difficulty_string}

pub record MinedProof : Type 0 where
  pub nonce : ℕ
  pub hash : String
  pub success : Bool

-- What one round of the loop ends in: `return`, or the next nonce.
pub data Round : Type 0 where
  return : MinedProof → Round
  next : ℕ → Round

module _ (sha256_proof : String → String → ℕ → String) (miner_entropy miner_address : String)
    (difficulty start_nonce max_tries : ℕ) where
  abbrev pub entropy_hash : ℕ → String
  entropy_hash nonce = sha256_proof miner_entropy miner_address nonce

  abbrev pub is_success : ℕ → Bool
  is_success nonce = starts_with (entropy_hash nonce) (difficulty_string difficulty)

  unfoldable pub round : ℕ → Result Round
  round nonce = do
    tries ← sub_uint nonce start_nonce
    if is_success nonce || leb max_tries tries
        then ok (
            return
              (record { nonce = nonce; hash = entropy_hash nonce; success = is_success nonce }))
        else add_u64 nonce 1 >>= λ n. ok (next n)

  -- `none` where the fuel runs out.
  unfoldable pub mine_loop : ℕ → ℕ → Option (Result MinedProof)
  mine_loop zero nonce = none
  mine_loop (suc fuel) nonce = elim (round nonce) [
    | err e ↦ some (err e)
    | ok (return proof) ↦ some (ok proof)
    | ok (next n) ↦ mine_loop fuel n
  ]

  unfoldable pub mine : Option (Result MinedProof)
  mine = mine_loop (suc max_tries) start_nonce

  -- No nonce from the first up to `n` meets the difficulty.
  abbrev pub FailsBefore : ℕ → Type 0
  FailsBefore n = (k : ℕ) → start_nonce ≤ k → k < n → is_success k ≡ false

  -- The proof that is returned is the first that succeeds, or the last that is tried.
  pub record IsFirst (proof : MinedProof) : Type 0 where
    pub from : start_nonce ≤ proof.nonce
    pub upto : proof.nonce ≤ start_nonce + max_tries
    pub digest : proof.hash ≡ entropy_hash proof.nonce
    pub outcome : proof.success ≡ is_success proof.nonce
    pub earlier : FailsBefore proof.nonce
    pub ended : (proof.success ≡ true) ⊎ (proof.nonce ≡ start_nonce + max_tries)

  extend : (n : ℕ) → FailsBefore n → is_success n ≡ false → FailsBefore (n + 1)
  extend n f e k from before = elim (Bool-cases (leb n k)) [
    | inl le ↦ let same : k ≡ n = ground (arith, le, before) in rw same e
    | inr gt ↦ f k from (ground (arith, gt))
  ]

  abbrev proof_at : ℕ → MinedProof
  proof_at n = record { nonce = n; hash = entropy_hash n; success = is_success n }

  round_succeeds :
      (n : ℕ) → start_nonce ≤ n → is_success n ≡ true → round n ≡ ok (return (proof_at n))
  unfolding round
  round_succeeds n from e =
      let in_order : leb start_nonce n ≡ true = ground (arith, from) in rw (in_order, e) refl

  round_last :
      (n : ℕ)
      → start_nonce ≤ n
      → is_success n ≡ false
      → leb max_tries (n - start_nonce) ≡ true
      → round n ≡ ok (return (proof_at n))
  unfolding round
  round_last n from e last =
      let in_order : leb start_nonce n ≡ true = ground (arith, from) in rw (in_order, e, last) refl

  round_next :
      (n : ℕ)
      → start_nonce ≤ n
      → is_success n ≡ false
      → leb max_tries (n - start_nonce) ≡ false
      → n + 1 < u64_limit
      → round n ≡ ok (next (n + 1))
  unfolding round
  round_next n from e more fits =
      let in_order : leb start_nonce n ≡ true = ground (arith, from) in
      let below : ltb (n + 1) u64_limit ≡ true = ground (arith, fits) in
      rw (in_order, e, more, below) refl

  mine_loop_ends :
      (fuel n : ℕ) (proof : MinedProof)
      → round n ≡ ok (return proof)
      → mine_loop (suc fuel) n ≡ some (ok proof)
  unfolding mine_loop
  mine_loop_ends fuel n proof e = rw (e, mine_loop) refl

  mine_loop_goes_on :
      (fuel n m : ℕ) → round n ≡ ok (next m) → mine_loop (suc fuel) n ≡ mine_loop fuel m
  unfolding mine_loop
  mine_loop_goes_on fuel n m e = rw (e, mine_loop) refl

  -- With fuel for the tries that are left, the loop returns a proof.
  mine_loop-IsFirst :
      (fuel nonce : ℕ)
      → start_nonce ≤ nonce
      → nonce ≤ start_nonce + max_tries
      → start_nonce + max_tries < nonce + fuel
      → start_nonce + max_tries < u64_limit
      → FailsBefore nonce
      → (proof : MinedProof) × (mine_loop fuel nonce ≡ some (ok proof)) × IsFirst proof
  mine_loop-IsFirst zero nonce from upto left fits f = absurd (omega (arith, left, upto))
  mine_loop-IsFirst (suc fuel) nonce from upto left fits f =
      let first : (proof_at nonce).success ≡ true ⊎ (nonce ≡ start_nonce + max_tries)
          → IsFirst (proof_at nonce) =
        λ end. record {
          from = from;
          upto = upto;
          digest = refl;
          outcome = refl;
          earlier = f;
          ended = end;
        } in
      let ends = mine_loop_ends fuel nonce (proof_at nonce) in
      elim (Bool-cases (is_success nonce)) [
        | inl e ↦ (proof_at nonce, ends (round_succeeds nonce from e), first (inl e))
        | inr e ↦ elim (Bool-cases (leb max_tries (nonce - start_nonce))) [
          | inl last ↦ (
            proof_at nonce,
            ends (round_last nonce from e last),
            first (inr (ground (arith, last, from, upto))),
          )
          | inr more ↦
              let go = round_next nonce from e more (ground (arith, more, from, fits)) in
              let (p, run, q) =
                mine_loop-IsFirst fuel (nonce + 1) (omega (arith, from))
                  (ground (arith, more, from)) (omega (arith, left)) fits (extend nonce f e) in
              (p, mine_loop_goes_on fuel nonce (nonce + 1) go ∙ run, q)
        ]
      ]

  pub mine-IsFirst :
      start_nonce + max_tries < u64_limit
      → (proof : MinedProof) × (mine ≡ some (ok proof)) × IsFirst proof
  unfolding mine
  mine-IsFirst fits =
      mine_loop-IsFirst (suc max_tries) start_nonce (omega arith) (omega arith) (omega arith) fits
        (λ k from before. absurd (omega (arith, from, before)))

  -- Where the last nonce fits 64 bits, the loop ends: it returns a nonce within the tries, with its
  -- digest and whether that meets the difficulty; if it does not, all tries are used up.
  pub mine_returns :
      start_nonce + max_tries < u64_limit
      → (proof : MinedProof) × (mine ≡ some (ok proof))
        × (start_nonce ≤ proof.nonce)
        × (proof.nonce ≤ start_nonce + max_tries)
        × (proof.hash ≡ sha256_proof miner_entropy miner_address proof.nonce)
        × (proof.success ≡ starts_with proof.hash (difficulty_string difficulty))
        × ((proof.success ≡ true) ⊎ (proof.nonce ≡ start_nonce + max_tries))
  mine_returns fits =
      let (proof, run, first) = mine-IsFirst fits in
      (proof, run, first.from, first.upto, first.digest, rw first.digest first.outcome, first.ended)

  -- Where the last nonce fits 64 bits and some nonce within the tries meets the difficulty, the
  -- loop returns a success, with a nonce that is at most that one.
  pub mine_finds :
      (k : ℕ)
      → start_nonce + max_tries < u64_limit
      → start_nonce ≤ k
      → k ≤ start_nonce + max_tries
      → starts_with (sha256_proof miner_entropy miner_address k) (difficulty_string difficulty)
        ≡ true
      → (proof : MinedProof) × (mine ≡ some (ok proof)) × (proof.success ≡ true) × (proof.nonce ≤ k)
  mine_finds k fits from upto e =
      let (proof, run, first) = mine-IsFirst fits in
      let soon : proof.nonce ≤ k = elim (Bool-cases (leb proof.nonce k)) [
        | inl le ↦ ground (arith, le)
        | inr gt ↦ absurd (let fails = first.earlier k from (ground (arith, gt)) in cc)
      ] in
      let good : proof.success ≡ true = elim first.ended [
        | inl s ↦ s
        | inr last ↦
            let same : proof.nonce ≡ k = omega (arith, last, soon, upto) in
            first.outcome ∙ (rw same e)
      ] in
      (proof, run, good, soon)

  -- What a success says of the digest.
  pub mine_succeeds :
      (proof : MinedProof)
      → mine ≡ some (ok proof)
      → start_nonce + max_tries < u64_limit
      → proof.success ≡ true
      → starts_with
          (sha256_proof miner_entropy miner_address proof.nonce)
          (difficulty_string difficulty)
        ≡ true
  mine_succeeds proof h fits e =
      let (proof', run, first) = mine-IsFirst fits in
      let same : proof' ≡ proof = cc in
      let outcome : proof.success ≡ is_success proof.nonce = rw same at first.outcome in
      sym outcome ∙ e
