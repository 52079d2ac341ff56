-- ===== src/Miner/Pow.antt =====
-- packages/dpow-hash/src/miner.rs and proof.rs: the search for a proof of work on a header. Byte
-- strings are lists of numbers. SHA-256 and the bech32 encoding are parameters, and so are the random
-- nonces: `search_pow` takes the list of those that it draws, one per round of its loop.
use text.Mathlib.Text.{starts_with}
use liquid_staking.Base.{
  ℕ, String, true, false, Option, none, some, List, [], ◌∷◌, ◌++◌, if◌then◌else◌, ltb, ◌≡◌, ◌≤◌,
  arith, Bool-cases, inl, inr, sym, ap, ◌∙◌,
}
use mathlib.Core.Path.{subst}

abbrev pub Bytes : Type 0
Bytes = List ℕ

pub data MinerError : Type 0 where
  insufficient_difficulty : ℕ → MinerError

pub data Search : Type 0 where
  failed : MinerError → Search
  found : String → Bytes → Search

-- The text that a proof has to start with.
abbrev pub keyword : String
keyword = "dpow1j0e"

module _ (sha256 : Bytes → Bytes) (bech32_encode : String → Bytes → String) where
  unfoldable pub hash_nonce : Bytes → Bytes → Bytes
  hash_nonce header_hash nonce = sha256 (header_hash ++ nonce)

  unfoldable pub hash_header : Bytes → Bytes
  hash_header header = sha256 header

  unfoldable pub bech32_encode_hash : String → Bytes → String
  bech32_encode_hash hrp hash = bech32_encode hrp hash

  abbrev pub proof_of : Bytes → Bytes → String
  proof_of header_hash nonce = bech32_encode_hash "dpow" (hash_nonce header_hash nonce)

  -- `none` where the nonces run out before one of them serves.
  unfoldable pub search_loop : Bytes → List Bytes → Option Search
  search_loop header_hash [] = none
  search_loop header_hash (nonce ∷ nonces) =
      let rest = search_loop header_hash nonces in
      let bech32_hash = proof_of header_hash nonce in
      if starts_with bech32_hash keyword then some (found bech32_hash nonce) else rest

  -- The keyword with `difficulty` zeros that the code builds first is shadowed by a fixed one.
  unfoldable pub search_pow : Bytes → ℕ → List Bytes → Option Search
  search_pow header_hash difficulty nonces =
      if ltb difficulty 2
      then some (failed (insufficient_difficulty difficulty))
      else search_loop header_hash nonces

  -- A difficulty below two is refused; all others give the same search, whose result does not
  -- depend on the difficulty.
  pub search_pow_ignores_difficulty :
      (header_hash : Bytes) (d d' : ℕ) (nonces : List Bytes)
      → 2 ≤ d
      → 2 ≤ d'
      → search_pow header_hash d nonces ≡ search_pow header_hash d' nonces
  unfolding search_pow
  search_pow_ignores_difficulty header_hash d d' nonces h h' = ground (arith, h, h')

  -- The nonces before the one that is found.
  pub data FoundAfter (header_hash nonce : Bytes) : List Bytes → Type 0 where
    here :
        {nonces : List Bytes}
        → starts_with (proof_of header_hash nonce) keyword ≡ true
        → FoundAfter header_hash nonce (nonce ∷ nonces)
    later :
        {first : Bytes} {nonces : List Bytes}
        → starts_with (proof_of header_hash first) keyword ≡ false
        → FoundAfter header_hash nonce nonces
        → FoundAfter header_hash nonce (first ∷ nonces)

  -- A search that succeeds returns the first nonce drawn whose encoded hash starts with the
  -- keyword, together with that hash.
  pub search_loop_first :
      (header_hash : Bytes) (nonces : List Bytes) (text : String) (nonce : Bytes)
      → search_loop header_hash nonces ≡ some (found text nonce)
      → (text ≡ proof_of header_hash nonce) × FoundAfter header_hash nonce nonces
  unfolding search_loop
  search_loop_first header_hash [] text nonce h = absurd cc
  search_loop_first header_hash (n ∷ nonces) text nonce h =
      elim (Bool-cases (starts_with (proof_of header_hash n) keyword)) [
        | inl e ↦
            let same : n ≡ nonce = ground (arith, h, e) in
            let is_text : proof_of header_hash n ≡ text = ground (arith, h, e) in
            (
              sym is_text ∙ ap (proof_of header_hash) same,
              subst (λ (m : Bytes). FoundAfter header_hash nonce (m ∷ nonces)) (sym same)
                  (here (
                    subst (λ (m : Bytes). starts_with (proof_of header_hash m) keyword ≡ true) same
                      e)),
            )
        | inr e ↦
            let (same, rest) = search_loop_first header_hash nonces text nonce (rw e at h) in
            (same, later e rest)
      ]
