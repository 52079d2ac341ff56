-- ===== src/Hub/Difficulty.antt =====
-- What the proof of work of contracts/hub/src/execute.rs does to the difficulty and to mining power.
use text.Mathlib.Text.{starts_with}
use liquid_staking.Base.{
  zero, suc, inl, inr, Option-cases, ℕ, String, Bool, true, Option, some, none, [], ◌∷◌, ok, load,
  load-eq-ok, require-eq-ok, ok_or, unwrap_or, >>=-elim, require, ◌+◌, ◌-◌, ◌≤◌, ◌<◌, ◌≡◌, refl,
  sym, ◌∙◌, ap, arith, unknown_validator, proof_too_weak, ◌⊎◌,
}
use Prim.Native.String.{◌++◌ as append}
use text.Mathlib.TextLemmas.{append_assoc}
use text.Mathlib.TextEquality.{starts_with_iff}
use mathlib.Core.Path.{subst}
use liquid_staking.Uint.{u128_limit, sub_uint}
use liquid_staking.Types.{wallet}
use liquid_staking.Store.{lookup, save, text_key, lookup-save, same_self}
use liquid_staking.Chain.{Env, Chain, Response, message, call_self, harvest}
use liquid_staking.State.{State}
use liquid_staking.Hub.Mining.{
  create_difficulty_prefix, checked_add, next_difficulty, update_difficulty, last_mined_block,
  compute_miner_proof, submit_proof,
}

-- The difficulty stays positive and moves by one at most; it rises only for a proof that came within
-- 20 seconds, and falls only after more than 300.
pub next_difficulty_moves :
    (duration d d' : ℕ) (proof : Bool)
    → next_difficulty duration d proof ≡ ok d'
    → 1 ≤ d
    → (1 ≤ d')
      × ((d' ≡ d)
          ⊎ (((d' ≡ d + 1) × (duration < 20) × (proof ≡ true)) ⊎ ((d' + 1 ≡ d) × (300 < duration))))
unfolding next_difficulty
next_difficulty_moves duration d d' proof h p = ground (arith)

-- What a change of the difficulty has read and written.
pub record Adjustment (t : ℕ) (proof : Bool) (st st' : State) : Type 0 where
  pub last : ℕ
  pub difficulty : ℕ
  pub next : ℕ
  pub is_last : st.miner_last_mined_timestamp ≡ some last
  pub is_difficulty : st.miner_difficulty ≡ some difficulty
  pub in_order : last ≤ t
  pub is_next : next_difficulty (t - last) difficulty proof ≡ ok next
  pub after : st' ≡ record st { miner_difficulty = some next }

pub update_difficulty_inv :
    (t : ℕ) (proof : Bool) (st st' : State)
    → update_difficulty t proof st ≡ ok st'
    → Adjustment t proof st st'
unfolding update_difficulty
update_difficulty_inv t proof st st' h =
    >>=-elim (load st.miner_last_mined_timestamp) _ h λ last e h₁.
      >>=-elim (load st.miner_difficulty) _ h₁ λ d e₁ h₂.
        >>=-elim (sub_uint t last) _ h₂ λ duration e₂ h₃.
          >>=-elim (next_difficulty duration d proof) _ h₃ λ next e₃ h₄.
            let same : duration ≡ t - last = ground arith in
            record {
              last = last;
              difficulty = d;
              next = next;
              is_last = load-eq-ok _ e;
              is_difficulty = load-eq-ok _ e₁;
              in_order = ground arith;
              is_next = subst (λ (x : ℕ). next_difficulty x d proof ≡ ok next) same e₃;
              after = cc;
            }

-- What an accepted proof has read and written.
pub record Accepted (c : Chain) (env : Env) (sender : String) (nonce : ℕ) (address : String)
    (st st' : State) (msgs : Response) : Type 0 where
  pub validator : String
  pub entropy : String
  pub draft : String
  pub difficulty : ℕ
  pub last_block : ℕ
  pub total : ℕ
  pub adjusted : State
  pub is_validator : c.query_validator address ≡ ok (some validator)
  pub is_entropy : st.miner_entropy ≡ some entropy
  pub is_draft : st.miner_entropy_draft ≡ some draft
  pub is_difficulty : st.miner_difficulty ≡ some difficulty
  pub is_last : last_mined_block st env.height ≡ ok last_block
  pub meets :
      starts_with (compute_miner_proof c entropy sender nonce) (create_difficulty_prefix difficulty)
      ≡ true
  pub in_order : last_block ≤ env.height
  pub adjustment : Adjustment env.time true st adjusted
  pub is_total : st.total_mining_power ≡ some total
  pub after : st' ≡ record adjusted {
    validator_mining_powers =
        save validator
          (unwrap_or (lookup validator st.validator_mining_powers) 0 + (env.height - last_block))
          st.validator_mining_powers;
    total_mining_power = some (total + (env.height - last_block));
    miner_entropy = some (c.sha256_pair draft (compute_miner_proof c entropy sender nonce));
    miner_entropy_draft = some (compute_miner_proof c entropy sender nonce);
    miner_last_mined_timestamp = some env.time;
    miner_last_mined_block = some env.height;
    fee_account_type = some wallet;
    fee_account = some sender;
  }
  pub sent : msgs ≡ message (call_self env.contract harvest) ∷ []

pub ok_or-eq-ok : {A : Type 0} (o : Option A) (e : _) {a : A} → ok_or o e ≡ ok a → o ≡ some a
ok_or-eq-ok none e h = cc
ok_or-eq-ok (some a) e h = cc

pub submit_proof_inv :
    (c : Chain) (env : Env) (sender : String) (nonce : ℕ) (address : String) (st st' : State)
    (msgs : Response)
    → submit_proof c env sender nonce address st ≡ ok (st', msgs)
    → Accepted c env sender nonce address st st' msgs
unfolding submit_proof
submit_proof_inv c env sender nonce address st st' msgs h =
    >>=-elim (c.query_validator address) _ h λ found e h₁.
      >>=-elim (ok_or found unknown_validator) _ h₁ λ validator e₁ h₂.
        >>=-elim (load st.miner_entropy) _ h₂ λ entropy e₂ h₃.
          >>=-elim (load st.miner_entropy_draft) _ h₃ λ draft e₃ h₄.
            >>=-elim (load st.fee_account_type) _ h₄ λ kind _ h₅.
              >>=-elim (load st.miner_difficulty) _ h₅ λ difficulty e₅ h₆.
                >>=-elim (last_mined_block st env.height) _ h₆ λ last_block e₆ h₇.
                  let hash = compute_miner_proof c entropy sender nonce in
                  >>=-elim
                    (require (starts_with hash (create_difficulty_prefix difficulty))
                      proof_too_weak)
                    _ h₇
                    λ _ e₇ h₈. >>=-elim (sub_uint env.height last_block) _ h₈ λ blocks e₈ h₉.
                      >>=-elim (update_difficulty env.time true st) _ h₉ λ adjusted e₉ h₁₀.
                        let old = unwrap_or (lookup validator st.validator_mining_powers) 0 in
                        >>=-elim (checked_add u128_limit old blocks) _ h₁₀ λ power e₁₀ h₁₁.
                          >>=-elim (load st.total_mining_power) _ h₁₁ λ total e₁₁ h₁₂.
                            >>=-elim (checked_add u128_limit total blocks) _ h₁₂ λ total' e₁₂ h₁₃.
                              let is_blocks : blocks ≡ env.height - last_block =
                                ground (arith, e₈) in
                              let is_power : power ≡ old + (env.height - last_block) =
                                ground (arith, e₁₀, is_blocks) in
                              let is_total' : total' ≡ total + (env.height - last_block) =
                                ground (arith, e₁₂, is_blocks) in
                              record {
                                validator = validator;
                                entropy = entropy;
                                draft = draft;
                                difficulty = difficulty;
                                last_block = last_block;
                                total = total;
                                adjusted = adjusted;
                                is_validator =
                                    subst (λ (o : Option String). c.query_validator address ≡ ok o)
                                      (ok_or-eq-ok found unknown_validator e₁) e;
                                is_entropy = load-eq-ok _ e₂;
                                is_draft = load-eq-ok _ e₃;
                                is_difficulty = load-eq-ok _ e₅;
                                is_last = e₆;
                                meets = require-eq-ok _ _ e₇;
                                in_order = ground (arith, e₈);
                                adjustment = update_difficulty_inv env.time true st adjusted e₉;
                                is_total = load-eq-ok _ e₁₁;
                                after = rw (sym is_power, sym is_total') cc;
                                sent = cc;
                              }

-- A text of `n` zeros.
abbrev pub zeros : ℕ → String
zeros zero = ""
zeros (suc n) = append "0" (zeros n)

zeros-append : (n : ℕ) → append (zeros n) "0" ≡ append "0" (zeros n)
zeros-append zero = refl
zeros-append (suc n) =
    append_assoc "0" (zeros n) "0" ∙ ap (λ (s : String). append "0" s) (zeros-append n)

create_difficulty_prefix-zeros : (n : ℕ) → create_difficulty_prefix n ≡ zeros n
unfolding create_difficulty_prefix
create_difficulty_prefix-zeros zero = refl
create_difficulty_prefix-zeros (suc n) =
    ap (λ (s : String). append s "0") (create_difficulty_prefix-zeros n) ∙ zeros-append n

-- A text that has the prefix of a difficulty begins with as many zeros.
begins_with_zeros :
    (s : String) (difficulty : ℕ)
    → starts_with s (create_difficulty_prefix difficulty) ≡ true
    → (rest : String) × (s ≡ append (zeros difficulty) rest)
begins_with_zeros s difficulty h =
    let (rest, e) = (starts_with_iff s (create_difficulty_prefix difficulty)).0 h in
    (rest, sym e ∙ ap (λ (p : String). append p rest) (create_difficulty_prefix-zeros difficulty))

-- The block from which the blocks of a proof are counted: that of the last proof, or the one before
-- this one where none is stored.
abbrev pub IsLast : State → ℕ → ℕ → Type 0
IsLast st height last =
    (st.miner_last_mined_block ≡ some last)
    ⊎ ((st.miner_last_mined_block ≡ none) × (last + 1 ≡ height))

last_mined_block-IsLast :
    (st : State) (height last : ℕ) → last_mined_block st height ≡ ok last → IsLast st height last
last_mined_block-IsLast st height last h = elim (Option-cases st.miner_last_mined_block) [
  | inl e ↦
      let run : sub_uint height 1 ≡ ok last = ground (arith, h, e) in inr (e, ground (arith, run))
  | inr (b, e) ↦ let same : b ≡ last = ground (arith, h, e) in inl (e ∙ ap some same)
]

-- An accepted proof begins with as many zeros as the difficulty says, gives to the validator and to the
-- total the blocks since the last proof, or one where no proof is stored, and makes the miner the receiver
-- of fees.
pub submit_proof_rewards :
    (c : Chain) (env : Env) (sender : String) (nonce : ℕ) (address : String) (st st' : State)
    (msgs : Response)
    → submit_proof c env sender nonce address st ≡ ok (st', msgs)
    → (validator entropy rest : String) × (difficulty last total : ℕ) × (c.query_validator address
        ≡ ok (some validator))
      × (st.miner_entropy ≡ some entropy)
      × (st.miner_difficulty ≡ some difficulty)
      × (c.sha256_proof entropy sender nonce ≡ append (zeros difficulty) rest)
      × IsLast st env.height last
      × (last ≤ env.height)
      × (st.total_mining_power ≡ some total)
      × (st'.total_mining_power ≡ some (total + (env.height - last)))
      × (lookup validator st'.validator_mining_powers
          ≡ some (unwrap_or (lookup validator st.validator_mining_powers) 0 + (env.height - last)))
      × (st'.miner_last_mined_block ≡ some env.height)
      × (st'.fee_account ≡ some sender)
unfolding compute_miner_proof
submit_proof_rewards c env sender nonce address st st' msgs h =
    let p = submit_proof_inv c env sender nonce address st st' msgs h in
    let v = p.validator in
    let powers = st.validator_mining_powers in
    let power = unwrap_or (lookup v powers) 0 + (env.height - p.last_block) in
    let written : lookup v (save v power powers) ≡ some power =
      lookup-save v v power powers ∙ rw (same_self v) refl in
    let (rest, begins) =
      begins_with_zeros (c.sha256_proof p.entropy sender nonce) p.difficulty p.meets in
    (
      v,
      p.entropy,
      rest,
      p.difficulty,
      p.last_block,
      p.total,
      p.is_validator,
      p.is_entropy,
      p.is_difficulty,
      begins,
      last_mined_block-IsLast st env.height p.last_block p.is_last,
      p.in_order,
      p.is_total,
      ap (λ (s : State). s.total_mining_power) p.after,
      ap (λ (s : State). lookup v s.validator_mining_powers) p.after ∙ written,
      ap (λ (s : State). s.miner_last_mined_block) p.after,
      ap (λ (s : State). s.fee_account) p.after,
    )
