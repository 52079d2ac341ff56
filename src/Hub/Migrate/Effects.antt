-- ===== src/Hub/Migrate/Effects.antt =====
-- What the migrations of contracts/hub/src/contract.rs and contracts/hub/src/migrations.rs carry over, and
-- what they leave unset.
use liquid_staking.Base.{
  ℕ, String, true, false, none, some, List, [], ◌∷◌, ok, err, load, unwrap_or, str_eq, require,
  ◌||◌, ◌==◌, ◌≡◌, refl, sym, ap, ◌∙◌, wrong_contract, not_found, >>=-elim, arith, Bool-cases, inl,
  inr, ◌⊎◌, load-eq-ok,
}
use liquid_staking.Types.{Batch}
use liquid_staking.Store.{lookup, save, nat_key, text_key, Unique, Every, lookup-save}
use liquid_staking.Chain.{Env, Chain}
use liquid_staking.State.{State}
use liquid_staking.Hub.Mining.{submit_proof}
use liquid_staking.Hub.Migrate.{
  BatchV100, Storage, unversioned, batch_of_v100, save_batches, Arm, v0, v2_1_4, v2_1_5,
  v2_1_6_or_7, v2_1_8, v2_1_12, v2_1_13, v2_1_14, other, arm_of, upgrade_stores, migrate_from,
  migrate,
}

abbrev pub IsNumberedV100 : ℕ → BatchV100 → Type 0
IsNumberedV100 k v = v.id ≡ k

lookup-save_batches-none :
    (id : ℕ) (old : List (ℕ × BatchV100)) (m : List (ℕ × Batch))
    → Every IsNumberedV100 old
    → lookup id old ≡ none
    → lookup id (save_batches old m) ≡ lookup id m
unfolding save_batches
lookup-save_batches-none id [] m n h = refl
lookup-save_batches-none id ((k, v) ∷ old) m n h =
    let apart : (id == k) ≡ false = ground (arith, h) in
    let written = lookup-save v.id id (batch_of_v100 v) m in
    lookup-save_batches-none id old (save v.id (batch_of_v100 v) m) n.1 (ground (arith, h))
    ∙ ground (arith, written, apart, n.0)

lookup-save_batches :
    (id : ℕ) (v : BatchV100) (old : List (ℕ × BatchV100)) (m : List (ℕ × Batch))
    → Every IsNumberedV100 old
    → Unique old
    → lookup id old ≡ some v
    → lookup id (save_batches old m) ≡ some (batch_of_v100 v)
unfolding save_batches
lookup-save_batches id v [] m n u h = absurd (ground arith)
lookup-save_batches id v ((k, w) ∷ old) m n u h = elim (Bool-cases (id == k)) [
  | inr e ↦
      lookup-save_batches id v old (save w.id (batch_of_v100 w) m) n.1 u.1 (ground (arith, h, e))
  | inl e ↦
      let is_k : id ≡ k = ground (arith, e) in
      let is_v : w ≡ v = ground (arith, h, e) in
      let absent : lookup id old ≡ none = rw is_k u.0 in
      let written : lookup id (save w.id (batch_of_v100 w) m) ≡ some (batch_of_v100 w) =
        lookup-save w.id id (batch_of_v100 w) m ∙ ground (arith, is_k, n.0) in
      lookup-save_batches-none id old (save w.id (batch_of_v100 w) m) n.1 absent
      ∙ written
      ∙ ap (λ (x : BatchV100). some (batch_of_v100 x)) is_v
]

-- A batch of the old form as it is to stand in the new store, figure by figure.
pub record IsCarried (v : BatchV100) (b : Batch) : Type 0 where
  pub id : b.id ≡ v.id
  pub reconciled : b.reconciled ≡ v.reconciled
  pub shares : b.total_shares ≡ v.total_shares
  pub unclaimed : b.amount_unclaimed ≡ v.native_token_unclaimed
  pub end_time : b.est_unbond_end_time ≡ v.est_unbond_end_time

-- After a successful upgrade of the stores, where each old batch stands under its own number, once,
-- every old batch is found under its number with the figures that it had, and the validators that delegate are
-- the whitelist; the requests are as they were.
pub upgrade_stores_carries :
    (c : Chain) (env : Env) (old : List (ℕ × BatchV100)) (st st' : State) (id : ℕ) (v : BatchV100)
    → upgrade_stores c env old st ≡ ok st'
    → Every IsNumberedV100 old
    → Unique old
    → lookup id old ≡ some v
    → (b : Batch) × (lookup id st'.previous_batches ≡ some b)
      × IsCarried v b
      × (st'.validators_active ≡ st.validators)
      × (st'.unbond_requests ≡ st.unbond_requests)
unfolding upgrade_stores
upgrade_stores_carries c env old st st' id v h n u found =
    >>=-elim (load st.denom) _ h λ denom _ h₂.
      >>=-elim (c.query_balance env.contract denom) _ h₂ λ balance _ h₃.
        >>=-elim (load st.validators) _ h₃ λ validators e h₄.
          let after : record st {
            prev_denom = some balance;
            previous_batches = save_batches old st.previous_batches;
            validators_active = some validators;
          }
              ≡ st' =
            cc in
          let carried = lookup-save_batches id v old st.previous_batches n u found in
          (
            batch_of_v100 v,
            ap (λ (s : State). lookup id s.previous_batches) (sym after) ∙ carried,
            record {
              id = refl;
              reconciled = refl;
              shares = refl;
              unclaimed = refl;
              end_time = refl;
            },
            ap (λ (s : State). s.validators_active) (sym after) ∙ sym (load-eq-ok _ e),
            ap (λ (s : State). s.unbond_requests) (sym after),
          )

upgrade_stores_entropy :
    (c : Chain) (env : Env) (old : List (ℕ × BatchV100)) (st st' : State)
    → upgrade_stores c env old st ≡ ok st'
    → st'.miner_entropy ≡ st.miner_entropy
unfolding upgrade_stores
upgrade_stores_entropy c env old st st' h = >>=-elim (load st.denom) _ h λ denom _ h₂.
    >>=-elim (c.query_balance env.contract denom) _ h₂
      λ balance _ h₃. >>=-elim (load st.validators) _ h₃ λ validators e h₄. ground (arith, h₄)

-- The arms that do not set the entropy.
migrate_from_entropy :
    (c : Chain) (env : Env) (old : List (ℕ × BatchV100)) (st st' : State) (a : Arm)
    → migrate_from c env old st a ≡ ok st'
    → (a ≡ v2_1_12) ⊎ (st'.miner_entropy ≡ st.miner_entropy)
unfolding migrate_from
migrate_from_entropy c env old st st' v0 h =
    inr (>>=-elim (load st.owner) _ h λ owner _ h₁. upgrade_stores_entropy c env old _ st' h₁)
migrate_from_entropy c env old st st' v2_1_4 h = inr (
    >>=-elim (upgrade_stores c env old st) _ h
      λ mid e h₁. let same = upgrade_stores_entropy c env old st mid e in ground (arith, h₁, same))
migrate_from_entropy c env old st st' v2_1_5 h = inr (
    >>=-elim (upgrade_stores c env old st) _ h
      λ mid e h₁. let same = upgrade_stores_entropy c env old st mid e in ground (arith, h₁, same))
migrate_from_entropy c env old st st' v2_1_6_or_7 h = inr (
    >>=-elim (load st.denom) _ h λ denom _ h₁.
      >>=-elim (c.query_balance env.contract denom) _ h₁ λ balance _ h₂. ground (arith, h₂))
migrate_from_entropy c env old st st' v2_1_8 h = inr (ground (arith, h))
migrate_from_entropy c env old st st' v2_1_12 h = inl refl
migrate_from_entropy c env old st st' v2_1_13 h = inr (ground (arith, h))
migrate_from_entropy c env old st st' v2_1_14 h = inr (ground (arith, h))
migrate_from_entropy c env old st st' other h = inr (ground (arith, h))

arm_of_2_1_12 : (version : String) → arm_of version ≡ v2_1_12 → str_eq version "2.1.12" ≡ true
unfolding arm_of
arm_of_2_1_12 version h = ground (arith, h)

-- A hub that never had an entropy and migrates from any version but 2.1.12 has none afterwards, and
-- refuses every proof of work for a validator that exists.
pub migrate_skips_entropy :
    (c c' : Chain) (env env' : Env) (s s' : Storage) (sender : String) (nonce : ℕ)
    (address validator : String)
    → migrate c env s ≡ ok s'
    → s.hub.miner_entropy ≡ none
    → str_eq (unwrap_or s.contract_version unversioned).version "2.1.12" ≡ false
    → c'.query_validator address ≡ ok (some validator)
    → (s'.hub.miner_entropy ≡ none)
      × (submit_proof c' env' sender nonce address s'.hub ≡ err not_found)
unfolding migrate submit_proof
migrate_skips_entropy c c' env env' s s' sender nonce address validator h unset version known =
    let found = unwrap_or s.contract_version unversioned in
    >>=-elim
      (require (str_eq found.contract "pfc-steak-hub" || str_eq found.contract "steak-hub")
        wrong_contract)
      _ h
      λ _ _ h₁.
        >>=-elim (migrate_from c env s.old_batches s.hub (arm_of found.version)) _ h₁ λ hub e h₂.
          let is_hub : s'.hub ≡ hub = ground (arith, h₂) in
          let none_set : s'.hub.miner_entropy ≡ none =
            elim (migrate_from_entropy c env s.old_batches s.hub hub (arm_of found.version) e) [
              | inl q ↦
                  absurd (let yes = arm_of_2_1_12 found.version q in ground (arith, yes, version))
              | inr same ↦ ap (λ (x : State). x.miner_entropy) is_hub ∙ same ∙ unset
            ] in
          (none_set, rw (known, none_set) refl)
