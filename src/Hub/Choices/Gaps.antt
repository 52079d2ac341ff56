-- ===== src/Hub/Choices/Gaps.antt =====
-- The search of `reinvest` in contracts/hub/src/execute.rs for a validator.
use liquid_staking.Base.{
  ◌&&◌, Result, ℕ, String, Bool-cases, List, [], ◌∷◌, ok, >>=-elim, ltb, ◌≡◌, ◌||◌, ◌⊎◌, inl, inr,
  refl, sym, ap, ◌∙◌,
}
use liquid_staking.Types.{Delegation}
use liquid_staking.Hub.Reinvest.{
  Gap, cmp, is_gt, exceeds, abs_diff, first_gap, wider_gap, widest_gap, pick_gap,
}

-- A validator of one of the delegations.
abbrev pub Among : String → List Delegation → Type 0
Among v [] = ⊥
Among v (d ∷ ds) = (v ≡ d.validator) ⊎ Among v ds

wider_gap_validator :
    (gap : Gap) (d : Delegation) (target : ℕ)
    → ((wider_gap gap d target).validator ≡ gap.validator)
      ⊎ ((wider_gap gap d target).validator ≡ d.validator)
unfolding wider_gap
wider_gap_validator gap d target =
    let order = cmp target d.amount in
    elim (Bool-cases
      (exceeds order gap.order || (is_gt order && ltb gap.diff (abs_diff target d.amount)))) [
        | inl e ↦ rw e (inr refl)
        | inr e ↦ rw e (inl refl)
      ]

widest_gap-Among :
    (target : Delegation → Result ℕ) (gap best : Gap) (ds : List Delegation)
    → widest_gap target gap ds ≡ ok best
    → (best.validator ≡ gap.validator) ⊎ Among best.validator ds
unfolding widest_gap
widest_gap-Among target gap best [] h =
    let same : gap ≡ best = cc in inl (ap (λ (g : Gap). g.validator) (sym same))
widest_gap-Among target gap best (d ∷ ds) h = >>=-elim (target d) _ h λ t _ h₁.
    elim (widest_gap-Among target (wider_gap gap d t) best ds h₁) [
      | inr more ↦ inr (inr more)
      | inl here ↦ elim (wider_gap_validator gap d t) [
        | inl kept ↦ inl (here ∙ kept)
        | inr wider ↦ inr (inl (here ∙ wider))
      ]
    ]

pub pick_gap-Among :
    (target : Delegation → Result ℕ) (best : Gap) (ds : List Delegation)
    → pick_gap target ds ≡ ok best
    → Among best.validator ds
unfolding pick_gap
pick_gap-Among target best [] h = absurd cc
pick_gap-Among target best (d ∷ ds) h =
    >>=-elim (target d) _ h λ t _ h₁. widest_gap-Among target (first_gap d t) best ds h₁
