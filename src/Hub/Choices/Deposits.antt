-- ===== src/Hub/Choices/Deposits.antt =====
-- The validator of a deposit and what it mints, in `bond` of contracts/hub/src/execute.rs.
use liquid_staking.Base.{
  ℕ, Bool-cases, List, [], ◌∷◌, ok, if◌then◌else◌, ltb, ◌≡◌, ◌≤◌, ◌<◌, ◌+◌, ◌*◌, ◌==◌, ◌⊎◌, inl,
  inr, refl, sym, ap, ◌∙◌, arith, All,
}
use mathlib.Core.Path.{subst}
use liquid_staking.Types.{Delegation}
use liquid_staking.Chain.{Chain}
use liquid_staking.Math.Exchange.{
  bonded, compute_mint_amount, compute_mint_amount_floor, compute_mint_amount_first,
}
use liquid_staking.Hub.Bond.{smallest, pick_smallest}

abbrev pub Chosen : Delegation → List Delegation → Type 0
Chosen d [] = ⊥
Chosen d (x ∷ xs) = (d ≡ x) ⊎ Chosen d xs

smallest-least :
    (b : Delegation) (ds : List Delegation)
    → Chosen (smallest b ds) (b ∷ ds)
      × ((smallest b ds).amount ≤ b.amount)
      × All (λ (d : Delegation). (smallest b ds).amount ≤ d.amount) ds
unfolding smallest
smallest-least b [] = (inl refl, omega arith, tt)
smallest-least b (d ∷ ds) =
    let next = if ltb d.amount b.amount then d else b in
    let (chosen, least, rest) = smallest-least next ds in
    elim (Bool-cases (ltb d.amount b.amount)) [
      | inl e ↦
          let is_d : next ≡ d = rw e refl in
          let same = ap (λ (x : Delegation). x.amount) is_d in
          (
            elim chosen [ inl i ↦ inr (inl (i ∙ is_d)) | inr i ↦ inr (inr i) ],
            ground (arith, least, same, e),
            (ground (arith, least, same), rest),
          )
      | inr e ↦
          let is_b : next ≡ b = rw e refl in
          let same = ap (λ (x : Delegation). x.amount) is_b in
          (
            elim chosen [ inl i ↦ inl (i ∙ is_b) | inr i ↦ inr (inr i) ],
            ground (arith, least, same),
            (ground (arith, least, same, e), rest),
          )
    ]

-- The validator that is picked is one of the list, and none of the list has a smaller delegation.
pub pick_smallest_least :
    (ds : List Delegation) (best : Delegation)
    → pick_smallest ds ≡ ok best
    → Chosen best ds × All (λ (d : Delegation). best.amount ≤ d.amount) ds
unfolding pick_smallest
pick_smallest_least [] best h = absurd cc
pick_smallest_least (d ∷ ds) best h =
    let same : smallest d ds ≡ best = cc in
    let (chosen, least, rest) = smallest-least d ds in
    subst
      (λ (x : Delegation).
        Chosen x (d ∷ ds) × All (λ (y : Delegation). x.amount ≤ y.amount) (d ∷ ds))
      same (chosen, (least, rest))

-- What a deposit of `amount` mints: its worth by the supply and by what is bonded, rounded down, and as
-- many units where nothing is bonded yet.
abbrev pub IsWorth : ℕ → ℕ → ℕ → ℕ → Type 0
IsWorth supply bonded amount minted =
    ((0 < bonded) × (minted * bonded ≤ supply * amount) × (supply * amount < (minted + 1) * bonded))
    ⊎ ((bonded ≡ 0) × (minted ≡ amount))

pub compute_mint_amount-IsWorth :
    (c : Chain) (supply amount minted : ℕ) (ds : List Delegation)
    → compute_mint_amount c.math supply amount ds ≡ ok minted
    → IsWorth supply (bonded ds) amount minted
compute_mint_amount-IsWorth c supply amount minted ds h = elim (Bool-cases (bonded ds == 0)) [
  | inl e ↦
      let empty : bonded ds ≡ 0 = ground (arith, e) in
      let first = compute_mint_amount_first c.math supply amount ds empty in
      let same : ok amount ≡ ok minted = sym first ∙ h in
      let same' : minted ≡ amount = cc in inr (empty, same')
  | inr e ↦
      let pos : 0 < bonded ds = ground (arith, e) in
      let (low, high) = compute_mint_amount_floor c.math supply amount minted ds pos h in
      inl (pos, low, high)
]
