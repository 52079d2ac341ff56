-- ===== src/Helpers.antt =====
-- contracts/hub/src/helpers.rs: the queries, and the check of the funds of a deposit.
use liquid_staking.Base.{
  ℕ, String, List, [], ◌∷◌, Result, ok, err, not_one_coin, wrong_denom, zero_deposit, ◌>>=◌,
  if◌then◌else◌, str_eq, unwrap_or, ◌==◌, Option, some, none, ◌≡◌, ◌<◌, ◌⊎◌, inl, inr, refl,
  >>=-elim, arith, eq_iff, Bool-cases, ap,
}
use liquid_staking.Types.{Delegation, Coin}
use liquid_staking.Chain.{Chain}
use mathlib.Core.Path.{subst}

module _ (c : Chain) where
  unfoldable pub query_delegation : String → String → String → Result Delegation
  query_delegation validator delegator denom = do
    found ← c.query_delegation delegator validator
    ok (record { validator = validator; amount = unwrap_or found 0; denom = denom })

  unfoldable pub query_delegations : List String → String → String → Result (List Delegation)
  query_delegations [] delegator denom = ok []
  query_delegations (v ∷ vs) delegator denom = do
    d ← query_delegation v delegator denom
    ds ← query_delegations vs delegator denom
    ok (d ∷ ds)

unfoldable pub parse_received_fund : List Coin → String → Result ℕ
parse_received_fund [] denom = err not_one_coin
parse_received_fund (fund ∷ []) denom =
    if str_eq fund.denom denom
    then (if fund.amount == 0 then err zero_deposit else ok fund.amount)
    else err wrong_denom
parse_received_fund (fund ∷ other ∷ funds) denom = err not_one_coin

-- `ds` are the delegations that the chain names for the validators `vs`, in their order, with zero where
-- it knows of none.
abbrev pub Delegated : Chain → String → String → List String → List Delegation → Type 0
Delegated c delegator denom [] [] = Unit
Delegated c delegator denom (v ∷ vs) (d ∷ ds) =
    (d.validator ≡ v)
    × (d.denom ≡ denom)
    × ((c.query_delegation delegator v ≡ ok (some d.amount))
        ⊎ ((c.query_delegation delegator v ≡ ok none) × (d.amount ≡ 0)))
    × Delegated c delegator denom vs ds
Delegated c delegator denom [] (d ∷ ds) = ⊥
Delegated c delegator denom (v ∷ vs) [] = ⊥

named_by_chain :
    (c : Chain) (v delegator : String) (found : Option ℕ)
    → c.query_delegation delegator v ≡ ok found
    → (c.query_delegation delegator v ≡ ok (some (unwrap_or found 0)))
      ⊎ ((c.query_delegation delegator v ≡ ok none) × (unwrap_or found 0 ≡ 0))
named_by_chain c v delegator none e = inr (e, refl)
named_by_chain c v delegator (some n) e = inl e

-- A successful query gives the delegations that the chain names.
pub query_delegations-Delegated :
    (c : Chain) (vs : List String) (delegator denom : String) (ds : List Delegation)
    → query_delegations c vs delegator denom ≡ ok ds
    → Delegated c delegator denom vs ds
unfolding query_delegations query_delegation
query_delegations-Delegated c [] delegator denom [] h = tt
query_delegations-Delegated c [] delegator denom (d ∷ ds) h = absurd cc
query_delegations-Delegated c (v ∷ vs) delegator denom ds h =
    >>=-elim (query_delegation c v delegator denom) _ h λ d e h₁.
      >>=-elim (query_delegations c vs delegator denom) _ h₁ λ rest e₁ h₂.
        >>=-elim (c.query_delegation delegator v) _ e λ found e₂ h₃.
          let after : d ∷ rest ≡ ds = cc in
          let named : record { validator = v; amount = unwrap_or found 0; denom = denom } ≡ d =
            cc in
          subst (λ (l : List Delegation). Delegated c delegator denom (v ∷ vs) l) after
            (subst (λ (x : Delegation). Delegated c delegator denom (v ∷ vs) (x ∷ rest)) named
              (
                refl,
                refl,
                named_by_chain c v delegator found e₂,
                query_delegations-Delegated c vs delegator denom rest e₁,
              ))

-- Funds that are accepted are one coin of the denomination, and not zero of it.
pub parse_received_fund_inv :
    (funds : List Coin) (denom : String) (amount : ℕ)
    → parse_received_fund funds denom ≡ ok amount
    → (funds ≡ record { denom = denom; amount = amount } ∷ []) × (0 < amount)
unfolding parse_received_fund
parse_received_fund_inv [] denom amount h = absurd cc
parse_received_fund_inv (fund ∷ []) denom amount h = elim (Bool-cases (str_eq fund.denom denom)) [
  | inl e ↦
      let is_denom : fund.denom ≡ denom = (eq_iff fund.denom denom).0 e in
      let is_amount : fund.amount ≡ amount = ground (arith, h, e) in
      let is_coin : fund ≡ record { denom = denom; amount = amount } = cc in
      (ap (λ (f : Coin). f ∷ []) is_coin, ground (arith, h, e))
  | inr e ↦ absurd (ground (arith, h, e))
]
parse_received_fund_inv (fund ∷ other ∷ funds) denom amount h = absurd cc
