-- ===== src/Coins.antt =====
-- contracts/hub/src/types/coins.rs: amounts of coins by denomination.
pub mod FromStr
use liquid_staking.Base.{
  ℕ, String, false, ◌+◌, ◌≡◌, refl, List, [], ◌∷◌, Result, ok, err, overflow, ◌>>=◌, if◌then◌else◌,
  str_eq, eq_iff, ltb, arith, Bool-cases, inl, inr, >>=-eq-ok, Result-cases, sum_by, All,
}
use liquid_staking.Uint.{u128_limit}
use liquid_staking.Types.{Coin}

-- `Coins::add`, with `checked_add`: the first coin of the denomination grows, or the coin is put at
-- the end.
unfoldable pub add : List Coin → Coin → Result (List Coin)
add [] coin_to_add = ok (coin_to_add ∷ [])
add (coin ∷ coins) coin_to_add =
    let rest = (do coins' ← add coins coin_to_add; ok (coin ∷ coins')) in
    let sum = coin.amount + coin_to_add.amount in
    if str_eq coin.denom coin_to_add.denom
    then (if ltb sum u128_limit then ok (record coin { amount = sum } ∷ coins) else err overflow)
    else rest

-- `Coins::add_many`
unfoldable pub add_many : List Coin → List Coin → Result (List Coin)
add_many coins [] = ok coins
add_many coins (coin_to_add ∷ more) = do coins' ← add coins coin_to_add; add_many coins' more

-- `Coins::find`, with an amount of zero where there is no coin of the denomination.
unfoldable pub find : List Coin → String → Coin
find [] denom = record { denom = denom; amount = 0 }
find (coin ∷ coins) denom = if str_eq coin.denom denom then coin else find coins denom

-- What coins have of a denomination: the amount of the first one.
abbrev pub first_in : String → List Coin → ℕ
first_in denom [] = 0
first_in denom (coin ∷ coins) =
    if str_eq denom coin.denom then coin.amount else first_in denom coins

-- `find` gives that coin, and zero where there is none.
pub find-first_in :
    (denom : String) (coins : List Coin) → (find coins denom).amount ≡ first_in denom coins
unfolding find
find-first_in denom [] = refl
find-first_in denom (coin ∷ coins) =
    ground (arith, find-first_in denom coins, eq_iff coin.denom denom, eq_iff denom coin.denom)

-- After a successful `add`, `find` gives the old amount, and the added one on top in its denomination.
pub find-add :
    (denom : String) (coins : List Coin) (coin : Coin) (coins' : List Coin)
    → add coins coin ≡ ok coins'
    → (find coins' denom).amount
      ≡ (find coins denom).amount + (if str_eq coin.denom denom then coin.amount else 0)
unfolding add find
find-add denom [] coin coins' h = ground arith
find-add denom (x ∷ xs) coin coins' h = elim (Bool-cases (str_eq x.denom coin.denom)) [
  | inl e ↦ ground (arith, e, eq_iff x.denom coin.denom)
  | inr e ↦ elim (Result-cases (add xs coin)) [
    | inl (ys, q) ↦ ground (
      arith,
      e,
      q,
      find-add denom xs coin ys q,
      eq_iff x.denom coin.denom,
      eq_iff x.denom denom,
      eq_iff coin.denom denom,
    )
    | inr (x, q) ↦ absurd (ground (arith, e, q))
  ]
]

abbrev pub total_in : String → List Coin → ℕ
total_in denom = sum_by (λ (c : Coin). if str_eq c.denom denom then c.amount else 0)

-- `add_many` raises what is found of each denomination by all that was added of it.
pub find-add_many :
    (denom : String) (coins more coins' : List Coin)
    → add_many coins more ≡ ok coins'
    → (find coins' denom).amount ≡ (find coins denom).amount + total_in denom more
unfolding add_many
find-add_many denom coins [] coins' h = let e : coins' ≡ coins = cc in rw e (omega arith)
find-add_many denom coins (c ∷ more) coins' h =
    let (mid, e, h₁) = >>=-eq-ok (add coins c) _ h in
    omega (arith, find-add_many denom mid more coins' h₁, find-add denom coins c mid e)

-- No denomination stands twice.
abbrev pub IsDistinct : List Coin → Type 0
IsDistinct [] = Unit
IsDistinct (c ∷ cs) = All (λ (d : Coin). str_eq c.denom d.denom ≡ false) cs × IsDistinct cs

All-add :
    (P : String → Type 0) (coins : List Coin) (coin : Coin) (coins' : List Coin)
    → add coins coin ≡ ok coins'
    → P coin.denom
    → All (λ (d : Coin). P d.denom) coins
    → All (λ (d : Coin). P d.denom) coins'
unfolding add
All-add P [] coin coins' h p q = let e : coins' ≡ coin ∷ [] = cc in rw e (p, tt)
All-add P (x ∷ xs) coin coins' h p q = elim (Bool-cases (str_eq x.denom coin.denom)) [
  | inl e ↦
      let (y, r, s) : (y : Coin) × (coins' ≡ y ∷ xs) × (y.denom ≡ x.denom) =
        (record x { amount = x.amount + coin.amount }, ground (arith, e), refl) in
      rw (r, s) q
  | inr e ↦ elim (Result-cases (add xs coin)) [
    | inl (ys, r) ↦
        let s : coins' ≡ x ∷ ys = ground (arith, e, r) in rw s (q.0, All-add P xs coin ys r p q.1)
    | inr (x, r) ↦ absurd (ground (arith, e, r))
  ]
]

-- `add` keeps the denominations distinct.
pub add-IsDistinct :
    (coins : List Coin) (coin : Coin) (coins' : List Coin)
    → add coins coin ≡ ok coins'
    → IsDistinct coins
    → IsDistinct coins'
unfolding add
add-IsDistinct [] coin coins' h d = let e : coins' ≡ coin ∷ [] = cc in rw e (tt, tt)
add-IsDistinct (x ∷ xs) coin coins' h d = elim (Bool-cases (str_eq x.denom coin.denom)) [
  | inl e ↦
      let r : coins' ≡ record x { amount = x.amount + coin.amount } ∷ xs = ground (arith, e) in
      rw r d
  | inr e ↦ elim (Result-cases (add xs coin)) [
    | inl (ys, r) ↦
        let s : coins' ≡ x ∷ ys = ground (arith, e, r) in
        rw s (
          All-add (λ (t : String). str_eq x.denom t ≡ false) xs coin ys r e d.0,
          add-IsDistinct xs coin ys r d.1,
        )
    | inr (x, r) ↦ absurd (ground (arith, e, r))
  ]
]
