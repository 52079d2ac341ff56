-- ===== src/Hub/Replies/Received.antt =====
-- What `register_received_coins` of contracts/hub/src/execute.rs adds to the unlocked coins.
use liquid_staking.Base.{
  ℕ, String, true, false, Option, none, some, if◌then◌else◌, ok_or, missing_attribute, ◌>>=◌, List,
  [], ◌∷◌, Result, ok, err, load, str_eq, ◌+◌, ◌≡◌, refl, sym, ◌∙◌, ap, arith, Bool-cases, inl, inr,
  >>=-elim, sum_by, All, eq_iff,
}
use liquid_staking.Types.{Coin}
use liquid_staking.Coins
use liquid_staking.Coins.FromStr.{Alphabet, from_str}
use liquid_staking.Chain.{Env, Response}
use liquid_staking.State.{State}
use liquid_staking.Hub.Replies.{
  Attribute, Event, find_attribute, coin_received, parse_coin_receiving_event, add_events,
  register_coins, register_received_coins,
}

-- What a list of coins, if it is one, has of a denomination.
abbrev pub said : Result (List Coin) → String → ℕ
said (err e) denom = 0
said (ok coins) denom = Coins.total_in denom coins

-- The value of an attribute: that of the first one with the key.
abbrev pub value_of : String → List Attribute → Option String
value_of key [] = none
value_of key (a ∷ rest) = if str_eq key a.key then some a.value else value_of key rest

-- The coins of an event of received coins, if `hub` is the receiver that it names.
abbrev pub credited : Alphabet → String → String → Event → ℕ
credited u hub denom e = elim (str_eq e.ty "coin_received") [
  | false ↦ 0
  | true ↦ elim (value_of "receiver" e.attributes) [
    | none ↦ 0
    | some receiver ↦ elim (str_eq receiver hub) [
      | false ↦ 0
      | true ↦ elim (value_of "amount" e.attributes) [
        | none ↦ 0
        | some amount ↦ said (from_str u amount) denom
      ]
    ]
  ]
]

-- What events say that the hub received of a denomination.
abbrev pub credited_by : Alphabet → String → String → List Event → ℕ
credited_by u hub denom = sum_by (credited u hub denom)

add_many-IsDistinct :
    (coins more coins' : List Coin)
    → Coins.add_many coins more ≡ ok coins'
    → Coins.IsDistinct coins
    → Coins.IsDistinct coins'
unfolding Coins.add_many
add_many-IsDistinct coins [] coins' h d = let e : coins' ≡ coins = cc in rw e d
add_many-IsDistinct coins (c ∷ more) coins' h d =
    >>=-elim (Coins.add coins c) _ h
      λ mid e h₁. add_many-IsDistinct mid more coins' h₁ (Coins.add-IsDistinct coins c mid e d)

-- Where denominations are distinct, `find` gives all there is of one.
none_of :
    (denom : String) (coins : List Coin)
    → All (λ (c : Coin). str_eq denom c.denom ≡ false) coins
    → Coins.total_in denom coins ≡ 0
none_of denom [] h = refl
none_of denom (c ∷ cs) h =
    ground (arith, h.0, none_of denom cs h.1, eq_iff denom c.denom, eq_iff c.denom denom)

find-eq-total :
    (denom : String) (coins : List Coin)
    → Coins.IsDistinct coins
    → (Coins.find coins denom).amount ≡ Coins.total_in denom coins
unfolding Coins.find
find-eq-total denom [] d = refl
find-eq-total denom (c ∷ cs) d = elim (Bool-cases (str_eq c.denom denom)) [
  | inl e ↦
      let same : c.denom ≡ denom = (eq_iff c.denom denom).0 e in
      let rest = none_of c.denom cs d.0 in
      let rest' : Coins.total_in denom cs ≡ 0 = rw same at rest in rw e (omega (arith, rest'))
  | inr e ↦ rw e (omega (arith, find-eq-total denom cs d.1))
]

find_attribute-eq-value_of :
    (key : String) (l : List Attribute) → find_attribute key l ≡ value_of key l
unfolding find_attribute
find_attribute-eq-value_of key [] = refl
find_attribute-eq-value_of key (a ∷ rest) =
    ground (arith, find_attribute-eq-value_of key rest, eq_iff key a.key, eq_iff a.key key)

found : {A : Type 0} (o : Option A) {a : A} → ok_or o missing_attribute ≡ ok a → o ≡ some a
found none h = absurd cc
found (some a) h = cc

-- An event of received coins that is read says what it credits.
said-credited :
    (u : Alphabet) (env : Env) (denom : String) (e : Event) (coins : List Coin)
    → parse_coin_receiving_event u env e ≡ ok coins
    → str_eq e.ty "coin_received" ≡ true
    → Coins.total_in denom coins ≡ credited u env.contract denom e
unfolding parse_coin_receiving_event
said-credited u env denom e coins h kind =
    >>=-elim (ok_or (find_attribute "receiver" e.attributes) missing_attribute) _ h λ receiver q h₁.
      >>=-elim (ok_or (find_attribute "amount" e.attributes) missing_attribute) _ h₁ λ amount q₁ h₂.
        let is_receiver : value_of "receiver" e.attributes ≡ some receiver =
          sym (find_attribute-eq-value_of "receiver" e.attributes) ∙ found _ q in
        let is_amount : value_of "amount" e.attributes ≡ some amount =
          sym (find_attribute-eq-value_of "amount" e.attributes) ∙ found _ q₁ in
        elim (Bool-cases (str_eq receiver env.contract)) [
          | inl mine ↦
              let read : from_str u amount ≡ ok coins = ground (arith, h₂, mine) in
              rw (credited, kind, is_receiver, mine, is_amount, read) refl
          | inr other ↦
              let nothing : [] ≡ coins = ground (arith, h₂, other) in
              rw (credited, kind, is_receiver, other, sym nothing) refl
        ]

-- The loop over the events that are kept adds what all events credit.
add_events_sum :
    (u : Alphabet) (env : Env) (denom : String) (acc : List Coin) (events : List Event)
    (received : List Coin)
    → add_events u env acc (coin_received events) ≡ ok received
    → Coins.IsDistinct acc
    → Coins.IsDistinct received
      × ((Coins.find received denom).amount
          ≡ (Coins.find acc denom).amount + credited_by u env.contract denom events)
unfolding add_events coin_received
add_events_sum u env denom acc [] received h d =
    let e : received ≡ acc = cc in rw e (d, omega arith)
add_events_sum u env denom acc (event ∷ events) received h d =
    elim (Bool-cases (str_eq event.ty "coin_received")) [
      | inr other ↦
          let run : add_events u env acc (coin_received events) ≡ ok received =
            ground (arith, h, other) in
          let (d', more) = add_events_sum u env denom acc events received run d in
          let nothing : credited u env.contract denom event ≡ 0 = rw (credited, other) refl in
          (d', omega (arith, more, nothing))
      | inl kind ↦
          let run : (parse_coin_receiving_event u env event >>= λ coins.
          Coins.add_many acc coins >>= λ mid. add_events u env mid (coin_received events))
              ≡ ok received =
            ground (arith, h, kind) in
          >>=-elim (parse_coin_receiving_event u env event) _ run λ coins e h₁.
            >>=-elim (Coins.add_many acc coins) _ h₁ λ mid e₁ h₂.
              let (d', more) =
                add_events_sum u env denom mid events received h₂
                  (add_many-IsDistinct acc coins mid e₁ d) in
              let step = Coins.find-add_many denom acc coins mid e₁ in
              let here = said-credited u env denom event coins e kind in
              (d', omega (arith, more, step, here))
    ]

nothing_found : (denom : String) → (Coins.find [] denom).amount ≡ 0
unfolding Coins.find
nothing_found denom = refl

-- What is stored for events that add up to `n`.
register_coins_adds :
    (u : Alphabet) (env : Env) (kept : List Event) (n : ℕ) (st st' : State) (msgs : Response)
    (coins : List Coin) (denom : String)
    → register_coins u env kept st ≡ ok (st', msgs)
    → st.unlocked_coins ≡ some coins
    → ((received : List Coin)
        → add_events u env [] kept ≡ ok received
        → Coins.IsDistinct received × ((Coins.find received denom).amount ≡ n))
    → (coins' : List Coin) × (st'.unlocked_coins ≡ some coins')
      × ((Coins.find coins' denom).amount ≡ (Coins.find coins denom).amount + n)
unfolding register_coins add_events
register_coins_adds u env [] n st st' msgs coins denom h unlocked sums =
    let same : st' ≡ st = cc in
    let (_, total) = sums [] refl in
    let none_yet : (Coins.find [] denom).amount ≡ 0 = nothing_found denom in
    (coins, ap (λ (s : State). s.unlocked_coins) same ∙ unlocked, omega (arith, total, none_yet))
register_coins_adds u env (e ∷ kept) n st st' msgs coins denom h unlocked sums =
    >>=-elim (add_events u env [] (e ∷ kept)) _ h λ received q h₁.
      >>=-elim (load st.unlocked_coins) _ h₁ λ old q₁ h₂.
        >>=-elim (Coins.add_many old received) _ h₂ λ coins' q₂ h₃.
          let is_old : old ≡ coins = ground (arith, unlocked, q₁) in
          let (distinct, total) = sums received q in
          let all = find-eq-total denom received distinct in
          let added = Coins.find-add_many denom old received coins' q₂ in
          let was : (Coins.find old denom).amount ≡ (Coins.find coins denom).amount =
            ap (λ (l : List Coin). (Coins.find l denom).amount) is_old in
          let after : record st { unlocked_coins = some coins' } ≡ st' = cc in
          (
            coins',
            sym (ap (λ (s : State). s.unlocked_coins) after),
            omega (arith, total, all, added, was),
          )

-- A reply to an undelegation or a redelegation that the hub accepts raises what its unlocked coins have of
-- each denomination by what the events of the type `coin_received` say that the hub received: of each event
-- that names the hub as its receiver, the coins of its amount.
pub register_received_coins_adds :
    (u : Alphabet) (env : Env) (events : List Event) (st st' : State) (msgs : Response)
    (coins : List Coin) (denom : String)
    → register_received_coins u env events st ≡ ok (st', msgs)
    → st.unlocked_coins ≡ some coins
    → (coins' : List Coin) × (st'.unlocked_coins ≡ some coins')
      × (Coins.first_in denom coins'
          ≡ Coins.first_in denom coins + credited_by u env.contract denom events)
unfolding register_received_coins
register_received_coins_adds u env events st st' msgs coins denom h unlocked =
    let n = credited_by u env.contract denom events in
    let none_yet = nothing_found denom in
    let (coins', stored, adds) =
      register_coins_adds u env (coin_received events) n st st' msgs coins denom h unlocked
        λ received run.
          let (distinct, total) = add_events_sum u env denom [] events received run tt in
          (distinct, omega (arith, total, none_yet)) in
    let was = Coins.find-first_in denom coins in
    let now = Coins.find-first_in denom coins' in (coins', stored, omega (arith, adds, was, now))
