-- ===== src/Coins/FromStr/Printed.antt =====
-- Coins as the chain prints them, decimal digits before the denomination and commas between the coins,
-- are read back by contracts/hub/src/types/coins.rs.
use Prim.Native.Char.{Char, code}
use liquid_staking.Base.{
  ℕ, suc, String, true, false, List, [], ◌∷◌, ok, leb, ◌==◌, ◌+◌, ◌-◌, ◌<◌, ◌≡◌, refl, arith, map,
  sym, ap, ◌∙◌, All,
}
use liquid_staking.Types.{Coin}
use liquid_staking.Text.{to_string, append, split_at, split, split_comma, is_empty, comma, width}
use liquid_staking.Text.Decimal.{
  Digits, count, value, parse_u128-value, to_string-Digits, to_string_some, value-to_string,
}
use liquid_staking.Uint.{u128_limit}
use liquid_staking.Coins.FromStr.{Alphabet, parse_coin_from, parse_coin, parse_coins, from_str}

split_at-append : (s t : String) → Digits s → split_at (count s) (append s t) ≡ ok (s, t)
unfolding split_at
split_at-append String.[] t h = refl
split_at-append (String.◌∷◌ c s) t h =
    let one : width c ≡ 1 = ground (arith, h.0) in
    let rest = split_at-append s t h.1 in
    let back : suc (count s) - 1 ≡ count s = omega arith in
    let enough : leb 1 (suc (count s)) ≡ true = ground arith in
    rw (one, split_at) (rw (enough, back, rest) refl)

abbrev pub comma_char : Char
comma_char = ","

-- Texts with commas between them.
abbrev pub join : List String → String
join [] = String.[]
join (s ∷ []) = s
join (s ∷ t ∷ more) = append s (String.◌∷◌ comma_char (join (t ∷ more)))

abbrev pub NoComma : String → Type 0
NoComma String.[] = Unit
NoComma (String.◌∷◌ c s) = ((code c == comma) ≡ false) × NoComma s

append-NoComma : (s t : String) → NoComma s → NoComma t → NoComma (append s t)
append-NoComma String.[] t h k = k
append-NoComma (String.◌∷◌ c s) t h k = (h.0, append-NoComma s t h.1 k)

Digits-NoComma : (s : String) → Digits s → NoComma s
Digits-NoComma String.[] h = tt
Digits-NoComma (String.◌∷◌ c s) h = (ground (arith, h.0), Digits-NoComma s h.1)

split_comma-NoComma : (s : String) → NoComma s → split_comma s ≡ (s, [])
split_comma-NoComma String.[] h = refl
split_comma-NoComma (String.◌∷◌ c s) h = rw (h.0, split_comma-NoComma s h.1) refl

split_comma-append :
    (s t : String) → NoComma s → split_comma (append s (String.◌∷◌ comma_char t)) ≡ (s, split t)
split_comma-append String.[] t h = refl
split_comma-append (String.◌∷◌ c s) t h = rw (h.0, split_comma-append s t h.1) refl

-- Splitting undoes joining.
split-join :
    (s : String) (more : List String) → All NoComma (s ∷ more) → split (join (s ∷ more)) ≡ s ∷ more
split-join s [] h = rw (split_comma-NoComma s h.0) refl
split-join s (t ∷ more) h =
    rw (split_comma-append s (join (t ∷ more)) h.0)
      (ap (λ (l : List String). s ∷ l) (split-join t more h.1))

module _ (u : Alphabet) where
  parse_coin_from-append :
      (all s : String) (i : ℕ) (t : String)
      → Digits s
      → parse_coin_from u all i (append s t) ≡ parse_coin_from u all (i + count s) t
  unfolding parse_coin_from
  parse_coin_from-append all String.[] i t h =
      ap (λ (j : ℕ). parse_coin_from u all j t) (omega arith)
  parse_coin_from-append all (String.◌∷◌ c s) i t h =
      let no_letter : u.is_alphabetic c ≡ false =
        u.is_alphabetic_ascii c (ground (arith, h.0)) ∙ ground (arith, h.0) in
      let rest = parse_coin_from-append all s (i + 1) t h.1 in
      rw no_letter (rest ∙ ap (λ (j : ℕ). parse_coin_from u all j t) (omega arith))

  -- A coin that is printed as digits and a denomination that starts with a letter.
  pub record Printed (digits denom : String) : Type 0 where
    pub letter : Char
    pub after : String
    pub are_digits : Digits digits
    pub some_digit : is_empty digits ≡ false
    pub fits : value 0 digits < u128_limit
    pub named : denom ≡ String.◌∷◌ letter after
    pub is_letter : u.is_alphabetic letter ≡ true

  parse_coin-Printed :
      (digits denom : String)
      → Printed digits denom
      → parse_coin u (append digits denom) ≡ ok (record { denom = denom; amount = value 0 digits })
  unfolding parse_coin parse_coin_from
  parse_coin-Printed digits denom p =
      let all = append digits denom in
      let skips = parse_coin_from-append all digits 0 denom p.are_digits in
      let from_zero : 0 + count digits ≡ count digits = omega arith in
      let cut : split_at (0 + count digits) all ≡ ok (digits, denom) =
        rw from_zero (split_at-append digits denom p.are_digits) in
      let number = parse_u128-value digits p.are_digits p.some_digit p.fits in
      skips ∙ rw p.named (rw (p.is_letter, sym p.named, cut, number) refl)

  -- `Coin::to_string`
  abbrev pub print : Coin → String
  print coin = append (to_string coin.amount) coin.denom

  -- A coin with an amount that fits 128 bits, and a denomination that starts with a letter and has no
  -- comma.
  pub record IsCoin (coin : Coin) : Type 0 where
    pub letter : Char
    pub after : String
    pub fits : coin.amount < u128_limit
    pub named : coin.denom ≡ String.◌∷◌ letter after
    pub is_letter : u.is_alphabetic letter ≡ true
    pub no_comma : NoComma coin.denom

  print-NoComma : (c : Coin) → IsCoin c → NoComma (print c)
  print-NoComma c p =
      append-NoComma (to_string c.amount) c.denom
        (Digits-NoComma (to_string c.amount) (to_string-Digits c.amount)) p.no_comma

  All-NoComma : (cs : List Coin) → All IsCoin cs → All NoComma (map print cs)
  All-NoComma [] h = tt
  All-NoComma (c ∷ cs) h = (print-NoComma c h.0, All-NoComma cs h.1)

  append_some : (s t : String) → is_empty s ≡ false → is_empty (append s t) ≡ false
  append_some String.[] t h = absurd cc
  append_some (String.◌∷◌ c s) t h = refl

  -- A coin is read back from its text.
  parse_coin-print : (c : Coin) → IsCoin c → parse_coin u (print c) ≡ ok c
  parse_coin-print c p =
      let exact = value-to_string c.amount p.fits in
      parse_coin-Printed (to_string c.amount) c.denom (record {
        letter = p.letter;
        after = p.after;
        are_digits = to_string-Digits c.amount;
        some_digit = to_string_some c.amount;
        fits = omega (arith, exact, p.fits);
        named = p.named;
        is_letter = p.is_letter;
      })
      ∙ ap (λ (n : ℕ). ok (record { denom = c.denom; amount = n })) exact

  print_some : (c : Coin) → is_empty (print c) ≡ false
  print_some c = append_some (to_string c.amount) c.denom (to_string_some c.amount)

  parse_coins-print : (cs : List Coin) → All IsCoin cs → parse_coins u (map print cs) ≡ ok cs
  unfolding parse_coins
  parse_coins-print [] h = refl
  parse_coins-print (c ∷ cs) h =
      let some_text = print_some c in
      let one = parse_coin-print c h.0 in rw (some_text, one, parse_coins-print cs h.1) refl

  join_some :
      (s : String) (more : List String) → is_empty s ≡ false → is_empty (join (s ∷ more)) ≡ false
  join_some s [] h = h
  join_some s (t ∷ more) h = append_some s (String.◌∷◌ comma_char (join (t ∷ more))) h

  -- Coins that are printed as decimal digits and a denomination, with commas between them, are read
  -- back as they are, if their amounts fit 128 bits and their denominations start with a letter and
  -- have no comma.
  pub from_str_printed : (cs : List Coin) → All IsCoin cs → from_str u (join (map print cs)) ≡ ok cs
  unfolding from_str
  from_str_printed [] h = refl
  from_str_printed (c ∷ cs) h =
      let some_text = join_some (print c) (map print cs) (print_some c) in
      rw (some_text, split-join (print c) (map print cs) (All-NoComma (c ∷ cs) h))
        (parse_coins-print (c ∷ cs) h)
