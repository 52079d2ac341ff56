-- ===== src/Coins/FromStr.antt =====
-- `parse_coin` of contracts/hub/src/helpers.rs and `Coins::from_str` of contracts/hub/src/types/coins.rs.
pub mod Printed
use Prim.Native.Char.{Char, code}
use liquid_staking.Base.{
  ℕ, zero, suc, String, Bool, true, false, List, [], ◌∷◌, Result, ok, err, bad_coin, ◌>>=◌,
  if◌then◌else◌, ltb, leb, not, ◌==◌, ◌+◌, ◌-◌, ◌*◌, ◌&&◌, ◌||◌, ◌<◌, ◌≡◌, refl, arith, map, sym,
  ap, ◌∙◌, Bool-cases, inl, inr, All,
}
use liquid_staking.Types.{Coin}
use liquid_staking.Text.{
  append, split_at, split, split_comma, is_empty, is_digit, parse_u128, parse_digits, comma, plus,
}
use liquid_staking.Uint.{u128_limit}

abbrev pub is_ascii_letter : Char → Bool
is_ascii_letter c = (leb 65 (code c) && leb (code c) 90) || (leb 97 (code c) && leb (code c) 122)

-- `char::is_alphabetic`, which is a table of Unicode; among the ASCII characters it holds of the
-- letters.
pub record Alphabet : Type 0 where
  pub is_alphabetic : Char → Bool
  pub is_alphabetic_ascii : (c : Char) → code c < 128 → is_alphabetic c ≡ is_ascii_letter c

module _ (u : Alphabet) where
  -- The loop of `parse_coin`, from the character of number `i` on; that number serves as a byte.
  unfoldable pub parse_coin_from : String → ℕ → String → Result Coin
  parse_coin_from s i String.[] = err bad_coin
  parse_coin_from s i (String.◌∷◌ c rest) =
      let next = parse_coin_from s (i + 1) rest in
      if u.is_alphabetic c
      then (do
        (amount_str, denom) ← split_at i s
        amount ← parse_u128 amount_str
        ok (record { denom = denom; amount = amount }))
      else next

  unfoldable pub parse_coin : String → Result Coin
  parse_coin s = parse_coin_from s 0 s

  -- The parts that are not empty, parsed; the first error ends it.
  unfoldable pub parse_coins : List String → Result (List Coin)
  parse_coins [] = ok []
  parse_coins (s ∷ rest) =
      let more = parse_coins rest in
      if is_empty s then more else (do coin ← parse_coin s; coins ← more; ok (coin ∷ coins))

  unfoldable pub from_str : String → Result (List Coin)
  from_str s = if is_empty s then ok [] else parse_coins (split s)
