-- ===== src/Text.antt =====
-- What the hub uses of Rust's texts: `chars`, slices at a byte, `split`, and `parse::<u128>`. A text is
-- taken apart character by character.
pub mod Decimal
use Prim.Native.Char.{Char, code}
use liquid_staking.Base.{
  ◌/◌, ◌%◌, ℕ, zero, suc, String, Bool, true, false, List, [], ◌∷◌, Result, ok, err, panic,
  bad_amount, ◌>>=◌, if◌then◌else◌, ltb, leb, ◌==◌, ◌+◌, ◌-◌, ◌*◌, ◌&&◌,
}
use liquid_staking.Uint.{u128_limit}

-- The bytes of a character in UTF-8.
abbrev pub width : Char → ℕ
width c =
    if ltb (code c) 128
    then 1
    else if ltb (code c) 2048
    then 2
    else if ltb (code c) 65536
    then 3
    else 4

abbrev pub append : String → String → String
append String.[] t = t
append (String.◌∷◌ c s) t = String.◌∷◌ c (append s t)

-- `(&s[..n], &s[n..])`, a panic where byte `n` is past the end or within a character.
unfoldable pub split_at : ℕ → String → Result (String × String)
split_at zero s = ok (String.[], s)
split_at (suc n) String.[] = err panic
split_at (suc n) (String.◌∷◌ c s) =
    let rest = split_at (suc n - width c) s in
    if leb (width c) (suc n)
    then (rest >>= λ (parts : String × String). ok (String.◌∷◌ c parts.0, parts.1))
    else err panic

abbrev pub comma : ℕ
comma = 44

abbrev pub plus : ℕ
plus = 43

-- The first part, and the parts after it.
abbrev pub split_comma : String → String × List String
split_comma String.[] = (String.[], [])
split_comma (String.◌∷◌ c s) =
    let rest = split_comma s in
    if code c == comma then (String.[], rest.0 ∷ rest.1) else (String.◌∷◌ c rest.0, rest.1)

-- `s.split(',')`
abbrev pub split : String → List String
split s = let parts = split_comma s in parts.0 ∷ parts.1

abbrev pub is_empty : String → Bool
is_empty String.[] = true
is_empty (String.◌∷◌ c s) = false

abbrev pub is_digit : Char → Bool
is_digit c = leb 48 (code c) && leb (code c) 57

-- Decimal digits behind the number `n`.
unfoldable pub parse_digits : ℕ → String → Result ℕ
parse_digits n String.[] = ok n
parse_digits n (String.◌∷◌ c s) =
    let m = n * 10 + (code c - 48) in
    let rest = parse_digits m s in
    if is_digit c then (if ltb m u128_limit then rest else err bad_amount) else err bad_amount

-- `Uint128::from_str`, which is `parse::<u128>`: at least one digit, behind a plus sign or not.
unfoldable pub parse_u128 : String → Result ℕ
parse_u128 String.[] = err bad_amount
parse_u128 (String.◌∷◌ c s) =
    if code c == plus
    then (if is_empty s then err bad_amount else parse_digits 0 s)
    else parse_digits 0 (String.◌∷◌ c s)

-- The character of a digit.
abbrev pub digit : ℕ → Char
digit zero = "0"
digit (suc zero) = "1"
digit (suc (suc zero)) = "2"
digit (suc (suc (suc zero))) = "3"
digit (suc (suc (suc (suc zero)))) = "4"
digit (suc (suc (suc (suc (suc zero))))) = "5"
digit (suc (suc (suc (suc (suc (suc zero)))))) = "6"
digit (suc (suc (suc (suc (suc (suc (suc zero))))))) = "7"
digit (suc (suc (suc (suc (suc (suc (suc (suc zero)))))))) = "8"
digit (suc (suc (suc (suc (suc (suc (suc (suc (suc zero))))))))) = "9"
digit (suc (suc (suc (suc (suc (suc (suc (suc (suc (suc n)))))))))) = "9"

-- The digits of a number, in front of `after`; the fuel bounds how many there are.
unfoldable pub to_digits : ℕ → ℕ → String → String
to_digits zero n after = after
to_digits (suc fuel) n after =
    let more = to_digits fuel (n / 10) (String.◌∷◌ (digit (n % 10)) after) in
    if ltb n 10 then String.◌∷◌ (digit n) after else more

-- `u128::to_string`: a `u128` has 39 digits at most.
unfoldable pub to_string : ℕ → String
to_string n = to_digits 39 n String.[]
