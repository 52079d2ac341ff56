-- ===== src/Text/Decimal.antt =====
-- Decimal digits, and that reading undoes printing.
use Prim.Native.Char.{code}
use native.Mathlib.Nat.{div-add-mod, mod-lt, pow-suc}
use liquid_staking.Base.{
  ℕ, zero, suc, String, true, false, ok, ltb, ◌==◌, ◌+◌, ◌-◌, ◌*◌, ◌/◌, ◌%◌, ◌^◌, ◌<◌, ◌≤◌, ◌≡◌,
  refl, arith, ap, ◌∙◌, sym, Bool-cases, inl, inr,
}
use liquid_staking.Text.{
  is_empty, is_digit, parse_u128, parse_digits, plus, digit, to_digits, to_string,
}
use liquid_staking.Uint.{u128_limit}

abbrev pub Digits : String → Type 0
Digits String.[] = Unit
Digits (String.◌∷◌ c s) = (is_digit c ≡ true) × Digits s

abbrev pub count : String → ℕ
count String.[] = 0
count (String.◌∷◌ c s) = suc (count s)

-- The number that digits spell behind `n`.
abbrev pub value : ℕ → String → ℕ
value n String.[] = n
value n (String.◌∷◌ c s) = value (n * 10 + (code c - 48)) s

le-value : (n : ℕ) (s : String) → n ≤ value n s
le-value n String.[] = omega arith
le-value n (String.◌∷◌ c s) = omega (arith, le-value (n * 10 + (code c - 48)) s)

parse_digits-value :
    (n : ℕ) (s : String) → Digits s → value n s < u128_limit → parse_digits n s ≡ ok (value n s)
unfolding parse_digits
parse_digits-value n String.[] h fits = refl
parse_digits-value n (String.◌∷◌ c s) h fits =
    let m = n * 10 + (code c - 48) in
    let below : ltb m u128_limit ≡ true = ground (arith, le-value m s, fits) in
    rw (h.0, below) (parse_digits-value m s h.1 fits)

pub parse_u128-value :
    (s : String)
    → Digits s
    → is_empty s ≡ false
    → value 0 s < u128_limit
    → parse_u128 s ≡ ok (value 0 s)
unfolding parse_u128
parse_u128-value String.[] h some_digit fits = absurd cc
parse_u128-value (String.◌∷◌ c s) h some_digit fits =
    let no_plus : (code c == plus) ≡ false = ground (arith, h.0) in
    rw no_plus (parse_digits-value 0 (String.◌∷◌ c s) h fits)

code-digit : (d : ℕ) → d < 10 → code (digit d) ≡ 48 + d
code-digit zero h = refl
code-digit (suc zero) h = refl
code-digit (suc (suc zero)) h = refl
code-digit (suc (suc (suc zero))) h = refl
code-digit (suc (suc (suc (suc zero)))) h = refl
code-digit (suc (suc (suc (suc (suc zero))))) h = refl
code-digit (suc (suc (suc (suc (suc (suc zero)))))) h = refl
code-digit (suc (suc (suc (suc (suc (suc (suc zero))))))) h = refl
code-digit (suc (suc (suc (suc (suc (suc (suc (suc zero)))))))) h = refl
code-digit (suc (suc (suc (suc (suc (suc (suc (suc (suc zero))))))))) h = refl
code-digit (suc (suc (suc (suc (suc (suc (suc (suc (suc (suc n)))))))))) h =
    absurd (omega (arith, h))

digit-is_digit : (d : ℕ) → d < 10 → is_digit (digit d) ≡ true
digit-is_digit d h = ground (arith, code-digit d h)

to_digits-Digits : (fuel n : ℕ) (after : String) → Digits after → Digits (to_digits fuel n after)
unfolding to_digits
to_digits-Digits zero n after h = h
to_digits-Digits (suc fuel) n after h =
    let last = digit-is_digit (n % 10) (mod-lt n (omega arith)) in
    elim (Bool-cases (ltb n 10)) [
      | inl e ↦ rw e (digit-is_digit n (ground (arith, e)), h)
      | inr e ↦ rw e (to_digits-Digits fuel (n / 10) (String.◌∷◌ (digit (n % 10)) after) (last, h))
    ]

value-to_digits :
    (fuel n : ℕ) (after : String) → n < 10 ^ fuel → value 0 (to_digits fuel n after) ≡ value n after
unfolding to_digits
value-to_digits zero n after h =
    let none_left : n ≡ 0 = omega (arith, h) in ap (λ (k : ℕ). value k after) (sym none_left)
value-to_digits (suc fuel) n after h = elim (Bool-cases (ltb n 10)) [
  | inl e ↦
      let one : 0 * 10 + (code (digit n) - 48) ≡ n =
        omega (arith, code-digit n (ground (arith, e))) in
      rw e (ap (λ (k : ℕ). value k after) one)
  | inr e ↦
      let parts = div-add-mod n 10 in
      let small : n % 10 < 10 = mod-lt n (omega arith) in
      let fewer : n / 10 < 10 ^ fuel = omega (arith, h, parts, pow-suc 10 fuel) in
      let rest = value-to_digits fuel (n / 10) (String.◌∷◌ (digit (n % 10)) after) fewer in
      let joined : n / 10 * 10 + (code (digit (n % 10)) - 48) ≡ n =
        omega (arith, parts, code-digit (n % 10) small) in
      rw e (rest ∙ ap (λ (k : ℕ). value k after) joined)
]

to_digits_some :
    (fuel n : ℕ) (after : String)
    → is_empty after ≡ false
    → is_empty (to_digits fuel n after) ≡ false
unfolding to_digits
to_digits_some zero n after h = h
to_digits_some (suc fuel) n after h = elim (Bool-cases (ltb n 10)) [
  | inl e ↦ rw e refl
  | inr e ↦ rw e (to_digits_some fuel (n / 10) (String.◌∷◌ (digit (n % 10)) after) refl)
]

pub to_string-Digits : (n : ℕ) → Digits (to_string n)
unfolding to_string
to_string-Digits n = to_digits-Digits 39 n String.[] tt

pub to_string_some : (n : ℕ) → is_empty (to_string n) ≡ false
unfolding to_string to_digits
to_string_some n = elim (Bool-cases (ltb n 10)) [
  | inl e ↦ rw e refl
  | inr e ↦ rw e (to_digits_some 38 (n / 10) (String.◌∷◌ (digit (n % 10)) String.[]) refl)
]

pub value-to_string : (n : ℕ) → n < u128_limit → value 0 (to_string n) ≡ n
unfolding to_string
value-to_string n fits = value-to_digits 39 n String.[] (omega (arith, fits))

-- A number that fits 128 bits is read back from its text.
pub parse_u128-to_string : (n : ℕ) → n < u128_limit → parse_u128 (to_string n) ≡ ok n
parse_u128-to_string n fits =
    let exact = value-to_string n fits in
    parse_u128-value (to_string n) (to_string-Digits n) (to_string_some n)
      (omega (arith, exact, fits))
    ∙ ap (λ (k : ℕ). ok k) exact
