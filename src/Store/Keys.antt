-- ===== src/Store/Keys.antt =====
-- The keys of the maps of contracts/hub/src/state.rs.
use liquid_staking.Base.{
  ℕ, ◌≡◌, refl, ◌↔◌, arith, Bool, true, ◌==◌, ltb, String, str_eq, eq_iff, ◌&&◌, ◌||◌,
}
use Prim.Native.String.{compare}
use text.Mathlib.Text.{is_lt}

-- How keys are compared: `same` decides equality, and a new entry is put in front of those that it
-- comes `before`.
pub record Key (K : Type 0) : Type 0 where
  pub same : K → K → Bool
  pub same_iff : (a b : K) → (same a b ≡ true) ↔ (a ≡ b)
  pub before : K → K → Bool

pub nat_same_iff : (a b : ℕ) → ((a == b) ≡ true) ↔ (a ≡ b)
nat_same_iff a b = ground arith

-- `u64` keys, in ascending order.
instance abbrev pub nat_key : Key ℕ
nat_key = record { same = ◌==◌; same_iff = nat_same_iff; before = ltb }

-- `String` keys, in the order of their bytes.
abbrev pub text_before : String → String → Bool
text_before a b = is_lt (compare a b)

instance abbrev pub text_key : Key String
text_key = record { same = str_eq; same_iff = eq_iff; before = text_before }

abbrev pub same_pair : ℕ × String → ℕ × String → Bool
same_pair (a, s) (b, t) = a == b && str_eq s t

pub same_pair_iff : (p q : ℕ × String) → (same_pair p q ≡ true) ↔ (p ≡ q)
same_pair_iff (a, s) (b, t) = (λ h. ground (arith, eq_iff s t), λ h. ground (arith, eq_iff s t))

abbrev pub pair_before : ℕ × String → ℕ × String → Bool
pair_before (a, s) (b, t) = ltb a b || (a == b && text_before s t)

-- `(u64, &Addr)` keys, in the order of their numbers, then of their texts.
instance abbrev pub pair_key : Key (ℕ × String)
pair_key = record { same = same_pair; same_iff = same_pair_iff; before = pair_before }

pub same_self : {K : Type 0} ⦃key : Key K⦄ (k : K) → key.same k k ≡ true
same_self ⦃key⦄ k = (key.same_iff k k).1 refl
