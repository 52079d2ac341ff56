-- ===== src/Hub/Invariant/Parts.antt =====
-- The invariants of the hub, and how they pass from state to state.
use liquid_staking.Base.{ℕ, String, Option, some, List, ◌≡◌, ◌≤◌, sym, ap, ◌∙◌}
use mathlib.Core.Path.{subst}
use liquid_staking.Uint.{decimal_fractional}
use liquid_staking.Store.{text_key, nat_key, pair_key, sum_over, Unique}
use liquid_staking.State.{State}
use liquid_staking.Hub.Kept.{books, rates, mined, core}
use liquid_staking.Hub.Accounting.{IsValid, IsValid-of}

-- The fee is at most its maximum, which is at most one whole.
abbrev pub IsCapped : Option ℕ × Option ℕ → Type 0
IsCapped (rate, most) =
    (r : ℕ) × (m : ℕ) × (rate ≡ some r) × (most ≡ some m) × (r ≤ m) × (m ≤ decimal_fractional)

abbrev pub power_of : String → ℕ → ℕ
power_of v p = p

-- The difficulty is positive, and the total of the mining powers is what they add up to.
abbrev pub IsMined : Option ℕ × List (String × ℕ) × Option ℕ → Type 0
IsMined (difficulty, powers, total) =
    (d : ℕ) × (t : ℕ) × (difficulty ≡ some d)
    × (total ≡ some t)
    × (1 ≤ d)
    × Unique powers
    × (sum_over power_of powers ≡ t)

pub record IsSound (st : State) : Type 0 where
  pub valid : IsValid st
  pub capped : IsCapped (rates st)
  pub mining : IsMined (mined st)

pub books-IsValid : (st st' : State) → books st' ≡ books st → IsValid st → IsValid st'
books-IsValid st st' e v =
    IsValid-of v.pending _ _ (ap (λ b. b.0) e ∙ v.is_pending) (ap (λ b. b.1) e) (ap (λ b. b.2) e)
      v.accounted

-- From the three views of a state.
pub views-IsSound :
    (st st' : State)
    → IsValid st'
    → rates st' ≡ rates st
    → mined st' ≡ mined st
    → IsSound st
    → IsSound st'
views-IsSound st st' v e e₁ s = record {
  valid = v;
  capped = subst IsCapped (sym e) s.capped;
  mining = subst IsMined (sym e₁) s.mining;
}

pub Kept-IsSound : (st st' : State) → core st' ≡ core st → IsSound st → IsSound st'
Kept-IsSound st st' e s =
    views-IsSound st st' (books-IsValid st st' (ap (λ k. k.0) e) s.valid) (ap (λ k. k.1) e)
      (ap (λ k. k.2) e) s

-- What batches do not concern.
abbrev pub terms : State → (Option ℕ × Option ℕ) × (Option ℕ × List (String × ℕ) × Option ℕ)
terms st = (rates st, mined st)

pub terms-IsSound : (st st' : State) → IsValid st' → terms st' ≡ terms st → IsSound st → IsSound st'
terms-IsSound st st' v e s = views-IsSound st st' v (ap (λ k. k.0) e) (ap (λ k. k.1) e) s
