-- ===== src/Store/Ordered.antt =====
-- A map of contracts/hub/src/state.rs with numbers as keys is kept in ascending order.
use liquid_staking.Base.{
  ℕ, ◌≡◌, ◌<◌, inl, inr, List, [], ◌∷◌, arith, Bool-cases, none, Option-cases, ltb, ◌==◌,
}
use liquid_staking.Store.Keys.{nat_key}
use liquid_staking.Store.Maps.{lookup, replace, insert, save, remove}
use liquid_staking.Store.Entries.{Every, Every-weaken, Every-remove}

module _ {V : Type 0} where
  -- Every key is after `k`.
  abbrev pub Above : ℕ → List (ℕ × V) → Type 0
  Above k m = Every (λ j (_ : V). k < j) m

  abbrev pub IsAscending : List (ℕ × V) → Type 0
  IsAscending [] = Unit
  IsAscending ((k, v) ∷ m) = Above k m × IsAscending m

  pub Above-weaken : (k j : ℕ) (m : List (ℕ × V)) → k < j → Above j m → Above k m
  Above-weaken k j m lt h =
      Every-weaken (λ i (_ : V). j < i) (λ i (_ : V). k < i) m
        (λ i _ above. omega (arith, above, lt)) h

  replace-Above : (j k : ℕ) (v : V) (m : List (ℕ × V)) → Above j m → Above j (replace k v m)
  unfolding replace
  replace-Above j k v [] h = tt
  replace-Above j k v ((i, w) ∷ m) (lt, h) = elim (Bool-cases (k == i)) [
    | inl e ↦ rw e (ground (arith, e, lt), h)
    | inr e ↦ rw e (lt, replace-Above j k v m h)
  ]

  replace-IsAscending :
      (k : ℕ) (v : V) (m : List (ℕ × V)) → IsAscending m → IsAscending (replace k v m)
  unfolding replace
  replace-IsAscending k v [] h = tt
  replace-IsAscending k v ((j, w) ∷ m) (above, h) = elim (Bool-cases (k == j)) [
    | inl e ↦ let same : j ≡ k = ground (arith, e) in rw e (rw same at above, h)
    | inr e ↦ rw e (replace-Above j k v m above, replace-IsAscending k v m h)
  ]

  insert-Above : (j k : ℕ) (v : V) (m : List (ℕ × V)) → j < k → Above j m → Above j (insert k v m)
  unfolding insert
  insert-Above j k v [] lt h = (lt, tt)
  insert-Above j k v ((i, w) ∷ m) lt (below, h) = elim (Bool-cases (ltb k i)) [
    | inl e ↦ rw e (lt, (below, h))
    | inr e ↦ rw e (below, insert-Above j k v m lt h)
  ]

  insert-IsAscending :
      (k : ℕ) (v : V) (m : List (ℕ × V))
      → lookup k m ≡ none
      → IsAscending m
      → IsAscending (insert k v m)
  unfolding insert
  insert-IsAscending k v [] absent h = (tt, tt)
  insert-IsAscending k v ((j, w) ∷ m) absent (above, h) = elim (Bool-cases (ltb k j)) [
    | inl e ↦
        let lt : k < j = ground (arith, e) in rw e ((lt, Above-weaken k j m lt above), (above, h))
    | inr e ↦ elim (Bool-cases (k == j)) [
      | inl q ↦ absurd (ground (arith, q, absent))
      | inr q ↦
          let lt : j < k = ground (arith, e, q) in
          rw e
            (insert-Above j k v m lt above, insert-IsAscending k v m (ground (arith, q, absent)) h)
    ]
  ]

  pub save-IsAscending :
      (k : ℕ) (v : V) (m : List (ℕ × V)) → IsAscending m → IsAscending (save k v m)
  unfolding save
  save-IsAscending k v m h = elim (Option-cases (lookup k m)) [
    | inl e ↦ rw e (insert-IsAscending k v m e h)
    | inr (w, e) ↦ rw e (replace-IsAscending k v m h)
  ]

  pub remove-IsAscending : (k : ℕ) (m : List (ℕ × V)) → IsAscending m → IsAscending (remove k m)
  unfolding remove
  remove-IsAscending k [] h = tt
  remove-IsAscending k ((j, w) ∷ m) (above, h) = elim (Bool-cases (k == j)) [
    | inl e ↦ rw e h
    | inr e ↦ rw e (Every-remove (λ i (_ : V). j < i) k m above, remove-IsAscending k m h)
  ]
