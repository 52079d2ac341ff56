-- ===== src/Store/Maps.antt =====
-- The maps of contracts/hub/src/state.rs as association lists: writes, and what they leave.
use liquid_staking.Base.{
  ℕ, ◌+◌, ◌≡◌, refl, inl, inr, List, [], ◌∷◌, if◌then◌else◌, arith, Bool, true, false, Bool-cases,
  Option, none, some, Option-cases,
}
use liquid_staking.Store.Keys.{Key, nat_key, text_key, pair_key}

unfoldable pub is_some {ℓ} : {V : Type ℓ} → Option V → Bool
is_some none = false
is_some (some v) = true

module _ {K V : Type 0} ⦃key : Key K⦄ where
  abbrev pub lookup : K → List (K × V) → Option V
  lookup k [] = none
  lookup k ((j, w) ∷ m) = if key.same k j then some w else lookup k m

  unfoldable pub replace : K → V → List (K × V) → List (K × V)
  replace k v [] = []
  replace k v ((j, w) ∷ m) = if key.same k j then (k, v) ∷ m else (j, w) ∷ replace k v m

  unfoldable pub insert : K → V → List (K × V) → List (K × V)
  insert k v [] = (k, v) ∷ []
  insert k v ((j, w) ∷ m) = if key.before k j then (k, v) ∷ (j, w) ∷ m else (j, w) ∷ insert k v m

  -- `save`, which overwrites or creates.
  unfoldable pub save : K → V → List (K × V) → List (K × V)
  unfolding replace insert is_some
  save k v m = if is_some (lookup k m) then replace k v m else insert k v m

  -- `remove`
  unfoldable pub remove : K → List (K × V) → List (K × V)
  remove k [] = []
  remove k ((j, w) ∷ m) = if key.same k j then m else (j, w) ∷ remove k m

  -- No key stands twice.
  abbrev pub Unique : List (K × V) → Type 0
  Unique [] = Unit
  Unique ((j, w) ∷ m) = (lookup j m ≡ none) × Unique m

  -- The sum of a measure over the entries.
  abbrev pub sum_over : (K → V → ℕ) → List (K × V) → ℕ
  sum_over f [] = 0
  sum_over f ((j, w) ∷ m) = f j w + sum_over f m

  abbrev pub measure : (K → V → ℕ) → K → Option V → ℕ
  measure f k none = 0
  measure f k (some v) = f k v

  lookup-replace :
      (k j : K) (v w : V) (m : List (K × V))
      → lookup k m ≡ some w
      → lookup j (replace k v m) ≡ (if key.same j k then some v else lookup j m)
  unfolding replace
  lookup-replace k j v w [] h = cc
  lookup-replace k j v w ((i, x) ∷ m) h =
      ground (arith, lookup-replace k j v w m, key.same_iff k i, key.same_iff j k, key.same_iff j i)

  lookup-insert :
      (k j : K) (v : V) (m : List (K × V))
      → lookup k m ≡ none
      → lookup j (insert k v m) ≡ (if key.same j k then some v else lookup j m)
  unfolding insert
  lookup-insert k j v [] h = refl
  lookup-insert k j v ((i, x) ∷ m) h =
      ground (arith, lookup-insert k j v m, key.same_iff k i, key.same_iff j k, key.same_iff j i)

  pub lookup-save :
      (k j : K) (v : V) (m : List (K × V))
      → lookup j (save k v m) ≡ (if key.same j k then some v else lookup j m)
  unfolding save
  lookup-save k j v m = elim (Option-cases (lookup k m)) [
    | inl e ↦ rw e (lookup-insert k j v m e)
    | inr (w, e) ↦ rw e (lookup-replace k j v w m e)
  ]

  pub lookup-remove_ne :
      (k j : K) (m : List (K × V)) → key.same j k ≡ false → lookup j (remove k m) ≡ lookup j m
  unfolding remove
  lookup-remove_ne k j [] h = refl
  lookup-remove_ne k j ((i, x) ∷ m) h =
      ground (arith, lookup-remove_ne k j m h, key.same_iff k i, key.same_iff j k, key.same_iff j i)

  pub lookup-remove_self : (k : K) (m : List (K × V)) → Unique m → lookup k (remove k m) ≡ none
  unfolding remove
  lookup-remove_self k [] h = refl
  lookup-remove_self k ((i, x) ∷ m) h = ground (arith, lookup-remove_self k m h.1, key.same_iff k i)

  pub lookup-remove :
      (k j : K) (m : List (K × V))
      → Unique m
      → lookup j (remove k m) ≡ (if key.same j k then none else lookup j m)
  lookup-remove k j m u = elim (Bool-cases (key.same j k)) [
    | inl e ↦ let same : j ≡ k = (key.same_iff j k).0 e in rw (e, same) (lookup-remove_self k m u)
    | inr e ↦ rw e (lookup-remove_ne k j m e)
  ]

  pub Unique-remove : (k : K) (m : List (K × V)) → Unique m → Unique (remove k m)
  unfolding remove
  Unique-remove k [] h = tt
  Unique-remove k ((i, x) ∷ m) h =
      ground
        (arith, Unique-remove k m h.1, lookup-remove_ne k i m, key.same_iff k i, key.same_iff i k)

  lookup-replace_ne :
      (k j : K) (v : V) (m : List (K × V))
      → key.same j k ≡ false
      → lookup j (replace k v m) ≡ lookup j m
  unfolding replace
  lookup-replace_ne k j v [] h = refl
  lookup-replace_ne k j v ((i, x) ∷ m) h =
      ground
        (arith, lookup-replace_ne k j v m h, key.same_iff k i, key.same_iff j k, key.same_iff j i)

  Unique-replace : (k : K) (v : V) (m : List (K × V)) → Unique m → Unique (replace k v m)
  unfolding replace
  Unique-replace k v [] h = tt
  Unique-replace k v ((i, x) ∷ m) h = ground (
    arith,
    Unique-replace k v m h.1,
    lookup-replace_ne k i v m,
    key.same_iff k i,
    key.same_iff i k,
  )

  Unique-insert :
      (k : K) (v : V) (m : List (K × V)) → lookup k m ≡ none → Unique m → Unique (insert k v m)
  unfolding insert
  Unique-insert k v [] n h = (refl, tt)
  Unique-insert k v ((i, x) ∷ m) n h =
      ground (arith, Unique-insert k v m, lookup-insert k i v m, key.same_iff k i, key.same_iff i k)

  pub Unique-save : (k : K) (v : V) (m : List (K × V)) → Unique m → Unique (save k v m)
  unfolding save
  Unique-save k v m h = elim (Option-cases (lookup k m)) [
    | inl e ↦ rw e (Unique-insert k v m e h)
    | inr (w, e) ↦ rw e (Unique-replace k v m h)
  ]

  module _ (f : K → V → ℕ) where
    sum-replace :
        (k : K) (v w : V) (m : List (K × V))
        → lookup k m ≡ some w
        → sum_over f (replace k v m) + f k w ≡ sum_over f m + f k v
    unfolding replace
    sum-replace k v w [] h = cc
    sum-replace k v w ((i, x) ∷ m) h = ground (arith, sum-replace k v w m, key.same_iff k i)

    sum-insert :
        (k : K) (v : V) (m : List (K × V)) → sum_over f (insert k v m) ≡ sum_over f m + f k v
    unfolding insert
    sum-insert k v [] = omega arith
    sum-insert k v ((i, x) ∷ m) = ground (arith, sum-insert k v m)

    -- A write changes a sum by the difference that it makes at its key.
    pub sum-save :
        (k : K) (v : V) (m : List (K × V))
        → sum_over f (save k v m) + measure f k (lookup k m) ≡ sum_over f m + f k v
    unfolding save
    sum-save k v m = elim (Option-cases (lookup k m)) [
      | inl e ↦ rw e (omega (arith, sum-insert k v m))
      | inr (w, e) ↦ rw e (sum-replace k v w m e)
    ]

    pub sum-remove :
        (k : K) (w : V) (m : List (K × V))
        → lookup k m ≡ some w
        → sum_over f (remove k m) + f k w ≡ sum_over f m
    unfolding remove
    sum-remove k w [] h = cc
    sum-remove k w ((i, x) ∷ m) h = ground (arith, sum-remove k w m, key.same_iff k i)
