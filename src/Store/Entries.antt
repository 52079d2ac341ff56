-- ===== src/Store/Entries.antt =====
-- Properties of every entry of a map of contracts/hub/src/state.rs.
use liquid_staking.Base.{
  ◌≡◌, inl, inr, List, [], ◌∷◌, arith, false, Bool-cases, none, some, Option-cases,
}
use liquid_staking.Store.Keys.{Key, same_self}
use liquid_staking.Store.Maps.{lookup, replace, insert, save, remove, Unique}

-- A property of every entry.
module _ {ℓ} {K V : Type 0} ⦃key : Key K⦄ (P : K → V → Type ℓ) where
  abbrev pub Every : List (K × V) → Type ℓ
  Every [] = Unit
  Every ((j, w) ∷ m) = P j w × Every m

  pub Every-lookup : (k : K) (v : V) (m : List (K × V)) → Every m → lookup k m ≡ some v → P k v
  Every-lookup k v [] h e = absurd (ground arith)
  Every-lookup k v ((j, w) ∷ m) h e = elim (Bool-cases (key.same k j)) [
    | inl q ↦
        let same : k ≡ j = (key.same_iff k j).0 q in
        let v-eq : v ≡ w = ground (arith, q) in rw (same, v-eq) h.0
    | inr q ↦ Every-lookup k v m h.1 (ground (arith, q))
  ]

  Every-replace : (k : K) (v : V) (m : List (K × V)) → P k v → Every m → Every (replace k v m)
  unfolding replace
  Every-replace k v [] p h = tt
  Every-replace k v ((j, w) ∷ m) p h = elim (Bool-cases (key.same k j)) [
    | inl q ↦ rw q (p, h.1)
    | inr q ↦ rw q (h.0, Every-replace k v m p h.1)
  ]

  Every-insert : (k : K) (v : V) (m : List (K × V)) → P k v → Every m → Every (insert k v m)
  unfolding insert
  Every-insert k v [] p h = (p, tt)
  Every-insert k v ((j, w) ∷ m) p h = elim (Bool-cases (key.before k j)) [
    | inl q ↦ rw q (p, h)
    | inr q ↦ rw q (h.0, Every-insert k v m p h.1)
  ]

  pub Every-save : (k : K) (v : V) (m : List (K × V)) → P k v → Every m → Every (save k v m)
  unfolding save
  Every-save k v m p h = elim (Option-cases (lookup k m)) [
    | inl e ↦ rw e (Every-insert k v m p h)
    | inr (w, e) ↦ rw e (Every-replace k v m p h)
  ]

  pub Every-remove : (k : K) (m : List (K × V)) → Every m → Every (remove k m)
  unfolding remove
  Every-remove k [] h = tt
  Every-remove k ((j, w) ∷ m) h = elim (Bool-cases (key.same k j)) [
    | inl q ↦ rw q h.1
    | inr q ↦ rw q (h.0, Every-remove k m h.1)
  ]

module _ {K V : Type 0} ⦃key : Key K⦄ where
  pub Every-weaken {ℓ κ} :
      (P : K → V → Type ℓ) (Q : K → V → Type κ) (m : List (K × V))
      → ((k : K) (v : V) → P k v → Q k v)
      → Every P m
      → Every Q m
  Every-weaken P Q [] f h = tt
  Every-weaken P Q ((j, w) ∷ m) f h = (f j w h.0, Every-weaken P Q m f h.1)

  -- A key that is not found differs from the key of every entry.
  pub Every-differs :
      (k : K) (m : List (K × V)) → lookup k m ≡ none → Every (λ j w. key.same k j ≡ false) m
  Every-differs k [] h = tt
  Every-differs k ((j, w) ∷ m) h = elim (Bool-cases (key.same k j)) [
    | inl e ↦ absurd (ground (arith, e))
    | inr e ↦ (e, Every-differs k m (ground (arith, e)))
  ]

  -- Where no key stands twice, each entry is found under its key.
  pub Every-found : (m : List (K × V)) → Unique m → Every (λ k v. lookup k m ≡ some v) m
  Every-found [] h = tt
  Every-found ((j, w) ∷ m) h = (
    ground (arith, same_self j),
    Every-weaken (λ k v. lookup k m ≡ some v) (λ k v. lookup k ((j, w) ∷ m) ≡ some v) m
        (λ k v e. ground (arith, e, h.0, key.same_iff k j)) (Every-found m h.1),
  )
