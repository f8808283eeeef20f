-- ===== src/Celix/HashMap.antt =====
-- `hash_map_pt`: the list of the entries in iteration order, and the key test that it was created
-- with. A key stands at most once; `hashMap_get` on a missing key is `none`.
pub mod Removal
use mathlib.Core.Option.{none-ne-some, some-injective}
use node_wiring_secure.Base.{
  Bool, true, false, List, [], ◌∷◌, ◌++◌, ◌≡◌, refl, Option, none, some, arith, if◌then◌else◌, ◌↔◌,
  Bool-cases, inl, inr, subst, ap, sym, ◌∙◌,
}

abbrev pub Map {ℓ κ} : Type ℓ → Type κ → Type (ℓ ⊔ κ)
Map K V = List (K × V)

module _ {ℓ κ} {K : Type ℓ} {V : Type κ} where
  -- hashMap_get, hashMap_getEntry
  unfoldable pub lookup : (K → K → Bool) → K → Map K V → Option V
  lookup same k [] = none
  lookup same k ((j, v) ∷ m) = if same k j then some v else lookup same k m

  -- hashMap_put: the value of an entry that is there is replaced, and its key stays.
  unfoldable pub insert : (K → K → Bool) → K → V → Map K V → Map K V
  insert same k v [] = (k, v) ∷ []
  insert same k v ((j, w) ∷ m) = if same k j then (j, v) ∷ m else (j, w) ∷ insert same k v m

  -- hashMap_remove
  unfoldable pub remove : (K → K → Bool) → K → Map K V → Map K V
  remove same k [] = []
  remove same k ((j, w) ∷ m) = if same k j then m else (j, w) ∷ remove same k m

  module _ (same : K → K → Bool) (same_iff : (a b : K) → (same a b ≡ true) ↔ (a ≡ b)) where
    pub lookup-insert :
        (k j : K) (v : V) (m : Map K V)
        → lookup same j (insert same k v m) ≡ (if same j k then some v else lookup same j m)
    unfolding lookup insert
    lookup-insert k j v [] = refl
    lookup-insert k j v ((i, w) ∷ m) =
        ground (arith, same_iff k i, same_iff j i, same_iff j k, lookup-insert k j v m)

module _ {ℓ κ μ} {K : Type ℓ} {V : Type κ} (P : V → Type μ) (same : K → K → Bool) where
  -- Every value of the map satisfies `P`.
  abbrev pub AllValues : Map K V → Type μ
  AllValues [] = Unit
  AllValues ((k, v) ∷ m) = P v × AllValues m

  pub lookup-AllValues :
      (k : K) (m : Map K V) (v : V) → AllValues m → lookup same k m ≡ some v → P v
  unfolding lookup
  lookup-AllValues k [] v h p = absurd (none-ne-some v p)
  lookup-AllValues k ((j, w) ∷ m) v h p = elim (Bool-cases (same k j)) [
    | inl hit ↦
        subst P (some-injective w v (ap (λ b. if b then some w else lookup same k m) (sym hit) ∙ p))
          h.0
    | inr miss ↦
        lookup-AllValues k m v h.1 (ap (λ b. if b then some w else lookup same k m) (sym miss) ∙ p)
  ]

  pub insert-AllValues :
      (k : K) (v : V) (m : Map K V) → P v → AllValues m → AllValues (insert same k v m)
  unfolding insert
  insert-AllValues k v [] p h = (p, tt)
  insert-AllValues k v ((j, w) ∷ m) p h = go (same k j) (insert-AllValues k v m p h.1)
    where
      go :
          (b : Bool)
          → AllValues (insert same k v m)
          → AllValues (if b then (j, v) ∷ m else (j, w) ∷ insert same k v m)
      go true r = (p, h.1)
      go false r = (h.0, r)

module _ {ℓ κ} {K : Type ℓ} {V : Type κ} (same : K → K → Bool) where
  pub insert_same : (k : K) (v : V) (m : Map K V) → lookup same k m ≡ some v → insert same k v m ≡ m
  unfolding lookup insert
  insert_same k v [] h = absurd (none-ne-some v h)
  insert_same k v ((j, w) ∷ m) h = elim (Bool-cases (same k j)) [
    | inl hit ↦ rw hit (
        ap (λ x. (j, x) ∷ m)
          (sym
            (some-injective w v (ap (λ b. if b then some w else lookup same k m) (sym hit) ∙ h))))
    | inr miss ↦ rw miss (
        ap (λ l. (j, w) ∷ l)
          (insert_same k v m (ap (λ b. if b then some w else lookup same k m) (sym miss) ∙ h)))
  ]

module _ {ℓ κ} {K : Type ℓ} {V : Type κ} (same : K → K → Bool) where
  -- What is put under a key is found there, if the key test answers so for the key itself.
  pub lookup-insert_self :
      (k : K) (v : V) (m : Map K V) → same k k ≡ true → lookup same k (insert same k v m) ≡ some v
  unfolding lookup insert
  lookup-insert_self k v [] h = rw h
  lookup-insert_self k v ((j, w) ∷ m) h = elim (Bool-cases (same k j)) [
    | inl hit ↦ rw (hit, hit)
    | inr miss ↦ rw (miss, miss) (lookup-insert_self k v m h)
  ]

  -- Every key stands once.
  abbrev pub Keyed : Map K V → Type κ
  Keyed [] = Unit
  Keyed ((k, v) ∷ m) = (lookup same k m ≡ none) × Keyed m

  pub lookup-remove_self :
      (same_iff : (a b : K) → (same a b ≡ true) ↔ (a ≡ b)) (k : K) (m : Map K V)
      → Keyed m
      → lookup same k (remove same k m) ≡ none
  unfolding lookup remove
  lookup-remove_self same_iff k [] h = refl
  lookup-remove_self same_iff k ((j, w) ∷ m) h = elim (Bool-cases (same k j)) [
    | inl hit ↦ rw hit (ap (λ i. lookup same i m) ((same_iff k j).0 hit) ∙ h.0)
    | inr miss ↦ rw (miss, miss) (lookup-remove_self same_iff k m h.1)
  ]

  pub insert_absent :
      (k : K) (v : V) (m : Map K V)
      → lookup same k m ≡ none
      → insert same k v m ≡ m ++ ((k, v) ∷ [])
  unfolding lookup insert
  insert_absent k v [] h = refl
  insert_absent k v ((j, w) ∷ m) h = elim (Bool-cases (same k j)) [
    | inl hit ↦
        absurd (none-ne-some w (sym h ∙ ap (λ b. if b then some w else lookup same k m) hit))
    | inr miss ↦ rw miss (
        ap (λ l. (j, w) ∷ l)
          (insert_absent k v m (ap (λ b. if b then some w else lookup same k m) (sym miss) ∙ h)))
  ]

  pub lookup-append :
      (k j : K) (v : V) (m : Map K V)
      → lookup same j m ≡ none
      → same j k ≡ false
      → lookup same j (m ++ ((k, v) ∷ [])) ≡ none
  unfolding lookup
  lookup-append k j v [] h miss = rw miss
  lookup-append k j v ((i, w) ∷ m) h miss = elim (Bool-cases (same j i)) [
    | inl hit ↦
        absurd (none-ne-some w (sym h ∙ ap (λ b. if b then some w else lookup same j m) hit))
    | inr miss' ↦ rw miss' (
        lookup-append k j v m (ap (λ b. if b then some w else lookup same j m) (sym miss') ∙ h)
          miss)
  ]

  pub remove_absent : (k : K) (m : Map K V) → lookup same k m ≡ none → remove same k m ≡ m
  unfolding lookup remove
  remove_absent k [] h = refl
  remove_absent k ((j, w) ∷ m) h = elim (Bool-cases (same k j)) [
    | inl hit ↦
        absurd (none-ne-some w (sym h ∙ ap (λ b. if b then some w else lookup same k m) hit))
    | inr miss ↦ rw miss (
        ap (λ l. (j, w) ∷ l)
          (remove_absent k m (ap (λ b. if b then some w else lookup same k m) (sym miss) ∙ h)))
  ]
