-- ===== src/Celix/HashMap/Removal.antt =====
-- Maps in which every key stands once, under insertion and removal.
use node_wiring_secure.Base.{Bool, true, false, [], ◌∷◌, none, ◌≡◌, refl, arith, if◌then◌else◌, ◌↔◌}
use node_wiring_secure.Celix.HashMap.{Map, lookup, insert, remove, Keyed, lookup-insert, AllValues}

module _ {ℓ κ} {K : Type ℓ} {V : Type κ} (same : K → K → Bool)
    (same_iff : (a b : K) → (same a b ≡ true) ↔ (a ≡ b)) where
  pub lookup-remove :
      (k j : K) (m : Map K V)
      → Keyed same m
      → lookup same j (remove same k m) ≡ (if same j k then none else lookup same j m)
  unfolding lookup remove
  lookup-remove k j [] h = ground arith
  lookup-remove k j ((i, w) ∷ m) h =
      ground (arith, same_iff k i, same_iff j i, same_iff j k, lookup-remove k j m h.1)

  pub insert-Keyed : (k : K) (v : V) (m : Map K V) → Keyed same m → Keyed same (insert same k v m)
  unfolding lookup insert
  insert-Keyed k v [] h = (refl, tt)
  insert-Keyed k v ((i, w) ∷ m) h = ground (
    arith,
    same_iff k i,
    same_iff i k,
    insert-Keyed k v m h.1,
    lookup-insert same same_iff k i v m,
  )

  pub remove-Keyed : (k : K) (m : Map K V) → Keyed same m → Keyed same (remove same k m)
  unfolding lookup remove
  remove-Keyed k [] h = h
  remove-Keyed k ((i, w) ∷ m) h =
      ground (arith, same_iff k i, same_iff i k, remove-Keyed k m h.1, lookup-remove k i m h.1)

module _ {ℓ κ μ} {K : Type ℓ} {V : Type κ} (P : V → Type μ) (same : K → K → Bool) where
  pub remove-AllValues :
      (k : K) (m : Map K V) → AllValues P same m → AllValues P same (remove same k m)
  unfolding remove
  remove-AllValues k [] h = h
  remove-AllValues k ((i, w) ∷ m) h = go (same k i) (remove-AllValues k m h.1)
    where
      go :
          (b : Bool)
          → AllValues P same (remove same k m)
          → AllValues P same (if b then m else (i, w) ∷ remove same k m)
      go true r = h.1
      go false r = (h.0, r)
