-- ===== src/Codec/RoundTrip.antt =====
-- Storing and loading the properties of a wiring endpoint.
use node_wiring_secure.Base.{
  ◌<◌, false, CString, same_text, [], ◌∷◌, Option, some, ◌>>=◌, length, map, ◌≡◌, refl, ap, ◌∙◌,
  All,
}
use node_wiring_secure.Celix.{Properties, Status, success}
use node_wiring_secure.Celix.HashMap.{Keyed}
use node_wiring_secure.Codec.{max_value_length, is_blank, store, load}
use node_wiring_secure.Codec.Scanning.{spread}
use node_wiring_secure.Codec.Storing.{text, Fits, store_lem}
use node_wiring_secure.Codec.Loading.{TrimKeeps, read_back, load-text}

-- The values have no blank.
abbrev pub NoBlanks : Properties → Type 0
NoBlanks p = All (λ x. All (λ c. is_blank c ≡ false) x.1) p

spread_same : (v : CString) → All (λ c. is_blank c ≡ false) v → spread v ≡ v
unfolding spread
spread_same [] h = refl
spread_same (c ∷ v) h = rw h.0 (ap (λ s. c ∷ s) (spread_same v h.1))

pub read_back_same :
    (trim : CString → CString) (keeps : TrimKeeps trim) (p : Properties)
    → NoBlanks p
    → map (read_back trim) p ≡ p
read_back_same trim keeps [] h = refl
read_back_same trim keeps ((k, v) ∷ p) h =
    ap (λ w. (k, trim w) ∷ map (read_back trim) p) (spread_same v h.0)
    ∙ ap (λ w. (k, w) ∷ map (read_back trim) p) (keeps v h.0)
    ∙ ap (λ q. (k, v) ∷ q) (read_back_same trim keeps p h.1)

-- What is stored is loaded into a null map or, here, an empty one.
abbrev pub store_then_load :
    (CString → CString) → CString → Properties → Option (Status × Option Properties)
store_then_load trim before p = do stored ← store before p; load trim stored (some [])

module _ (trim : CString → CString) (keeps : TrimKeeps trim) (before : CString)
    (x : CString × CString) (p : Properties) (fits : All Fits (x ∷ p))
    (keyed : Keyed same_text (x ∷ p)) (short : length (text (x ∷ p)) < max_value_length) where
  -- Where trimming keeps texts without blanks, all entries fit their buffers and have no character
  -- that the codec takes for something else, the keys are distinct and the text fits its buffer,
  -- properties that are stored and loaded again are the same, but each blank of a value stands there
  -- twice before the value is trimmed.
  pub load-store :
      store_then_load trim before (x ∷ p) ≡ some (success, some (map (read_back trim) (x ∷ p)))
  load-store = rw (store_lem before x p fits short) (load-text trim keeps (x ∷ p) fits keyed)

  -- Where also no value has a blank, properties that are stored and loaded again are the same.
  pub load-store_same :
      NoBlanks (x ∷ p) → store_then_load trim before (x ∷ p) ≡ some (success, some (x ∷ p))
  load-store_same plain =
      load-store ∙ ap (λ q. some (success, some q)) (read_back_same trim keeps (x ∷ p) plain)
