-- ===== src/Codec/Tests.antt =====
-- Tests and witnesses for the codec of wiring endpoints.
use node_wiring_secure.Base.{
  ℕ, zero, suc, any, ◌<◌, true, CString, codes, same_text, [], ◌∷◌, none, some, length, ◌≡◌, ◌≢◌,
  refl, All, arith,
}
use node_wiring_secure.Celix.{Properties, success}
use node_wiring_secure.Celix.HashMap.{Keyed, lookup}
use node_wiring_secure.Codec.{max_value_length, is_blank, is_escaped, escape, store}
use node_wiring_secure.Codec.Scanning.{spread, IsKeyByte, IsValueByte}
use node_wiring_secure.Codec.Storing.{Fits, text}
use node_wiring_secure.Codec.Loading.{TrimKeeps}
use node_wiring_secure.Codec.Overflow.{is_long, store-overflow}
use node_wiring_secure.Codec.RoundTrip.{NoBlanks, store_then_load, load-store_same}

-- Trimming that keeps everything.
abbrev kept : CString → CString
kept s = s

kept-TrimKeeps : TrimKeeps kept
kept-TrimKeeps s h = refl

abbrev address : CString × CString
address = (codes "u", codes "a=#")

abbrev zone : Properties
zone = (codes "z", codes "b:") ∷ []

letter-IsKeyByte : (c : ℕ) → 96 < c → IsKeyByte c
letter-IsKeyByte c h = (
  (λ e. omega (arith, h, e)),
  (λ e. omega (arith, h, e)),
  (λ e. omega (arith, h, e)),
  (λ e. omega (arith, h, e)),
  (λ e. omega (arith, h, e)),
)

above-IsValueByte : (c : ℕ) → 10 < c → c ≢ 92 → IsValueByte c
above-IsValueByte c h k = (k, (λ e. omega (arith, h, e)))

address-Fits : Fits address
unfolding escape is_escaped spread is_blank
address-Fits = (
  (letter-IsKeyByte 117 (omega arith), tt),
  (
    above-IsValueByte 97 (omega arith) (λ e. omega (arith, e)),
    (
      above-IsValueByte 61 (omega arith) (λ e. omega (arith, e)),
      (above-IsValueByte 35 (omega arith) (λ e. omega (arith, e)), tt),
    ),
  ),
  omega arith,
  omega arith,
  omega arith,
)

zone-Fits : All Fits zone
unfolding escape is_escaped spread is_blank
zone-Fits = (
  (
    (letter-IsKeyByte 122 (omega arith), tt),
    (
      above-IsValueByte 98 (omega arith) (λ e. omega (arith, e)),
      (above-IsValueByte 58 (omega arith) (λ e. omega (arith, e)), tt),
    ),
    omega arith,
    omega arith,
    omega arith,
  ),
  tt,
)

both-Keyed : Keyed same_text (address ∷ zone)
unfolding lookup same_text
both-Keyed = (refl, (refl, tt))

both_short : length (text (address ∷ zone)) < max_value_length
unfolding escape is_escaped
both_short = omega arith

both-NoBlanks : NoBlanks (address ∷ zone)
unfolding is_blank
both-NoBlanks = ((refl, (refl, (refl, tt))), ((refl, (refl, tt)), tt))

load-store_same_example :
    store_then_load kept [] (address ∷ zone) ≡ some (success, some (address ∷ zone))
load-store_same_example =
    load-store_same kept kept-TrimKeeps [] address zone (address-Fits, zone-Fits) both-Keyed
      both_short both-NoBlanks

-- A value of 1024 characters.
many : ℕ → CString
many zero = []
many (suc n) = 97 ∷ many n

many_long : any is_long ((codes "k", many 1024) ∷ []) ≡ true
unfolding any many
many_long = refl

store-overflow_example : store [] ((codes "k", many 1024) ∷ []) ≡ none
store-overflow_example = store-overflow [] ((codes "k", many 1024) ∷ []) many_long
