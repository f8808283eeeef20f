-- ===== src/Codec/Storing.antt =====
-- What the writer writes where everything fits its buffers.
use node_wiring_secure.Base.{
  ℕ, ◌+◌, ◌-◌, ◌≤◌, ◌<◌, CString, [], ◌∷◌, ◌++◌, some, length, length-append, take-length, ◌≡◌,
  refl, All, arith,
}
use node_wiring_secure.Celix.{Properties}
use node_wiring_secure.Codec.{
  max_length, max_value_length, fit, escape, entry_text, print_at, store_from, store,
}
use node_wiring_secure.Codec.Scanning.{IsKeyByte, IsValueByte, spread}

-- The line of an entry, without the line end.
abbrev pub bare : CString × CString → CString
bare (k, v) = escape k ++ (61 ∷ escape v)

-- All lines.
abbrev pub text : Properties → CString
text [] = []
text ((k, v) ∷ p) = entry_text (escape k) (escape v) ++ text p

-- The entry has no character that the codec takes for something else, and fits the buffers for a key
-- and a value, when it is written and when it is read.
abbrev pub Fits : CString × CString → Type 0
Fits (k, v) =
    All IsKeyByte k
    × All IsValueByte v
    × (length (escape k) < max_length)
    × (length (escape v) < max_length)
    × (length (spread v) < max_length)

pub length-escape : (s : CString) → length s ≤ length (escape s)
unfolding escape
length-escape [] = omega arith
length-escape (c ∷ s) = ground (arith, length-escape s)

fit_lem : (n : ℕ) (s : CString) → length s < n → fit n s ≡ some s
unfolding fit
fit_lem n s h = ground arith

print_at_lem :
    (position : ℕ) (line : CString)
    → position + length line < max_value_length
    → print_at position line ≡ some line
unfolding print_at
print_at_lem position line h =
    rw (take-length (max_value_length - position - 1) line (omega (arith, h))) (ground arith)

store_from_lem :
    (position : ℕ) (p : Properties)
    → All Fits p
    → position + length (text p) < max_value_length
    → store_from position p ≡ some (text p)
unfolding store_from
store_from_lem position [] fits room = refl
store_from_lem position ((k, v) ∷ p) ((keys, values, short_key, short_value, short_read), fits)
      room =
    let line = entry_text (escape k) (escape v) in
    let whole = take-length max_length k (omega (arith, short_key, length-escape k)) in
    rw (
      whole,
      fit_lem max_length (escape k) short_key,
      fit_lem max_length (escape v) short_value,
      print_at_lem position line (omega (arith, room, length-append line (text p))),
      store_from_lem (position + length line) p fits
          (omega (arith, room, length-append line (text p))),
    )

pub store_lem :
    (before : CString) (x : CString × CString) (p : Properties)
    → All Fits (x ∷ p)
    → length (text (x ∷ p)) < max_value_length
    → store before (x ∷ p) ≡ some (text (x ∷ p))
unfolding store
store_lem before x p fits room = store_from_lem 0 (x ∷ p) fits (omega (arith, room))
