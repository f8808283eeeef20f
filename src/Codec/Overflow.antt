-- ===== src/Codec/Overflow.antt =====
-- Values that are too long for the writer's buffer.
use mathlib.Core.Bool.{true≢false}
use mathlib.Core.Option.{none-ne-some}
use node_wiring_secure.Base.{
  ℕ, ◌+◌, Bool, true, CString, [], ◌∷◌, none, some, Option-cases, Bool-cases, inl, inr, ◌||◌,
  length, leb, any, take, ◌≡◌, sym, ◌∙◌, arith,
}
use node_wiring_secure.Celix.{Properties}
use node_wiring_secure.Codec.{max_length, fit, escape, entry_text, print_at, store_from, store}
use node_wiring_secure.Codec.Storing.{length-escape}

-- The value has at least as many bytes as the buffer for it.
abbrev pub is_long : CString × CString → Bool
is_long (k, v) = leb max_length (length v)

fit-long : (v : CString) → leb max_length (length v) ≡ true → fit max_length (escape v) ≡ none
unfolding fit
fit-long v h = ground (arith, length-escape v)

-- A value that fits the buffer is not long.
short_head :
    (k v : CString) (p : Properties) (value : CString)
    → fit max_length (escape v) ≡ some value
    → (is_long (k, v) || any is_long p) ≡ true
    → any is_long p ≡ true
short_head k v p value fine h = elim (Bool-cases (leb max_length (length v))) [
  | inl long ↦ absurd (none-ne-some value (sym (fit-long v long) ∙ fine))
  | inr short ↦ ground (arith, h, short)
]

store_from-long :
    (position : ℕ) (p : Properties) → any is_long p ≡ true → store_from position p ≡ none
unfolding store_from any
store_from-long position [] h = absurd (true≢false (sym h))
store_from-long position ((k, v) ∷ p) h =
    elim (Option-cases (fit max_length (escape (take max_length k)))) [
      | inl bad ↦ rw bad
      | inr (key, fine) ↦ elim (Option-cases (fit max_length (escape v))) [
        | inl bad ↦ rw (fine, bad)
        | inr (value, fine') ↦
            let line = entry_text key value in
            let later = short_head k v p value fine' h in
            elim (Option-cases (print_at position line)) [
              | inl bad ↦ rw (fine, fine', bad)
              | inr (written, fine'') ↦
                  rw (fine, fine', fine'', store_from-long (position + length line) p later)
            ]
      ]
    ]

-- Properties with a value of at least as many bytes as the writer's buffer for a value are not
-- written: some write is outside a buffer, whatever else the properties are.
pub store-overflow :
    (before : CString) (p : Properties) → any is_long p ≡ true → store before p ≡ none
unfolding store any
store-overflow before [] h = absurd (true≢false (sym h))
store-overflow before (x ∷ p) h = store_from-long 0 (x ∷ p) h
