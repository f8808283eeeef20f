-- ===== src/Codec/Scanning.antt =====
-- How the reader scans what the writer has written.
use node_wiring_secure.Base.{
  ℕ, suc, ◌+◌, ◌≤◌, ◌<◌, true, false, CString, [], ◌∷◌, ◌++◌, some, if◌then◌else◌, length,
  length-append, ◌≡◌, ◌≢◌, refl, ap, ◌∙◌, Bool-cases, inl, inr, All, append-nil, append_assoc,
  arith,
}
use node_wiring_secure.Codec.{
  max_length, fit, is_escaped, escape, in_key, in_value, Scan, blank_line, is_blank, is_special,
  put, go_on, put_on, separate, special, take_in, step, scan_line,
}

-- A text that the loop of the writer does not change the meaning of: no backslash, no blank, and no
-- ':' in a key.
abbrev pub IsKeyByte : ℕ → Type 0
IsKeyByte c = (c ≢ 92) × (c ≢ 58) × (c ≢ 32) × (c ≢ 9) × (c ≢ 10)

abbrev pub IsValueByte : ℕ → Type 0
IsValueByte c = (c ≢ 92) × (c ≢ 10)

-- The state within a key and within a value, not after a backslash.
abbrev pub key_scan : CString → Scan
key_scan k = record { place = in_key; key = k; value = []; after_backslash = false }

abbrev pub value_scan : CString → CString → Scan
value_scan k v = record { place = in_value; key = k; value = v; after_backslash = false }

step-key :
    (c : ℕ) (k : CString)
    → IsKeyByte c
    → is_escaped c ≡ false
    → length k < max_length
    → step c (key_scan k) ≡ some (go_on (key_scan (k ++ (c ∷ []))))
unfolding step take_in put_on put is_blank is_special is_escaped
step-key c k (h1, h2, h3, h4, h5) h room = ground arith

abbrev after : Scan → Scan
after st = record st { after_backslash = true }

step-key_backslash : (k : CString) → step 92 (key_scan k) ≡ some (go_on (after (key_scan k)))
unfolding step take_in is_blank is_special
step-key_backslash k = refl

step-key_escaped :
    (c : ℕ) (k : CString)
    → is_escaped c ≡ true
    → length k < max_length
    → step c (after (key_scan k)) ≡ some (go_on (key_scan (k ++ (c ∷ []))))
unfolding step take_in put_on put is_blank is_special is_escaped
step-key_escaped c k h room = ground arith

-- What a value becomes: each blank twice.
unfoldable pub spread : CString → CString
spread [] = []
spread (c ∷ s) = let rest = spread s in if is_blank c then c ∷ c ∷ rest else c ∷ rest

step-value :
    (c : ℕ) (k v : CString)
    → IsValueByte c
    → is_escaped c ≡ false
    → is_blank c ≡ false
    → length v < max_length
    → step c (value_scan k v) ≡ some (go_on (value_scan k (v ++ (c ∷ []))))
unfolding step take_in put_on put is_blank is_special is_escaped special
step-value c k v (h1, h2) h b room = ground arith

step-value_blank :
    (c : ℕ) (k v : CString)
    → is_blank c ≡ true
    → suc (length v) < max_length
    → step c (value_scan k v) ≡ some (go_on (value_scan k (v ++ (c ∷ c ∷ []))))
unfolding step take_in put_on put is_blank is_special
step-value_blank c k v b room =
    ground (arith, length-append v (c ∷ []), append_assoc v (c ∷ []) (c ∷ []))

step-value_backslash :
    (k v : CString) → step 92 (value_scan k v) ≡ some (go_on (after (value_scan k v)))
unfolding step take_in is_blank is_special
step-value_backslash k v = refl

step-value_escaped :
    (c : ℕ) (k v : CString)
    → is_escaped c ≡ true
    → length v < max_length
    → step c (after (value_scan k v)) ≡ some (go_on (value_scan k (v ++ (c ∷ []))))
unfolding step take_in put_on put is_blank is_special is_escaped
step-value_escaped c k v h room = ground arith

step-separator :
    (k : CString) → length k < max_length → step 61 (key_scan k) ≡ some (go_on (value_scan k []))
unfolding step take_in is_blank is_special special separate fit
step-separator k room = ground arith

scan_line-cons :
    (c : ℕ) (s : CString) (st st' : Scan)
    → step c st ≡ some (go_on st')
    → scan_line (c ∷ s) st ≡ scan_line s st'
unfolding scan_line
scan_line-cons c s st st' h = rw h

escape-cons :
    (c : ℕ) (s : CString)
    → escape (c ∷ s) ≡ (if is_escaped c then 92 ∷ c ∷ escape s else c ∷ escape s)
unfolding escape
escape-cons c s = refl

-- An escaped key is read back.
scan_line-key :
    (s r k : CString)
    → All IsKeyByte s
    → length k + length s ≤ max_length
    → scan_line (escape s ++ r) (key_scan k) ≡ scan_line r (key_scan (k ++ s))
scan_line-key [] r k good room = unfold escape in rw append-nil
scan_line-key (c ∷ s) r k good room =
    let rest =
      scan_line-key s r (k ++ (c ∷ [])) good.1 (omega (arith, room, length-append k (c ∷ [])))
      ∙ ap (λ t. scan_line r (key_scan t)) (append_assoc k (c ∷ []) s) in
    elim (Bool-cases (is_escaped c)) [
      | inl hit ↦
          rw (escape-cons c s, hit)
            (scan_line-cons 92 (c ∷ escape s ++ r) (key_scan k) (after (key_scan k))
                (step-key_backslash k)
              ∙ scan_line-cons c (escape s ++ r) (after (key_scan k)) (key_scan (k ++ (c ∷ [])))
                  (step-key_escaped c k hit (omega (arith, room)))
              ∙ rest)
      | inr miss ↦
          rw (escape-cons c s, miss)
            (scan_line-cons c (escape s ++ r) (key_scan k) (key_scan (k ++ (c ∷ [])))
                (step-key c k good.0 miss (omega (arith, room)))
              ∙ rest)
    ]

spread-cons :
    (c : ℕ) (s : CString) → spread (c ∷ s) ≡ (if is_blank c then c ∷ c ∷ spread s else c ∷ spread s)
unfolding spread
spread-cons c s = refl

escaped_not_blank : (c : ℕ) → is_escaped c ≡ true → is_blank c ≡ false
unfolding is_escaped is_blank
escaped_not_blank c h = ground arith

length-spread :
    (c : ℕ) (s : CString)
    → length (spread (c ∷ s)) ≡ (if is_blank c then 2 else 1) + length (spread s)
unfolding spread
length-spread c s = ground arith

-- An escaped value is read back, but each blank twice.
scan_line-value :
    (s k v : CString)
    → All IsValueByte s
    → length v + length (spread s) ≤ max_length
    → scan_line (escape s) (value_scan k v) ≡ scan_line [] (value_scan k (v ++ spread s))
scan_line-value [] k v good room = unfold escape spread in rw append-nil
scan_line-value (c ∷ s) k v good room =
    let once : CString = v ++ (c ∷ []) in
    let twice : CString = v ++ (c ∷ c ∷ []) in
    elim (Bool-cases (is_escaped c)) [
      | inl hit ↦
          let single = escaped_not_blank c hit in
          rw (escape-cons c s, hit, spread-cons c s, single)
            (scan_line-cons 92 (c ∷ escape s) (value_scan k v) (after (value_scan k v))
                (step-value_backslash k v)
              ∙ scan_line-cons c (escape s) (after (value_scan k v)) (value_scan k once)
                  (step-value_escaped c k v hit (ground (arith, length-spread c s)))
              ∙ scan_line-value s k once good.1
                  (ground (arith, length-spread c s, length-append v (c ∷ [])))
              ∙ ap (λ t. scan_line [] (value_scan k t)) (append_assoc v (c ∷ []) (spread s)))
      | inr miss ↦ elim (Bool-cases (is_blank c)) [
        | inl double ↦
            rw (escape-cons c s, miss, spread-cons c s, double)
              (scan_line-cons c (escape s) (value_scan k v) (value_scan k twice)
                  (step-value_blank c k v double (ground (arith, length-spread c s)))
                ∙ scan_line-value s k twice good.1
                    (ground (arith, length-spread c s, length-append v (c ∷ c ∷ [])))
                ∙ ap (λ t. scan_line [] (value_scan k t)) (append_assoc v (c ∷ c ∷ []) (spread s)))
        | inr single ↦
            rw (escape-cons c s, miss, spread-cons c s, single)
              (scan_line-cons c (escape s) (value_scan k v) (value_scan k once)
                  (step-value c k v good.0 miss single (ground (arith, length-spread c s)))
                ∙ scan_line-value s k once good.1
                    (ground (arith, length-spread c s, length-append v (c ∷ [])))
                ∙ ap (λ t. scan_line [] (value_scan k t)) (append_assoc v (c ∷ []) (spread s)))
      ]
    ]

-- The first character that is not blank begins the key.
scan_line-enter :
    (c : ℕ) (s : CString)
    → is_blank c ≡ false
    → scan_line (c ∷ s) blank_line ≡ scan_line (c ∷ s) (key_scan [])
unfolding scan_line step
scan_line-enter c s h = rw h

key_not_blank : (c : ℕ) → IsKeyByte c → is_blank c ≡ false
unfolding is_blank
key_not_blank c (h1, h2, h3, h4, h5) = ground arith

scan_line-enter_key :
    (k r : CString)
    → All IsKeyByte k
    → scan_line (escape k ++ (61 ∷ r)) blank_line ≡ scan_line (escape k ++ (61 ∷ r)) (key_scan [])
unfolding escape is_blank
scan_line-enter_key [] r good = scan_line-enter 61 r refl
scan_line-enter_key (c ∷ k) r good = elim (Bool-cases (is_escaped c)) [
  | inl hit ↦ rw hit (scan_line-enter 92 (c ∷ escape k ++ (61 ∷ r)) refl)
  | inr miss ↦ rw miss (scan_line-enter c (escape k ++ (61 ∷ r)) (key_not_blank c good.0))
]

-- A line of the writer is read back as its key and its value, but each blank of the value twice.
pub scan_line-entry :
    (k v : CString)
    → All IsKeyByte k
    → All IsValueByte v
    → length k < max_length
    → length (spread v) < max_length
    → scan_line (escape k ++ (61 ∷ escape v)) blank_line ≡ some (some (value_scan k (spread v)))
unfolding scan_line fit
scan_line-entry k v good_key good_value short_key short_value =
    scan_line-enter_key k (escape v) good_key
    ∙ scan_line-key k (61 ∷ escape v) [] good_key (omega (arith, short_key))
    ∙ scan_line-cons 61 (escape v) (key_scan k) (value_scan k []) (step-separator k short_key)
    ∙ scan_line-value v k [] good_value (omega (arith, short_value))
    ∙ ground arith
