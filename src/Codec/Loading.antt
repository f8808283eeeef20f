-- ===== src/Codec/Loading.antt =====
-- The reader on the text of the writer.
use mathlib.Core.Option.{none-ne-some}
use node_wiring_secure.Base.{
  ℕ, Bool, true, false, CString, same_text, same_text_iff, [], ◌∷◌, ◌++◌, none, some, if◌then◌else◌,
  ◌==◌, ==_iff, map, ◌≡◌, ◌≢◌, refl, sym, ap, ◌∙◌, Bool-cases, inl, inr, All, All-append,
  append-nil, append_assoc, arith,
}
use node_wiring_secure.Celix.{Properties, success}
use node_wiring_secure.Celix.HashMap.{lookup, Keyed, insert_absent, lookup-append}
use node_wiring_secure.Endpoint.{get, set}
use node_wiring_secure.Codec.{
  is_blank, is_escaped, escape, add_entry, token, tokens, load_lines, load,
}
use node_wiring_secure.Codec.Scanning.{IsKeyByte, IsValueByte, spread, value_scan, scan_line-entry}
use node_wiring_secure.Codec.Storing.{bare, text, Fits, length-escape}

-- A line without a line end, and what stands before it, are one token.
tokens-line :
    (line s r : CString)
    → All (λ c. c ≢ 10) s
    → tokens line (s ++ (10 ∷ r)) ≡ token (line ++ s) ++ tokens [] r
unfolding tokens
tokens-line line [] r good = rw append-nil
tokens-line line (c ∷ s) r good = elim (Bool-cases (c == 10)) [
  | inl hit ↦ absurd (good.0 ((==_iff c 10).0 hit))
  | inr miss ↦ rw miss (
      tokens-line (line ++ (c ∷ [])) s r good.1
      ∙ ap (λ l. token l ++ tokens [] r) (append_assoc line (c ∷ []) s))
]

escape_one_line : (s : CString) → All (λ c. c ≢ 10) s → All (λ c. c ≢ 10) (escape s)
unfolding escape
escape_one_line [] good = tt
escape_one_line (c ∷ s) good = step (is_escaped c) (escape_one_line s good.1)
  where
    step :
        (b : Bool)
        → All (λ c. c ≢ 10) (escape s)
        → All (λ c. c ≢ 10) (if b then 92 ∷ c ∷ escape s else c ∷ escape s)
    step true rest = ((λ h. omega (arith, h)), (good.0, rest))
    step false rest = (good.0, rest)

key_one_line : (s : CString) → All IsKeyByte s → All (λ c. c ≢ 10) s
key_one_line [] good = tt
key_one_line (c ∷ s) ((h1, h2, h3, h4, h5), good) = (h5, key_one_line s good)

value_one_line : (s : CString) → All IsValueByte s → All (λ c. c ≢ 10) s
value_one_line [] good = tt
value_one_line (c ∷ s) ((h1, h2), good) = (h2, value_one_line s good)

bare_one_line : (x : CString × CString) → Fits x → All (λ c. c ≢ 10) (bare x)
bare_one_line (k, v) (keys, values, _, _, _) =
    All-append (λ c. c ≢ 10) (escape k) (61 ∷ escape v) (escape_one_line k (key_one_line k keys))
      ((λ h. omega (arith, h)), escape_one_line v (value_one_line v values))

token-cons : (s : CString) (c : ℕ) (r : CString) → token (s ++ (c ∷ r)) ≡ (s ++ (c ∷ r)) ∷ []
token-cons [] c r = refl
token-cons (d ∷ s) c r = refl

-- The reader finds the lines of the writer.
tokens-text : (p : Properties) → All Fits p → tokens [] (text p) ≡ map bare p
tokens-text [] fits = unfold tokens in refl
tokens-text ((k, v) ∷ p) fits =
    ap (tokens []) (line_end (escape k) (escape v) (text p))
    ∙ tokens-line [] (bare (k, v)) (text p) (bare_one_line (k, v) fits.0)
    ∙ ap (λ l. l ++ tokens [] (text p)) (token-cons (escape k) 61 (escape v))
    ∙ ap (λ l. bare (k, v) ∷ l) (tokens-text p fits.1)
  where
    line_end : (s t r : CString) → (s ++ (61 ∷ t ++ (10 ∷ []))) ++ r ≡ (s ++ (61 ∷ t)) ++ (10 ∷ r)
    line_end s t r = simp append_assoc

-- utils_stringTrim does not change a text without blanks.
abbrev pub TrimKeeps : (CString → CString) → Type 0
TrimKeeps trim = (s : CString) → All (λ c. is_blank c ≡ false) s → trim s ≡ s

-- What becomes of an entry: each blank of the value is there twice, and then the value is trimmed.
abbrev pub read_back : (CString → CString) → CString × CString → CString × CString
read_back trim (k, v) = (k, trim (spread v))

key_without_blank : (k : CString) → All IsKeyByte k → All (λ c. is_blank c ≡ false) k
unfolding is_blank
key_without_blank [] good = tt
key_without_blank (c ∷ k) ((h1, h2, h3, h4, h5), good) = (ground arith, key_without_blank k good)

-- No key of the entries is a key of the map.
abbrev Fresh : Properties → Properties → Type 0
Fresh m p = All (λ x. lookup same_text x.0 m ≡ none) p

Fresh-nil : (p : Properties) → Fresh [] p
unfolding lookup
Fresh-nil [] = tt
Fresh-nil (x ∷ p) = (refl, Fresh-nil p)

Fresh-append :
    (k w : CString) (m p : Properties)
    → lookup same_text k p ≡ none
    → Fresh m p
    → Fresh (m ++ ((k, w) ∷ [])) p
unfolding lookup
Fresh-append k w m [] h fresh = tt
Fresh-append k w m ((j, u) ∷ p) h fresh = elim (Bool-cases (same_text k j)) [
  | inl hit ↦ absurd (none-ne-some u (sym h ∙ rw hit))
  | inr miss ↦ (
    lookup-append same_text k j w m fresh.0
        (ground (arith, miss, same_text_iff k j, same_text_iff j k)),
    Fresh-append k w m p (ap (λ b. if b then some u else lookup same_text k p) (sym miss) ∙ h)
        fresh.1,
  )
]

module _ (trim : CString → CString) (keeps : TrimKeeps trim) where
  add_entry_lem :
      (k v : CString) (m : Properties)
      → All IsKeyByte k
      → lookup same_text k m ≡ none
      → add_entry trim (some (value_scan k (spread v))) m ≡ m ++ (read_back trim (k, v) ∷ [])
  unfolding add_entry get set
  add_entry_lem k v m keys absent =
      rw (add_entry, keeps k (key_without_blank k keys), absent)
        (ap (λ j. set m j (trim (spread v))) (keeps k (key_without_blank k keys))
          ∙ insert_absent same_text k (trim (spread v)) m absent)

  load_lines_lem :
      (p m : Properties)
      → All Fits p
      → Keyed same_text p
      → Fresh m p
      → load_lines trim (map bare p) m ≡ some (m ++ map (read_back trim) p)
  unfolding load_lines
  load_lines_lem [] m fits keyed fresh = rw append-nil
  load_lines_lem ((k, v) ∷ p) m ((keys, values, sk, sv, sr), fits) keyed fresh =
      let m' = m ++ (read_back trim (k, v) ∷ []) in
      rw (
        scan_line-entry k v keys values (omega (arith, sk, length-escape k)) sr,
        add_entry_lem k v m keys fresh.0,
        load_lines_lem p m' fits keyed.1 (Fresh-append k (trim (spread v)) m p keyed.0 fresh.1),
        append_assoc,
      )

  pub load-text :
      (p : Properties)
      → All Fits p
      → Keyed same_text p
      → load trim (text p) (some []) ≡ some (success, some (map (read_back trim) p))
  unfolding load
  load-text p fits keyed = rw (tokens-text p fits, load_lines_lem p [] fits keyed (Fresh-nil p))
