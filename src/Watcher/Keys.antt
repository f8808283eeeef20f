-- ===== src/Watcher/Keys.antt =====
-- Which keys the watcher reads.
use mathlib.Core.Bool.{true≢false}
use node_wiring_secure.Base.{
  ◌≤◌, true, false, CString, [], ◌∷◌, ◌++◌, Option, none, some, ◌>>=◌, ◌==◌, ==_iff, length,
  length-append, take-length, ◌≡◌, ◌≢◌, refl, sym, ap, ◌∙◌, Bool-cases, inl, inr, All, append_assoc,
  arith,
}
use node_wiring_secure.Codec.{is_empty}
use node_wiring_secure.Discovery.{NodeDescription}
use node_wiring_secure.Watcher.{
  root_path, ends_in_slash, cut, local_node_path, literal, span, segment, read_parts, parse_key,
}

-- A part of a key: it has a character, and no '/'.
abbrev pub IsSegment : CString → Type 0
IsSegment s = (is_empty s ≡ false) × All (λ c. c ≢ 47) s

literal-append : (f s : CString) → literal f (f ++ s) ≡ some s
unfolding literal
literal-append [] s = refl
literal-append (c ∷ f) s = rw ((==_iff c c).1 refl) (literal-append f s)

span-slash : (s r : CString) → All (λ c. c ≢ 47) s → span (s ++ (47 ∷ r)) ≡ (s, 47 ∷ r)
unfolding span
span-slash [] r h = refl
span-slash (c ∷ s) r h = elim (Bool-cases (c == 47)) [
  | inl hit ↦ absurd (h.0 ((==_iff c 47).0 hit))
  | inr miss ↦ rw (miss, span-slash s r h.1)
]

span_whole : (s : CString) → All (λ c. c ≢ 47) s → span s ≡ (s, [])
unfolding span
span_whole [] h = refl
span_whole (c ∷ s) h = elim (Bool-cases (c == 47)) [
  | inl hit ↦ absurd (h.0 ((==_iff c 47).0 hit))
  | inr miss ↦ rw (miss, span_whole s h.1)
]

segment-slash : (s r : CString) → IsSegment s → segment (s ++ (47 ∷ r)) ≡ some (s, 47 ∷ r)
unfolding segment
segment-slash s r (full, h) = rw (span-slash s r h, full)

segment_whole : (s : CString) → IsSegment s → segment s ≡ some (s, [])
unfolding segment
segment_whole s (full, h) = rw (span_whole s h, full)

-- The three parts behind the root are read back.
parse_key-parts :
    (root z n w : CString)
    → IsSegment z
    → IsSegment n
    → IsSegment w
    → parse_key root ((47 ∷ (root ++ (47 ∷ []))) ++ (z ++ (47 ∷ (n ++ (47 ∷ w))))) ≡ some (z, n, w)
unfolding parse_key read_parts
parse_key-parts root z n w hz hn hw = rw (
  literal-append (47 ∷ (root ++ (47 ∷ []))) (z ++ (47 ∷ (n ++ (47 ∷ w)))),
  segment-slash z (n ++ (47 ∷ w)) hz,
  literal-append (47 ∷ []) (n ++ (47 ∷ w)),
  segment-slash n w hn,
  literal-append (47 ∷ []) w,
  segment_whole w hw,
)

cut_short : (s : CString) → length s ≤ 4095 → cut s ≡ s
cut_short s h = take-length 4095 s h

-- The key of an endpoint of the own node, before it is cut.
abbrev pub whole_key : CString → CString → NodeDescription → CString → CString
whole_key root slash own w = (root ++ (slash ++ (own.zone_id ++ (47 ∷ own.node_id)))) ++ (47 ∷ w)

literal-both : (f g s : CString) → literal (f ++ g) (f ++ s) ≡ literal g s
unfolding literal
literal-both [] g s = refl
literal-both (c ∷ f) g s = rw ((==_iff c c).1 refl) (literal-both f g s)

parse_key-whole :
    (root w : CString) (own : NodeDescription)
    → IsSegment own.zone_id
    → IsSegment own.node_id
    → IsSegment w
    → parse_key root (47 ∷ whole_key root (47 ∷ []) own w) ≡ some (own.zone_id, own.node_id, w)
parse_key-whole root w own hz hn hw =
    ap (parse_key root) (same root own.zone_id own.node_id w)
    ∙ parse_key-parts root own.zone_id own.node_id w hz hn hw
  where
    same :
        (r z n w : CString)
        → 47 ∷ (r ++ (47 ∷ (z ++ (47 ∷ n)))) ++ (47 ∷ w)
          ≡ (47 ∷ (r ++ (47 ∷ []))) ++ (z ++ (47 ∷ (n ++ (47 ∷ w))))
    same r z n w = simp append_assoc

literal_slash : (s r : CString) → IsSegment s → literal (47 ∷ []) (s ++ r) ≡ none
unfolding literal
literal_slash [] r (full, h) = absurd (true≢false full)
literal_slash (c ∷ s) r (full, h) = elim (Bool-cases (47 == c)) [
  | inl hit ↦ absurd (h.0 (sym ((==_iff 47 c).0 hit)))
  | inr miss ↦ rw miss
]

parse_key-slash :
    (root w : CString) (own : NodeDescription)
    → IsSegment own.zone_id
    → parse_key root (47 ∷ whole_key root [] own w) ≡ none
unfolding parse_key
parse_key-slash root w own hz =
    ap (λ x. x >>= read_parts)
      (ap (literal (47 ∷ (root ++ (47 ∷ [])))) (same root own.zone_id own.node_id w)
        ∙ literal-both (47 ∷ root) (47 ∷ []) (own.zone_id ++ (47 ∷ (own.node_id ++ (47 ∷ w))))
        ∙ literal_slash own.zone_id (47 ∷ (own.node_id ++ (47 ∷ w))) hz)
  where
    same :
        (r z n w : CString)
        → 47 ∷ (r ++ (z ++ (47 ∷ n))) ++ (47 ∷ w) ≡ (47 ∷ r) ++ (z ++ (47 ∷ (n ++ (47 ∷ w))))
    same r z n w = simp append_assoc

module _ (configured : Option CString) (own : NodeDescription) (root w : CString)
    (rooted : root_path configured ≡ some root)
    (short : length (whole_key root (47 ∷ []) own w) ≤ 4095) where
  local_node_path-false :
      ends_in_slash root ≡ some false
      → local_node_path configured own ≡ some (root ++ (47 ∷ (own.zone_id ++ (47 ∷ own.node_id))))
  unfolding local_node_path
  local_node_path-false plain =
      let path = root ++ (47 ∷ (own.zone_id ++ (47 ∷ own.node_id))) in
      let room : length path ≤ 4095 = omega (arith, short, length-append path (47 ∷ w)) in
      rw (rooted, plain, cut_short path room)

  -- Where the root path does not end in '/', zone, node and wire id have a character and no '/', and
  -- the whole key has room: the watcher reads zone, node and wire id back from the key that the own
  -- node is published under, which etcd gives with a '/' before it.
  pub parse_key-local_node_path :
      ends_in_slash root ≡ some false
      → IsSegment own.zone_id
      → IsSegment own.node_id
      → IsSegment w
      → (path : CString) × (local_node_path configured own ≡ some path)
        × (parse_key root (47 ∷ cut (path ++ (47 ∷ w))) ≡ some (own.zone_id, own.node_id, w))
  parse_key-local_node_path plain hz hn hw =
      let path = root ++ (47 ∷ (own.zone_id ++ (47 ∷ own.node_id))) in
      (
        path,
        local_node_path-false plain,
        rw (cut_short (path ++ (47 ∷ w)) short) (parse_key-whole root w own hz hn hw),
      )

  -- Where the root path ends in '/', the zone has a character and no '/', and the whole key has room:
  -- the watcher reads nothing from the key that the own node is published under.
  pub parse_key-slash_root :
      ends_in_slash root ≡ some true
      → IsSegment own.zone_id
      → (path : CString) × (local_node_path configured own ≡ some path)
        × (parse_key root (47 ∷ cut (path ++ (47 ∷ w))) ≡ none)
  unfolding local_node_path
  parse_key-slash_root slash hz =
      let path = root ++ (own.zone_id ++ (47 ∷ own.node_id)) in
      let tail = own.zone_id ++ (47 ∷ own.node_id) in
      let room : length (path ++ (47 ∷ w)) ≤ 4095 = omega (
        arith,
        short,
        length-append path (47 ∷ w),
        length-append root tail,
        length-append (root ++ (47 ∷ tail)) (47 ∷ w),
        length-append root (47 ∷ tail),
      ) in
      let room' : length path ≤ 4095 = omega (arith, room, length-append path (47 ∷ w)) in
      (
        path,
        rw (rooted, slash, cut_short path room'),
        rw (cut_short (path ++ (47 ∷ w)) room) (parse_key-slash root w own hz),
      )
