-- ===== src/Etcd/Listing.antt =====
-- What etcd_getEndpoints lists, and when it overruns the array.
use node_wiring_secure.Base.{
  ℕ, zero, suc, take, sym, ◌+◌, ◌≤◌, ◌<◌, true, false, CString, codes, List, [], ◌∷◌, ◌++◌, Option,
  none, some, ◌>>=◌, All, if◌then◌else◌, leb, ltb, not, length, length-append, ◌≡◌, refl, ap, ◌∙◌,
  arith, append-nil, append_assoc, Bool-cases, inl, inr,
}
use node_wiring_secure.Codec.{fit}
use node_wiring_secure.Etcd.{
  Jansson, Perform, Server, get, url, document, text_of, max_zones, max_nodes, max_wires,
  nodes_below, put_key, list_wires, list_nodes, list_zones, list_root, etcd_get_endpoints,
}

-- An array with so many slots, some of them taken, gets more keys, if there is room for all.
abbrev pub room : ℕ → List CString → List CString → Option (List CString)
room slots keys more = if leb (length keys + length more) slots then some (keys ++ more) else none

room_start :
    (slots : ℕ) (more : List CString)
    → room slots [] more ≡ (if leb (length more) slots then some more else none)
room_start slots more = ap (λ n. if leb n slots then some more else none) (omega arith)

leb_le : (a b : ℕ) → leb a b ≡ true → a ≤ b
leb_le a b h = ground arith

le_leb : (a b : ℕ) → a ≤ b → leb a b ≡ true
le_leb a b h = ground arith

room_then :
    (slots : ℕ) (keys a b : List CString) (f : List CString → Option (List CString))
    → ((ks : List CString) → length ks ≤ slots → f ks ≡ room slots ks b)
    → (room slots keys a >>= f) ≡ room slots keys (a ++ b)
room_then slots keys a b f h = elim (Bool-cases (leb (length keys + length a) slots)) [
  | inl fits ↦
      let same : length (keys ++ a) + length b ≡ length keys + length (a ++ b) =
        omega (arith, length-append keys a, length-append a b) in
      rw fits (
        h (keys ++ a) (omega (arith, length-append keys a, leb_le _ _ fits))
        ∙ rw (same, append_assoc keys a b) refl)
  | inr full ↦
      let more : leb (length keys + length (a ++ b)) slots ≡ false =
        ground (arith, length-append a b) in
      rw (full, more)
]

module _ {Json : Type 0} (j : Jansson Json) where
  -- A wire that is an object has a key that fits its buffer.
  abbrev pub IsKeyed : Json → Type 0
  IsKeyed v = (k : CString) × (text_of j (j.member v (codes "key")) ≡ some k) × (length k < 256)

  abbrev or_empty : Option CString → CString
  or_empty none = []
  or_empty (some k) = k

  take_nil : (n : ℕ) → ◌≡◌ {A = List Json} (take n []) []
  take_nil zero = refl
  take_nil (suc n) = refl

  -- The whole array below a value's member "nodes".
  abbrev pub array_of : Option Json → List Json
  array_of none = []
  array_of (some below) = elim (j.elements below) [ none ↦ [] | some vs ↦ vs ]

  abbrev pub all_below : Json → List Json
  all_below v = array_of (j.member v (codes "nodes"))

  nodes_below-take : (bound : ℕ) (v : Json) → nodes_below j bound v ≡ take bound (all_below v)
  unfolding nodes_below
  nodes_below-take bound v =
      elim (j.member v (codes "nodes"))
        as (λ m.
          (elim m [
            | none ↦ []
            | some below ↦ elim (j.elements below) [ none ↦ [] | some vs ↦ take bound vs ]
          ])
          ≡ take bound (array_of m)) [
            | none ↦ sym (take_nil bound)
            | some below ↦
                elim (j.elements below)
                  as (λ es.
                    (elim es [ none ↦ [] | some vs ↦ take bound vs ])
                    ≡ take bound (elim es [ none ↦ [] | some vs ↦ vs ])) [
                      | none ↦ sym (take_nil bound)
                      | some vs ↦ refl
                    ]
          ]

  -- The keys of these wires, of the first 256 wires of each of these nodes, and of those of the first
  -- 256 nodes of each of these zones, in their order.
  abbrev pub wire_keys : List Json → List CString
  wire_keys [] = []
  wire_keys (v ∷ vs) =
      let rest = wire_keys vs in
      if j.is_object v then or_empty (text_of j (j.member v (codes "key"))) ∷ rest else rest

  abbrev pub node_keys : List Json → List CString
  node_keys [] = []
  node_keys (v ∷ vs) = wire_keys (take 256 (all_below v)) ++ node_keys vs

  abbrev pub zone_keys : List Json → List CString
  zone_keys [] = []
  zone_keys (v ∷ vs) = node_keys (take 256 (all_below v)) ++ zone_keys vs

  -- All wires have such keys.
  abbrev pub NodeIsKeyed : Json → Type 0
  NodeIsKeyed v = All IsKeyed (take 256 (all_below v))

  abbrev pub ZoneIsKeyed : Json → Type 0
  ZoneIsKeyed v = All NodeIsKeyed (take 256 (all_below v))

  put_key_lem :
      (slots : ℕ) (keys : List CString) (v : Json)
      → IsKeyed v
      → put_key slots keys (text_of j (j.member v (codes "key")))
        ≡ room slots keys (or_empty (text_of j (j.member v (codes "key"))) ∷ [])
  unfolding put_key fit
  put_key_lem slots keys v (k, there, short) =
      let fits : ltb (length k) 256 ≡ true = ground arith in
      elim (Bool-cases (ltb (length keys) slots)) [
        | inl free ↦
            let one_more : leb (length keys + 1) slots ≡ true = ground arith in
            rw (put_key, there, free, fits, one_more)
        | inr full ↦
            let no_more : leb (length keys + 1) slots ≡ false = ground arith in
            rw (put_key, full, no_more)
      ]

  list_wires_lem :
      (slots : ℕ) (vs : List Json) (keys : List CString)
      → length keys ≤ slots
      → All IsKeyed vs
      → list_wires j slots vs keys ≡ room slots keys (wire_keys vs)
  unfolding list_wires
  list_wires_lem slots [] keys small h =
      rw (le_leb (length keys + 0) slots (omega (arith, small)), append-nil)
  list_wires_lem slots (v ∷ vs) keys small h = elim (Bool-cases (j.is_object v)) [
    | inl object ↦
        rw (object, put_key_lem slots keys v h.0)
          (room_then slots keys (or_empty (text_of j (j.member v (codes "key"))) ∷ [])
            (wire_keys vs) (list_wires j slots vs) (λ ks fits. list_wires_lem slots vs ks fits h.1))
    | inr other ↦ rw other (list_wires_lem slots vs keys small h.1)
  ]

  list_nodes_lem :
      (slots : ℕ) (vs : List Json) (keys : List CString)
      → length keys ≤ slots
      → All NodeIsKeyed vs
      → list_nodes j slots vs keys ≡ room slots keys (node_keys vs)
  unfolding list_nodes
  list_nodes_lem slots [] keys small h =
      rw (le_leb (length keys + 0) slots (omega (arith, small)), append-nil)
  list_nodes_lem slots (v ∷ vs) keys small h =
      rw
        (nodes_below-take max_wires v, list_wires_lem slots (take 256 (all_below v)) keys small h.0)
        (room_then slots keys (wire_keys (take 256 (all_below v))) (node_keys vs)
          (list_nodes j slots vs) (λ ks fits. list_nodes_lem slots vs ks fits h.1))

  list_zones_lem :
      (slots : ℕ) (vs : List Json) (keys : List CString)
      → length keys ≤ slots
      → All ZoneIsKeyed vs
      → list_zones j slots vs keys ≡ room slots keys (zone_keys vs)
  unfolding list_zones
  list_zones_lem slots [] keys small h =
      rw (le_leb (length keys + 0) slots (omega (arith, small)), append-nil)
  list_zones_lem slots (v ∷ vs) keys small h =
      rw
        (nodes_below-take max_nodes v, list_nodes_lem slots (take 256 (all_below v)) keys small h.0)
        (room_then slots keys (node_keys (take 256 (all_below v))) (zone_keys vs)
          (list_zones j slots vs) (λ ks fits. list_zones_lem slots vs ks fits h.1))

  -- Where the reply has a document with a node, and all wires below it have keys of less than 256 bytes:
  -- the keys are listed, those of the first 256 wires of the first 256 nodes of the first 64 zones,
  -- if the array has a slot for each; and if it has not, then it is overrun.
  pub etcd_get_endpoints-room :
      (slots : ℕ) (perform : Perform) (s : Server) (directory : CString) (root node : Json)
      → document j (perform get (url s directory (codes "?recursive=true")) none) ≡ some (some root)
      → j.member root (codes "node") ≡ some node
      → All ZoneIsKeyed (take 64 (all_below node))
      → etcd_get_endpoints j slots perform s directory ≡ (
          let keys = zone_keys (take 64 (all_below node)) in
          if leb (length keys) slots then some (not (ltb (length keys) 1), keys) else none)
  unfolding etcd_get_endpoints list_root
  etcd_get_endpoints-room slots perform s directory root node read below keyed =
      rw
        (
          read,
          below,
          nodes_below-take max_zones node,
          list_zones_lem slots (take 64 (all_below node)) [] (omega arith) keyed
              ∙ room_start slots (zone_keys (take 64 (all_below node))),
        )
        (elim (Bool-cases (leb (length (zone_keys (take 64 (all_below node)))) slots)) [
          | inl fits ↦ rw fits
          | inr full ↦ rw full
        ])
