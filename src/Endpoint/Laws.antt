-- ===== src/Endpoint/Laws.antt =====
-- Creating and comparing wiring endpoint descriptions.
use node_wiring_secure.Base.{
  ℕ, Bool, true, false, CString, same_text, same_text_iff, same_text_refl, [], Option, none, some,
  arith, ◌≡◌, ◌≢◌, refl, ◌↔◌, if◌then◌else◌,
}
use node_wiring_secure.Celix.{Properties, success}
use node_wiring_secure.Celix.HashMap.{lookup-insert}
use node_wiring_secure.Endpoint.{
  Endpoint, wire_id_key, get, set, wire_id, create, choose_wire_id, hash, equals, compare_wires,
}

pub get-set :
    (p : Properties) (k j v : CString)
    → get (set p k v) j ≡ (if same_text j k then some v else get p j)
unfolding get set
get-set p k j v = lookup-insert same_text same_text_iff k j v p

pub get-set_ne : (p : Properties) (k j v : CString) → j ≢ k → get (set p k v) j ≡ get p j
get-set_ne p k j v h = ground (arith, get-set p k j v, same_text_iff j k)

-- The wire id that a caller of `create` asks for.
abbrev pub wanted : Option CString → Option CString → CString → CString
wanted none old uuid = uuid
wanted (some w) none uuid = w
wanted (some w) (some old) uuid = old

choose_wire_id_lem :
    (w : Option CString) (uuid : CString) (p : Properties)
    → get (choose_wire_id w uuid p) wire_id_key ≡ some (wanted w (get p wire_id_key) uuid)
unfolding choose_wire_id
choose_wire_id_lem none uuid p =
    ground (arith, get-set p wire_id_key wire_id_key uuid, same_text_refl wire_id_key)
choose_wire_id_lem (some w) uuid p =
    ground (arith, get-set p wire_id_key wire_id_key w, same_text_refl wire_id_key)

choose_wire_id_ne :
    (w : Option CString) (uuid : CString) (p : Properties) (k : CString)
    → k ≢ wire_id_key
    → get (choose_wire_id w uuid p) k ≡ get p k
unfolding choose_wire_id
choose_wire_id_ne none uuid p k h = get-set_ne p wire_id_key k uuid h
choose_wire_id_ne (some w) uuid p k h = ground (arith, get-set_ne p wire_id_key k w h)

-- With allocated memory and properties given, a description is created whose wire id is the one that
-- the properties have or else the caller's, if the caller names one, and the generated one if not;
-- every other property stays.
pub create-wire_id :
    (a : ℕ) (uuid : CString) (fresh : Bool) (w : Option CString) (p : Properties)
    → (e : Endpoint) × (create (some a) uuid fresh w (some p) ≡ some (success, some e))
      × (wire_id e ≡ some (wanted w (get p wire_id_key) uuid))
      × ((k : CString) → k ≢ wire_id_key → get e.properties k ≡ get p k)
unfolding create wire_id
create-wire_id a uuid fresh w p = (
  record { address = a; properties = choose_wire_id w uuid p },
  refl,
  choose_wire_id_lem w uuid p,
  choose_wire_id_ne w uuid p,
)

-- Creating a description faults exactly when the description is allocated, no properties are given,
-- and the code's own properties are created.
pub create-fault :
    (block : Option ℕ) (uuid : CString) (fresh : Bool) (w : Option CString) (p : Option Properties)
    → (create block uuid fresh w p ≡ none) ↔ ((block ≢ none) × (fresh ≡ true) × (p ≡ none))
unfolding create
create-fault none uuid fresh w none = ground arith
create-fault none uuid fresh w (some p) = ground arith
create-fault (some a) uuid true w none = ground arith
create-fault (some a) uuid false w none = ground arith
create-fault (some a) uuid fresh w (some p) = ground arith

-- Both descriptions have this wire id.
abbrev pub SameWire : Option CString → Option CString → Type 0
SameWire v w = (i : CString) × (v ≡ some i) × (w ≡ some i)

compare_wires_iff : (v w : Option CString) → (compare_wires v w ≡ 0) ↔ SameWire v w
unfolding compare_wires
compare_wires_iff none w = ((λ h. absurd (omega arith)), (λ h. cc))
compare_wires_iff (some v) none = ((λ h. absurd (omega arith)), (λ h. cc))
compare_wires_iff (some v) (some w) = (
  (λ h. (v, refl, ground (arith, same_text_iff v w))),
  (λ (i, p, q). ground (arith, same_text_iff v w)),
)

hash_eq :
    (string_hash : CString → ℕ) (c d : Endpoint)
    → SameWire (wire_id c) (wire_id d)
    → hash string_hash c ≡ hash string_hash d
unfolding hash
hash_eq string_hash c d (i, p, q) = ground arith

-- Two descriptions compare as 0 exactly when both have a wire id and it is the same, and then their
-- hashes agree, whatever the hash of strings.
pub equals_iff :
    (c d : Endpoint)
    → ((equals (some c) (some d) ≡ some 0) ↔ SameWire (wire_id c) (wire_id d))
      × ((string_hash : CString → ℕ)
          → equals (some c) (some d) ≡ some 0
          → hash string_hash c ≡ hash string_hash d)
unfolding equals
equals_iff c d = (
  (
    (λ h. (compare_wires_iff _ _).0 (ground arith)),
    (λ h. ground (arith, (compare_wires_iff _ _).1 h)),
  ),
  λ string_hash h. hash_eq string_hash c d ((compare_wires_iff _ _).0 (ground arith)),
)

-- Properties that have a wire id are taken as they are.
pub create_named :
    (a : ℕ) (uuid w : CString) (p : Properties)
    → get p wire_id_key ≡ some w
    → create (some a) uuid true (some w) (some p)
      ≡ some (success, some (record { address = a; properties = p }))
unfolding create choose_wire_id
create_named a uuid w p h = rw (choose_wire_id, h)

-- Without properties and without a caller's wire id, the generated one is all there is.
pub create_fresh :
    (a : ℕ) (uuid : CString)
    → create (some a) uuid true none (some [])
      ≡ some (success, some (record { address = a; properties = set [] wire_id_key uuid }))
unfolding create choose_wire_id
create_fresh a uuid = refl
