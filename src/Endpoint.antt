-- ===== src/Endpoint.antt =====
-- wiring_common_secure/private/src/wiring_endpoint_description.c
pub mod Laws
mod Tests
use node_wiring_secure.Base.{
  ℕ, Bool, true, false, CString, codes, same_text, List, [], Option, none, some, ◌>>=◌,
  if◌then◌else◌,
}
use node_wiring_secure.Celix.{Properties, Status, success, enomem}
use node_wiring_secure.Celix.HashMap.{lookup, insert}

-- A `wiring_endpoint_description_pt`: where it was allocated, and what stands there.
pub record Endpoint : Type 0 where
  pub address : ℕ
  pub properties : Properties

unfoldable pub wire_id_key : CString
wire_id_key = codes "org.inaetics.remote.admin.wiring.wireId"

-- properties_get, which answers NULL on a missing key
unfoldable pub get : Properties → CString → Option CString
get p k = lookup same_text k p

-- properties_set
unfoldable pub set : Properties → CString → CString → Properties
set p k v = insert same_text k v p

unfoldable pub wire_id : Endpoint → Option CString
wire_id e = get e.properties wire_id_key

-- strcmp(s, t) == 0, a fault if either is NULL
unfoldable pub strcmp_eq : Option CString → Option CString → Option Bool
strcmp_eq none t = none
strcmp_eq (some s) none = none
strcmp_eq (some s) (some t) = some (same_text s t)

-- The wire id that the description gets: the caller's, unless the properties have one; without a
-- caller's id the generated one, always.
choose_wire_id : Option CString → CString → Properties → Properties
unfolding get set
choose_wire_id none uuid p = set p wire_id_key uuid
choose_wire_id (some w) uuid p = elim (get p wire_id_key) [
  | none ↦ set p wire_id_key w
  | some old ↦ p
]

-- wiringEndpointDescription_create. `block` is what `calloc` answers, `uuid` what `uuid_generate`
-- does, `fresh` whether `properties_create` succeeds. With no properties the code fills its new map
-- in, and then reads and writes through the null argument: a fault.
unfoldable pub create :
    Option ℕ
    → CString
    → Bool
    → Option CString
    → Option Properties
    → Option (Status × Option Endpoint)
unfolding choose_wire_id
create none uuid fresh w p = some (enomem, none)
create (some a) uuid fresh w (some p) =
    some (success, some (record { address = a; properties = choose_wire_id w uuid p }))
create (some a) uuid true w none = none
create (some a) uuid false w none = some (enomem, none)

-- wiringEndpointDescription_hash, over `utils_stringHash`
unfoldable pub hash : (CString → ℕ) → Endpoint → ℕ
hash string_hash e = elim (wire_id e) [ none ↦ 0 | some w ↦ string_hash w ]

-- The comparison of two wire ids at the end of wiringEndpointDescription_equals.
compare_wires : Option CString → Option CString → ℕ
compare_wires none w = 1
compare_wires (some v) none = 1
compare_wires (some v) (some w) = if same_text v w then 0 else 1

-- wiringEndpointDescription_equals: 0 for the same wire. Both pointers are read before they are
-- compared with NULL.
unfoldable pub equals : Option Endpoint → Option Endpoint → Option ℕ
unfolding compare_wires
equals none d = none
equals (some c) none = none
equals (some c) (some d) = some (compare_wires (wire_id c) (wire_id d))
