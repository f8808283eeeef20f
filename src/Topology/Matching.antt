-- ===== src/Topology/Matching.antt =====
-- The comparisons of properties in wtm.c.
pub mod Meaning
use Prim.Native.Nat.{bit_xor}
use node_wiring_secure.Base.{
  ℕ, Bool, true, false, CString, codes, same_text, List, [], ◌∷◌, Option, none, some, if◌then◌else◌,
  ◌==◌, ◌&&◌, ◌||◌,
}
use node_wiring_secure.Celix.{Properties}
use node_wiring_secure.Endpoint.{get}
use node_wiring_secure.Topology.World.{Outside}

exported_interfaces_key : CString
exported_interfaces_key = codes "service.exported.interfaces"

unfoldable pub requested_service_key : CString
requested_service_key = codes "requested.service"

type_key : CString
type_key = codes "type"

-- The service properties that neither comparison considers.
unfoldable pub is_service_key : Outside → CString → Bool
unfolding exported_interfaces_key
is_service_key o k =
    same_text k o.framework_uuid_key
    || same_text k o.service_id_key
    || same_text k o.object_class_key
    || same_text k exported_interfaces_key

-- The keys that properties_match leaves out.
unfoldable pub is_ignored : Outside → CString → Bool
unfolding type_key
is_ignored o k = is_service_key o k || same_text k requested_service_key || same_text k type_key

-- ref_value != NULL and strcmp(ref_value, prop_value) == 0
unfoldable pub has_value : CString → Option CString → Bool
has_value v none = false
has_value v (some r) = same_text r v

-- properties_match: each pair that is considered stands in the reference too.
unfoldable pub properties_match : Outside → Properties → Properties → Bool
properties_match o [] reference = true
properties_match o ((k, v) ∷ p) reference =
    (is_ignored o k || has_value v (get reference k)) && properties_match o p reference

-- wiringTopologyManager_srvcProperties_equals
unfoldable pub srvc_properties_equals : Outside → Properties → Properties → Bool
srvc_properties_equals o [] to_compare = true
srvc_properties_equals o ((k, v) ∷ p) to_compare =
    (is_service_key o k || has_value v (get to_compare k)) && srvc_properties_equals o p to_compare

-- The body of the loop of wiringTopologyManager_srvcProperties_hash.
mix : Outside → ℕ → CString → CString → ℕ
mix o h k v =
    if is_service_key o k then h else bit_xor (bit_xor h (o.string_hash k)) (o.string_hash v)

hash_pairs : Outside → ℕ → Properties → ℕ
unfolding mix
hash_pairs o h [] = h
hash_pairs o h ((k, v) ∷ p) = hash_pairs o (mix o h k v) p

-- wiringTopologyManager_srvcProperties_hash
unfoldable pub srvc_properties_hash : Outside → Properties → ℕ
unfolding hash_pairs
srvc_properties_hash o p = hash_pairs o 1216721012 p

-- Whether the map of exported wires takes the two for one key: the hashes agree and so does the
-- key test.
unfoldable pub same_service : Outside → Properties → Properties → Bool
same_service o p q =
    srvc_properties_hash o p == srvc_properties_hash o q && srvc_properties_equals o p q
