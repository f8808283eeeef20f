-- ===== src/Celix.antt =====
-- The Celix framework as the C code uses it: `celix_status_t`, `hash_map_pt` and `properties_pt`.
-- An array list is a `List`; a hash map is the list of its entries in iteration order.
pub mod HashMap
pub mod Numbers
use node_wiring_secure.Base.{ℕ, Bool, true, false, CString}
use HashMap.{Map}

pub data Status : Type 0 where
  success enomem illegal_argument illegal_state bundle_exception service_exception : Status
  other : ℕ → Status

unfoldable pub is_success : Status → Bool
is_success success = true
is_success _ = false

abbrev pub Properties : Type 0
Properties = Map CString CString
