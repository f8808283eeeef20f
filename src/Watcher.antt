-- ===== src/Watcher.antt =====
-- node_discovery/private/src/etcd_watcher.c: the keys and values in etcd, and what the watcher does
-- with a change. The root path has no blank and no '%', which sscanf reads in a way of its own.
pub mod Keys
pub mod Arrival
pub mod Foreign
pub mod Running
pub mod Lifecycle
mod Tests
use node_wiring_secure.Base.{
  ℕ, zero, suc, Bool, true, false, CString, codes, same_text, List, [], ◌∷◌, ◌++◌, Option, none,
  some, ◌>>=◌, if◌then◌else◌, ◌==◌, ◌||◌, take,
}
use node_wiring_secure.Celix.{Properties, Status, success, illegal_state, is_success}
use node_wiring_secure.Endpoint.{Endpoint, wire_id, create}
use node_wiring_secure.Listener.{Framework}
use node_wiring_secure.Codec.{fit, is_empty, store, load}
use node_wiring_secure.Discovery.{
  Discovery, NodeDescription, create_node, add_node, remove_node, or_default,
}
use node_wiring_secure.Discovery.Listening.{Event}

unfoldable pub default_root : CString
default_root = codes "inaetics/discovery"

-- etcdWatcher_getRootPath, by what the bundle context answers: strncpy leaves no terminating zero
-- where the path has 64 bytes or more.
unfoldable pub root_path : Option CString → Option CString
root_path configured = fit 64 (or_default configured default_root)

-- rootPath[strlen(rootPath) - 1] == '/', which reads before an empty path
unfoldable pub ends_in_slash : CString → Option Bool
ends_in_slash [] = none
ends_in_slash (c ∷ []) = some (c == 47)
ends_in_slash (c ∷ d ∷ s) = ends_in_slash (d ∷ s)

-- What snprintf leaves of a text in a buffer of 4096 bytes.
abbrev pub cut : CString → CString
cut s = take 4095 s

-- etcdWatcher_getLocalNodePath
unfoldable pub local_node_path : Option CString → NodeDescription → Option CString
local_node_path configured own = do
  root ← root_path configured
  slash ← ends_in_slash root
  some (cut (root ++ ((if slash then [] else 47 ∷ []) ++ (own.zone_id ++ (47 ∷ own.node_id)))))

-- The loop of etcdWatcher_addOwnNode: the key and the value that are set for each endpoint. A wire id
-- that is NULL is printed, which is a fault.
unfoldable pub publish_each : CString → CString → List Endpoint → Option (List (CString × CString))
publish_each path before [] = some []
publish_each path before (e ∷ es) = do
  w ← wire_id e
  value ← store before e.properties
  rest ← publish_each path before es
  some ((cut (path ++ (47 ∷ w)), value) ∷ rest)

-- etcdWatcher_addOwnNode: what it sets in etcd. `before` is what the buffer holds at the start.
unfoldable pub add_own_node :
    Option CString → CString → NodeDescription → Option (List (CString × CString))
add_own_node configured before own = do
  path ← local_node_path configured own
  publish_each path before own.endpoints

-- sscanf: a literal part of the format
unfoldable pub literal : CString → CString → Option CString
literal [] s = some s
literal (c ∷ f) [] = none
literal (c ∷ f) (d ∷ s) = if c == d then literal f s else none

-- The characters up to the first '/'.
unfoldable pub span : CString → CString × CString
span [] = ([], [])
span (c ∷ s) = let rest = span s in if c == 47 then ([], c ∷ s) else (c ∷ rest.0, rest.1)

-- sscanf: %[^/], which wants a character at least
unfoldable pub segment : CString → Option (CString × CString)
segment s = let found = span s in if is_empty found.0 then none else some found

-- "%[^/]/%[^/]/%[^/].*": zone, node and wire
unfoldable pub read_parts : CString → Option (CString × CString × CString)
read_parts s = do
  (zone, s1) ← segment s
  s2 ← literal (47 ∷ []) s1
  (node_id, s3) ← segment s2
  s4 ← literal (47 ∷ []) s3
  (wire, s5) ← segment s4
  some (zone, node_id, wire)

-- sscanf with "/<root>/%[^/]/%[^/]/%[^/].*": zone, node and wire, `none` if it finds fewer
unfoldable pub parse_key : CString → CString → Option (CString × CString × CString)
parse_key root key = literal (47 ∷ (root ++ (47 ∷ []))) key >>= read_parts

-- What the watcher's surroundings give: the configured root path, utils_stringTrim, a generated uuid,
-- and where the endpoint is allocated.
pub record Setting : Type 0 where
  pub configured : Option CString
  pub trim : CString → CString
  pub uuid : CString
  pub address : ℕ

unfoldable pub load_value : (CString → CString) → Option CString → Option Properties
load_value trim none = some []
load_value trim (some v) = do (status, p) ← load trim v (some []); p

unfoldable pub add_found :
    NodeDescription → Status × Option Endpoint → Status × Option NodeDescription
add_found d (status, none) = (status, some d)
add_found d (status, some e) = (status, some (record d { endpoints = d.endpoints ++ (e ∷ []) }))

unfoldable pub describe :
    Setting
    → Option CString
    → Option (CString × CString × CString)
    → Option (Status × Option NodeDescription)
describe c value none = some (illegal_state, none)
describe c value (some (zone, node_id, wire)) = do
  p ← load_value c.trim value
  created ← create (some c.address) c.uuid true (some wire) (some p)
  some (add_found (create_node node_id zone) created)

-- etcdWatcher_getWiringEndpointFromKey
unfoldable pub get_wiring_endpoint_from_key :
    Setting → CString → Option CString → Option (Status × Option NodeDescription)
get_wiring_endpoint_from_key c key value = do
  root ← root_path c.configured
  describe c value (parse_key root key)

-- What etcd_watch reports.
pub record Change : Type 0 where
  pub action : CString
  pub key : CString
  pub value : CString

abbrev pub is_set : CString → Bool
is_set a = same_text a (codes "set") || same_text a (codes "create") || same_text a (codes "update")

abbrev pub is_gone : CString → Bool
is_gone a = same_text a (codes "delete") || same_text a (codes "expire")

-- A description that is not there is a null pointer that is read.
unfoldable pub on_success :
    (NodeDescription → Option (Discovery × List Event))
    → Discovery
    → Status × Option NodeDescription
    → Option (Discovery × List Event)
on_success k s (status, d) = if is_success status then d >>= k else some (s, [])

-- The body of the loop of etcdWatcher_run, for a change that etcd_watch reports.
unfoldable pub handle : Framework → Setting → Discovery → Change → Option (Discovery × List Event)
handle f c s change =
    if is_set change.action
    then (do
      found ← get_wiring_endpoint_from_key c change.key (some change.value)
      on_success (add_node f s) s found)
    else if is_gone change.action
    then (do
      found ← get_wiring_endpoint_from_key c change.key none
      on_success (remove_node f s) s found)
    else some (s, [])

-- The loop of etcdWatcher_addAlreadyExistingNodes over the keys, with what etcd_get answers for each;
-- the description is added whatever the status.
unfoldable pub add_existing :
    Framework
    → Setting
    → Discovery
    → List (CString × Option CString)
    → Option (Discovery × List Event)
add_existing f c s [] = some (s, [])
add_existing f c s ((key, none) ∷ keys) = add_existing f c s keys
add_existing f c s ((key, some value) ∷ keys) = do
  (status, found) ← get_wiring_endpoint_from_key c key (some value)
  d ← found
  (s', ev) ← add_node f s d
  (last, later) ← add_existing f c s' keys
  some (last, ev ++ later)
