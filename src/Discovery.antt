-- ===== src/Discovery.antt =====
-- node_discovery/private/src/node_discovery.c and node_description.c: the nodes that were found, the
-- own node, and the wiring endpoint listeners that are told of endpoints.
pub mod Listening
pub mod Loops
pub mod Wires
pub mod WireSets
pub mod Knowledge
pub mod Notices
pub mod Run
pub mod Own
pub mod Inputs
pub mod Sync
pub mod Resync
pub mod Unique
pub mod Lifecycle
mod Tests
use node_wiring_secure.Base.{
  ℕ, true, false, CString, codes, same_text, List, [], ◌∷◌, ◌++◌, Option, none, some, ◌>>=◌,
  if◌then◌else◌,
}
use node_wiring_secure.Celix.{
  Properties, Status, success, illegal_state, bundle_exception, is_success,
}
use node_wiring_secure.Celix.HashMap.{Map, lookup, insert}
use node_wiring_secure.Endpoint.{Endpoint, wire_id}
use Listening.{
  Event, Framework, Listeners, inform, node_destroyed, join, leave, own_node_written, offer, is_own,
}
use Loops.{has_wire, merge, withdraw_all, remove_first, announce}

-- struct node_description
pub record NodeDescription : Type 0 where
  pub node_id : CString
  pub zone_id : CString
  pub endpoints : List Endpoint
  pub properties : Properties

-- struct node_discovery
pub record Discovery : Type 0 where
  pub own_node : NodeDescription
  pub discovered_nodes : Map CString NodeDescription
  pub listeners : Listeners

-- A handler's result: `none` is a fault, a comparison with the NULL of a missing wire id.
abbrev pub Handled : Type 0
Handled = Option (Discovery × List Event)

default_zone : CString
default_zone = codes "inaetics-testing"

abbrev pub or_default : Option CString → CString → CString
or_default none d = d
or_default (some s) d = s

-- nodeDescription_create
unfoldable pub create_node : CString → CString → NodeDescription
create_node n z = record { node_id = n; zone_id = z; endpoints = []; properties = [] }

-- node_discovery_createOwnNodeDescription. The arguments are what the bundle context answers for the
-- zone, the node and the framework uuid, `none` for a failure or for NULL.
unfoldable pub create_own_node :
    Option CString → Option CString → Option CString → Status × Option NodeDescription
unfolding default_zone create_node
create_own_node z (some n) uuid = (success, some (create_node n (or_default z default_zone)))
create_own_node z none (some u) = (success, some (create_node u (or_default z default_zone)))
create_own_node z none none = (illegal_state, none)

abbrev pub node : Discovery → CString → Option NodeDescription
node s n = lookup same_text n s.discovered_nodes

abbrev pub put_node : Discovery → CString → NodeDescription → Discovery
put_node s n d = record s { discovered_nodes = insert same_text n d s.discovered_nodes }

-- The two branches of node_discovery_addNode: of a known node the new endpoints are added, and the
-- description is destroyed; an unknown node is stored as it is, and all its endpoints announced.
add_to : Framework → Discovery → NodeDescription → Option NodeDescription → Handled
add_to f s d (some known) = do
  (es, ev) ← merge f s.listeners d.endpoints known.endpoints
  some (
    put_node s d.node_id (record known { endpoints = es }),
    ev ++ (node_destroyed d.node_id ∷ []),
  )
add_to f s d none = some (put_node s d.node_id d, announce f s.listeners d.endpoints true)

-- node_discovery_addNode
unfoldable pub add_node : Framework → Discovery → NodeDescription → Handled
unfolding add_to
add_node f s d = add_to f s d (node s d.node_id)

remove_from : Framework → Discovery → NodeDescription → Option NodeDescription → Handled
remove_from f s d none = some (s, [])
remove_from f s d (some known) = do
  (es, ev) ← withdraw_all f s.listeners d.endpoints known.endpoints
  some (put_node s d.node_id (record known { endpoints = es }), ev)

-- node_discovery_removeNode
unfoldable pub remove_node : Framework → Discovery → NodeDescription → Handled
unfolding remove_from
remove_node f s d = remove_from f s d (node s d.node_id)

abbrev pub put_own : Discovery → List Endpoint → Discovery
put_own s es = record s { own_node = record s.own_node { endpoints = es } }

-- node_discovery_wiringEndpointAdded: an exported endpoint is published unless its wire is known.
-- The status of the search is overwritten by that of the unlocking.
unfoldable pub wiring_endpoint_added :
    Discovery → Endpoint → Option (Status × Discovery × List Event)
wiring_endpoint_added s e = do
  found ← has_wire (wire_id e) s.own_node.endpoints
  let es = s.own_node.endpoints ++ (e ∷ [])
  if found then some (success, s, []) else some (success, put_own s es, own_node_written es ∷ [])

-- node_discovery_wiringEndpointRemoved
unfoldable pub wiring_endpoint_removed :
    Discovery → Endpoint → Option (Status × Discovery × List Event)
wiring_endpoint_removed s e = do
  es ← remove_first (wire_id e) s.own_node.endpoints
  some (success, put_own s es, [])

-- All endpoints of all discovered nodes, in iteration order.
unfoldable pub known_of : Map CString NodeDescription → List Endpoint
known_of [] = []
known_of ((n, d) ∷ m) = d.endpoints ++ known_of m

abbrev pub known : Discovery → List Endpoint
known s = known_of s.discovered_nodes

-- node_discovery_wiringEndpointListenerAdded
unfoldable pub listener_added : Framework → Discovery → ℕ → Discovery × List Event
listener_added f s r =
    if is_own f r
    then (s, [])
    else (record s { listeners = join r s.listeners }, offer f r (known s))

-- node_discovery_wiringEndpointListenerRemoved
unfoldable pub listener_removed : Discovery → ℕ → Discovery × List Event
listener_removed s r = (record s { listeners = leave r s.listeners }, [])

-- node_discovery_wiringEndpointListenerModified
unfoldable pub listener_modified : Framework → Discovery → ℕ → Discovery × List Event
listener_modified f s r = listener_added f (listener_removed s r).0 r

-- node_discovery_stop, by the status of etcdWatcher_destroy
unfoldable pub stop : Framework → Discovery → Status → Status × List Event
stop f s status =
    if is_success status
    then (success, announce f s.listeners (known s) false)
    else (bundle_exception, [])
