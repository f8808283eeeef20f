-- ===== src/Activators.antt =====
-- node_discovery/private/src/node_discovery_activator.c and
-- wiring_topology_manager/private/src/wtm_activator.c: the two listeners of a node and their scopes.
-- `key` is OSGI_RSA_ENDPOINT_FRAMEWORK_UUID.
pub mod Hearing
pub mod Scopes
mod Tests
use node_wiring_secure.Base.{
  ℕ, Bool, true, false, CString, codes, same_text, List, [], ◌∷◌, ◌++◌, Option, none, some, ◌>>=◌,
  if◌then◌else◌,
}
use node_wiring_secure.Celix.{Properties, Status, success, enomem, illegal_state, is_success}
use node_wiring_secure.Endpoint.{Endpoint, get, set}
use node_wiring_secure.Listener.{scope_key, true_text}

-- The filter for the endpoints of one framework, and the one for all others.
unfoldable pub own_scope : CString → CString → CString
own_scope key uuid = codes "(" ++ (key ++ (codes "=" ++ (uuid ++ codes ")")))

unfoldable pub foreign_scope : CString → CString → CString
foreign_scope key uuid = codes "(!(" ++ (key ++ (codes "=" ++ (uuid ++ codes "))")))

-- The properties that the node discovery and the topology manager register their listeners with.
unfoldable pub discovery_listener : CString → CString → Properties
discovery_listener key uuid =
    set (set [] (codes "NODE_DISCOVERY") true_text) scope_key (own_scope key uuid)

unfoldable pub topology_listener : CString → CString → Properties
topology_listener key uuid = set (set [] scope_key (foreign_scope key uuid)) (codes "WTM") true_text

-- What Celix answers at a start: the framework's uuid, whether there is memory, and the status of the
-- steps, which are node_discovery_start, the opening of the tracker and the registration.
pub record DiscoveryStart : Type 0 where
  pub uuid : Status × Option CString
  pub memory : Bool
  pub starts : Status
  pub opens : Status
  pub registers : Status

-- bundleActivator_start of the node discovery: the status, and the properties of the listener if it is
-- registered. A uuid that is NULL is read.
unfoldable pub start_discovery : CString → DiscoveryStart → Option (Status × Option Properties)
start_discovery key a =
    if is_success a.uuid.0
    then (do
      uuid ← a.uuid.1
      let props = discovery_listener key uuid
      some (
          if a.memory
          then if is_success a.starts
            then if is_success a.opens then (a.registers, some props) else (a.opens, none)
            else (a.starts, none)
          else (enomem, none)))
    else some (a.uuid.0, none)

-- The topology manager's: the status of the uuid, the uuid, whether there is memory, and the status of
-- opening the tracker of the listeners.
pub record TopologyStart : Type 0 where
  pub uuid : Status × Option CString
  pub memory : Bool
  pub opens : Status

-- bundleActivator_start of the topology manager: the status, and the properties of the listener, whose
-- registration is not asked for its status.
unfoldable pub start_topology : CString → TopologyStart → Status × Option Properties
start_topology key a =
    if a.memory
    then elim a.uuid.1 [
      | none ↦ (illegal_state, none)
      | some uuid ↦
          (if is_success a.uuid.0 then a.opens else a.uuid.0, some (topology_listener key uuid))
    ]
    else (enomem, none)
