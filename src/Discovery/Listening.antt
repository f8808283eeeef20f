-- ===== src/Discovery/Listening.antt =====
-- The wiring endpoint listeners of node_discovery.c, and what the discovery tells them.
use node_wiring_secure.Base.{
  ℕ, Bool, false, CString, codes, List, [], ◌∷◌, ◌++◌, Option, none, some, if◌then◌else◌, same_text,
}
pub use node_wiring_secure.Listener.{Framework, Listeners}
unfoldable pub use node_wiring_secure.Listener.{
  scope_key, rsa_key, true_text, is_none, scope, accepts, join, leave,
}
use node_wiring_secure.Endpoint.{Endpoint}

-- What the discovery does to the outside. A listener's callback gets the endpoint and the filter
-- that is handed to it.
pub data Event : Type 0 where
  added removed : ℕ → Endpoint → Option CString → Event
  destroyed : Endpoint → Event
  node_destroyed : CString → Event
  own_node_written : List Endpoint → Event

unfoldable pub node_discovery_key : CString
node_discovery_key = codes "NODE_DISCOVERY"

-- The body of the loop of node_discovery_informWiringEndpointListeners, where bundleContext_getService
-- gives the listener of a tracked reference: the code does not look at its status, and would call a
-- listener that is NULL.
unfoldable pub notice : Framework → ℕ → Endpoint → Bool → List Event
notice f r e is_added =
    if accepts f r e
    then if is_added
      then if is_none (f.property r rsa_key) then added r e (scope f r) ∷ [] else []
      else removed r e (scope f r) ∷ []
    else []

-- node_discovery_informWiringEndpointListeners
unfoldable pub inform : Framework → Listeners → Endpoint → Bool → List Event
inform f [] e is_added = []
inform f (r ∷ rs) e is_added = notice f r e is_added ++ inform f rs e is_added

-- Each known endpoint that a new listener accepts is offered to it, with no filter.
unfoldable pub offer : Framework → ℕ → List Endpoint → List Event
offer f r [] = []
offer f r (e ∷ es) = (if accepts f r e then added r e none ∷ [] else []) ++ offer f r es

-- The reference is the discovery's own listener.
unfoldable pub is_own : Framework → ℕ → Bool
is_own f r = elim (f.property r node_discovery_key) [
  | none ↦ false
  | some v ↦ same_text v true_text
]
