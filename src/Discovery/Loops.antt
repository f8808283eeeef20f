-- ===== src/Discovery/Loops.antt =====
-- The loops over endpoint lists in node_discovery.c.
use node_wiring_secure.Base.{
  Bool, true, false, CString, List, [], ◌∷◌, ◌++◌, Option, some, ◌>>=◌, if◌then◌else◌,
}
use node_wiring_secure.Endpoint.{Endpoint, wire_id, strcmp_eq}
use node_wiring_secure.Discovery.Listening.{Event, Framework, Listeners, inform, destroyed}

-- The search for an endpoint with this wire id, which stops at the first.
unfoldable pub has_wire : Option CString → List Endpoint → Option Bool
has_wire w [] = some false
has_wire w (e ∷ es) = do
  let rest = has_wire w es
  found ← strcmp_eq w (wire_id e)
  if found then some true else rest

-- The loop of node_discovery_addNode over the endpoints of a description of a known node: what is
-- new is added and announced, and what is there already is destroyed.
unfoldable pub merge :
    Framework → Listeners → List Endpoint → List Endpoint → Option (List Endpoint × List Event)
merge f rs [] available = some (available, [])
merge f rs (e ∷ es) available = do
  found ← has_wire (wire_id e) available
  (all, ev) ← merge f rs es (if found then available else available ++ (e ∷ []))
  some (all, (if found then destroyed e ∷ [] else inform f rs e true) ++ ev)

-- The inner loop of node_discovery_removeNode: every endpoint with the wire id is removed.
unfoldable pub withdraw :
    Framework → Listeners → Option CString → List Endpoint → Option (List Endpoint × List Event)
withdraw f rs w [] = some ([], [])
withdraw f rs w (e ∷ es) = do
  found ← strcmp_eq (wire_id e) w
  (kept, ev) ← withdraw f rs w es
  some (if found then kept else e ∷ kept, (if found then inform f rs e false else []) ++ ev)

-- The outer loop of node_discovery_removeNode, over the endpoints of the request.
unfoldable pub withdraw_all :
    Framework → Listeners → List Endpoint → List Endpoint → Option (List Endpoint × List Event)
withdraw_all f rs [] available = some (available, [])
withdraw_all f rs (e ∷ es) available = do
  (kept, ev) ← withdraw f rs (wire_id e) available
  (rest, later) ← withdraw_all f rs es kept
  some (rest, ev ++ later)

-- The loop of node_discovery_wiringEndpointRemoved, which breaks at the first match.
unfoldable pub remove_first : Option CString → List Endpoint → Option (List Endpoint)
remove_first w [] = some []
remove_first w (e ∷ es) = do
  let rest = remove_first w es
  found ← strcmp_eq w (wire_id e)
  if found then some es else (do kept ← rest; some (e ∷ kept))

-- Each endpoint is announced to the listeners, as added or as removed.
unfoldable pub announce : Framework → Listeners → List Endpoint → Bool → List Event
announce f rs [] is_added = []
announce f rs (e ∷ es) is_added = inform f rs e is_added ++ announce f rs es is_added
