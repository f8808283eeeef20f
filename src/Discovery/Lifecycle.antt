-- ===== src/Discovery/Lifecycle.antt =====
-- How a node discovery is made, started and destroyed.
use node_wiring_secure.Base.{
  Bool, true, false, CString, List, [], ◌∷◌, ◌++◌, Option, none, some, if◌then◌else◌, ◌≡◌, refl, ap,
  ◌∙◌, append-nil,
}
use node_wiring_secure.Celix.{Status, enomem, illegal_state}
use node_wiring_secure.Celix.HashMap.{Map}
use node_wiring_secure.Endpoint.{Endpoint}
use node_wiring_secure.Discovery.{Discovery, NodeDescription, create_own_node, known, known_of}
use node_wiring_secure.Discovery.Listening.{
  Event, added, removed, destroyed, node_destroyed, own_node_written,
}

-- What Celix answers while a node discovery is made: whether there is memory, whether the three
-- mutexes can be made, and the properties for the zone, the node and the framework's uuid, `none` for
-- a failure or for NULL.
pub record Creating : Type 0 where
  pub allocated : Bool
  pub listener_mutex : Bool
  pub nodes_mutex : Bool
  pub own_mutex : Bool
  pub zone : Option CString
  pub node : Option CString
  pub uuid : Option CString

-- The discovery with its own node, if it has one.
abbrev pub with_own : Status × Option NodeDescription → Status × Option Discovery
with_own (status, none) = (status, none)
with_own (status, some own) =
    (status, some (record { own_node = own; discovered_nodes = []; listeners = [] }))

-- node_discovery_create: the status, and the discovery if it is complete
unfoldable pub create_discovery : Creating → Status × Option Discovery
create_discovery a =
    if a.allocated
    then if a.listener_mutex
      then if a.nodes_mutex
        then if a.own_mutex
          then with_own (create_own_node a.zone a.node a.uuid)
          else (illegal_state, none)
        else (illegal_state, none)
      else (illegal_state, none)
    else (enomem, none)

unfoldable pub destroy_each : List Endpoint → List Event
destroy_each [] = []
destroy_each (e ∷ es) = destroyed e ∷ destroy_each es

-- nodeDescription_destroy, with its endpoints or without
unfoldable pub destroy_node : NodeDescription → Bool → List Event
destroy_node d true = destroy_each d.endpoints ++ (node_destroyed d.node_id ∷ [])
destroy_node d false = node_destroyed d.node_id ∷ []

unfoldable pub destroy_nodes : Map CString NodeDescription → List Event
destroy_nodes [] = []
destroy_nodes ((n, d) ∷ nodes) = destroy_node d true ++ destroy_nodes nodes

-- node_discovery_destroy: the own endpoints belong to the wiring admins and stay.
unfoldable pub destroy_discovery : Discovery → List Event
destroy_discovery s = destroy_nodes s.discovered_nodes ++ destroy_node s.own_node false

-- The endpoints that the events destroy.
abbrev pub gone_of : List Event → List Endpoint
gone_of [] = []
gone_of (destroyed e ∷ events) = e ∷ gone_of events
gone_of (added r e s ∷ events) = gone_of events
gone_of (removed r e s ∷ events) = gone_of events
gone_of (node_destroyed n ∷ events) = gone_of events
gone_of (own_node_written es ∷ events) = gone_of events

gone_of-append : (ev ev' : List Event) → gone_of (ev ++ ev') ≡ gone_of ev ++ gone_of ev'
gone_of-append [] ev' = refl
gone_of-append (destroyed e ∷ events) ev' = ap (λ es. e ∷ es) (gone_of-append events ev')
gone_of-append (added r e s ∷ events) ev' = gone_of-append events ev'
gone_of-append (removed r e s ∷ events) ev' = gone_of-append events ev'
gone_of-append (node_destroyed n ∷ events) ev' = gone_of-append events ev'
gone_of-append (own_node_written es ∷ events) ev' = gone_of-append events ev'

gone_of-destroy_each : (es : List Endpoint) → gone_of (destroy_each es) ≡ es
unfolding destroy_each
gone_of-destroy_each [] = refl
gone_of-destroy_each (e ∷ es) = ap (λ es. e ∷ es) (gone_of-destroy_each es)

gone_of-destroy_nodes :
    (nodes : Map CString NodeDescription) → gone_of (destroy_nodes nodes) ≡ known_of nodes
unfolding destroy_nodes destroy_node known_of
gone_of-destroy_nodes [] = refl
gone_of-destroy_nodes ((n, d) ∷ nodes) =
    gone_of-append (destroy_each d.endpoints ++ (node_destroyed d.node_id ∷ []))
      (destroy_nodes nodes)
    ∙ rw (gone_of-append, gone_of-destroy_each, append-nil)
        (ap (λ es. d.endpoints ++ es) (gone_of-destroy_nodes nodes))

-- The end of a discovery destroys the endpoints that it knows, each once for each time that it is
-- listed, and no own endpoint.
pub destroy_discovery-gone : (s : Discovery) → gone_of (destroy_discovery s) ≡ known s
unfolding destroy_discovery destroy_node
destroy_discovery-gone s =
    gone_of-append (destroy_nodes s.discovered_nodes) (destroy_node s.own_node false)
    ∙ rw (gone_of-destroy_nodes, append-nil)
