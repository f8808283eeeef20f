-- ===== src/Discovery/Knowledge.antt =====
-- What the discovery knows, as a set of wires for each node: node_discovery_addNode is the union
-- with the description's wires, node_discovery_removeNode the difference.
use node_wiring_secure.Base.{
  Bool, true, false, CString, same_text, same_text_iff, List, [], ◌∷◌, ◌++◌, Option, none, some,
  if◌then◌else◌, Option-cases, inl, inr, ◌≡◌, not, ◌&&◌, ◌||◌, any, arith, All-append,
}
use node_wiring_secure.Endpoint.{Endpoint}
use node_wiring_secure.Celix.HashMap.{AllValues, lookup-AllValues, insert-AllValues, lookup-insert}
use node_wiring_secure.Discovery.{
  Discovery, NodeDescription, add_node, add_to, remove_node, remove_from, node, put_node,
}
use node_wiring_secure.Discovery.Loops.{announce}
use node_wiring_secure.Discovery.Listening.{Event, Framework, node_destroyed}
use node_wiring_secure.Discovery.WireSets.{
  any-fresh, any-without_wires, AreWired-fresh, AreWired-without_wires,
}
use node_wiring_secure.Discovery.Wires.{
  IsWired, AreWired, wire_is, fresh, without_wires, merge_wired, withdraw_all_wired, merge_events,
  withdraw_events,
}

-- Every endpoint of a discovered node has a wire id.
abbrev pub IsWiredNode : NodeDescription → Type 0
IsWiredNode d = AreWired d.endpoints

abbrev pub NodesAreWired : Discovery → Type 0
NodesAreWired s = AllValues IsWiredNode same_text s.discovered_nodes

-- The abstract view: node `n` has an endpoint with wire `w`.
unfoldable pub knows : Discovery → CString → CString → Bool
knows s n w = elim (node s n) [ none ↦ false | some d ↦ any (wire_is w) d.endpoints ]

node-put_node :
    (s : Discovery) (k n : CString) (d : NodeDescription)
    → node (put_node s k d) n ≡ (if same_text n k then some d else node s n)
node-put_node s k n d = lookup-insert same_text same_text_iff k n d s.discovered_nodes

knows-put_node :
    (s : Discovery) (k n w : CString) (d : NodeDescription)
    → knows (put_node s k d) n w
      ≡ (if same_text n k then any (wire_is w) d.endpoints else knows s n w)
unfolding knows
knows-put_node s k n w d = ground (arith, node-put_node s k n d)

known_wires : Option NodeDescription → CString → Bool
known_wires none w = false
known_wires (some d) w = any (wire_is w) d.endpoints

knows_at :
    (s : Discovery) (n k w : CString) (o : Option NodeDescription)
    → node s k ≡ o
    → same_text n k ≡ true
    → knows s n w ≡ known_wires o w
unfolding knows known_wires
knows_at s n k w o p h = rw ((same_text_iff n k).0 h) (ground arith)

-- A known node whose endpoints are replaced by `es`.
abbrev pub with_endpoints : NodeDescription → List Endpoint → NodeDescription
with_endpoints d es = record d { endpoints = es }

-- What the two handlers return for endpoints with wire ids.
pub add_node_known :
    (f : Framework) (s : Discovery) (d old : NodeDescription)
    → node s d.node_id ≡ some old
    → AreWired d.endpoints
    → AreWired old.endpoints
    → add_node f s d
      ≡ some (
        put_node s d.node_id
            (with_endpoints old (old.endpoints ++ fresh d.endpoints old.endpoints)),
        merge_events f s.listeners d.endpoints old.endpoints ++ (node_destroyed d.node_id ∷ []),
      )
unfolding add_node
add_node_known f s d old found k wired =
    rw (found, add_to, merge_wired f s.listeners d.endpoints old.endpoints k wired)

pub add_node_new :
    (f : Framework) (s : Discovery) (d : NodeDescription)
    → node s d.node_id ≡ none
    → add_node f s d ≡ some (put_node s d.node_id d, announce f s.listeners d.endpoints true)
unfolding add_node
add_node_new f s d new = rw (new, add_to)

pub remove_node_known :
    (f : Framework) (s : Discovery) (d old : NodeDescription)
    → node s d.node_id ≡ some old
    → AreWired d.endpoints
    → AreWired old.endpoints
    → remove_node f s d
      ≡ some (
        put_node s d.node_id (with_endpoints old (without_wires d.endpoints old.endpoints)),
        withdraw_events f s.listeners d.endpoints old.endpoints,
      )
unfolding remove_node
remove_node_known f s d old found k wired =
    rw (found, remove_from, withdraw_all_wired f s.listeners d.endpoints old.endpoints k wired)

pub remove_node_new :
    (f : Framework) (s : Discovery) (d : NodeDescription)
    → node s d.node_id ≡ none
    → remove_node f s d ≡ some (s, [])
unfolding remove_node
remove_node_new f s d new = rw (new, remove_from)

-- The endpoints of a discovered node have wire ids.
pub node-wired :
    (s : Discovery) (n : CString) (old : NodeDescription)
    → NodesAreWired s
    → node s n ≡ some old
    → AreWired old.endpoints
node-wired s n old h found = lookup-AllValues IsWiredNode same_text n s.discovered_nodes old h found

-- Where all endpoints have wire ids, adding a node does not fault, keeps that all endpoints have wire
-- ids, and afterwards a node has a wire exactly if it had it before, or if it is the added node and
-- the wire is in the description.
pub add_node-knows :
    (f : Framework) (s : Discovery) (d : NodeDescription)
    → NodesAreWired s
    → AreWired d.endpoints
    → (r : Discovery × List Event) × (add_node f s d ≡ some r)
      × NodesAreWired r.0
      × ((n w : CString)
          → knows r.0 n w ≡ (knows s n w || (same_text n d.node_id && any (wire_is w) d.endpoints)))
unfolding known_wires
add_node-knows f s d h k = elim (Option-cases (node s d.node_id)) [
  | inl new ↦ (
    (put_node s d.node_id d, announce f s.listeners d.endpoints true),
    add_node_new f s d new,
    insert-AllValues IsWiredNode same_text d.node_id d s.discovered_nodes k h,
    λ n w. ground (arith, knows-put_node s d.node_id n w d, knows_at s n d.node_id w none new),
  )
  | inr (old, found) ↦
      let wired = node-wired s d.node_id old h found in
      let es : List Endpoint = old.endpoints ++ fresh d.endpoints old.endpoints in
      let old' : NodeDescription = with_endpoints old es in
      (
        (
          put_node s d.node_id old',
          merge_events f s.listeners d.endpoints old.endpoints ++ (node_destroyed d.node_id ∷ []),
        ),
        add_node_known f s d old found k wired,
        insert-AllValues IsWiredNode same_text d.node_id old' s.discovered_nodes
            (All-append IsWired old.endpoints _ wired (AreWired-fresh d.endpoints old.endpoints k))
            h,
        λ n w. ground (
          arith,
          knows-put_node s d.node_id n w old',
          knows_at s n d.node_id w (some old) found,
          any-fresh w d.endpoints old.endpoints k,
        ),
      )
]

-- Where all endpoints have wire ids, a removal does not fault, keeps that all endpoints have wire ids,
-- and afterwards a node has a wire exactly if it had it before and it is not a wire of the request at
-- the node that the request names.
pub remove_node-knows :
    (f : Framework) (s : Discovery) (d : NodeDescription)
    → NodesAreWired s
    → AreWired d.endpoints
    → (r : Discovery × List Event) × (remove_node f s d ≡ some r)
      × NodesAreWired r.0
      × ((n w : CString)
          → knows r.0 n w
            ≡ (knows s n w && not (same_text n d.node_id && any (wire_is w) d.endpoints)))
unfolding known_wires
remove_node-knows f s d h k = elim (Option-cases (node s d.node_id)) [
  | inl new ↦ (
    (s, []),
    remove_node_new f s d new,
    h,
    λ n w. ground (arith, knows_at s n d.node_id w none new),
  )
  | inr (old, found) ↦
      let wired = node-wired s d.node_id old h found in
      let es : List Endpoint = without_wires d.endpoints old.endpoints in
      let old' : NodeDescription = with_endpoints old es in
      (
        (put_node s d.node_id old', withdraw_events f s.listeners d.endpoints old.endpoints),
        remove_node_known f s d old found k wired,
        insert-AllValues IsWiredNode same_text d.node_id old' s.discovered_nodes
            (AreWired-without_wires d.endpoints old.endpoints wired) h,
        λ n w. ground (
          arith,
          knows-put_node s d.node_id n w old',
          knows_at s n d.node_id w (some old) found,
          any-without_wires w d.endpoints old.endpoints k wired,
        ),
      )
]
