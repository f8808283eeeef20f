-- ===== src/Discovery/Tests.antt =====
-- Tests and witnesses for node_discovery.c.
use node_wiring_secure.Base.{
  ℕ, ◌+◌, Bool, true, CString, codes, same_text, same_text_refl, List, [], ◌∷◌, ◌++◌, none, some,
  if◌then◌else◌, ◌≡◌, refl, not, ◌&&◌, ◌||◌, any, count, map, All, arith,
}
use node_wiring_secure.Celix.{success}
use node_wiring_secure.Endpoint.{Endpoint, wire_id_key, wire_id, get, strcmp_eq}
use node_wiring_secure.Celix.HashMap.{lookup, insert}
use node_wiring_secure.Discovery.{
  Discovery, NodeDescription, add_node, remove_node, put_own, known, wiring_endpoint_added,
}
use node_wiring_secure.Discovery.Listening.{
  Event, Framework, is_own, destroyed, node_destroyed, own_node_written, added, inform, notice,
}
use node_wiring_secure.Discovery.Loops.{merge, has_wire}
use node_wiring_secure.Discovery.Wires.{IsWired, AreWired, same_wire, wire_is}
use node_wiring_secure.Discovery.Knowledge.{NodesAreWired, knows, add_node-knows, remove_node-knows}
use node_wiring_secure.Discovery.Notices.{additions, removals, heard}
use node_wiring_secure.Discovery.Run.{
  Input, node_found, node_lost, exported, listener_came, listener_went, run, Balanced,
}
use node_wiring_secure.Discovery.Own.{wiring_endpoint_added_lem}
use node_wiring_secure.Discovery.Inputs.{Ready, Fits}
use node_wiring_secure.Discovery.Sync.{run-Ready, run_from_registration}
use node_wiring_secure.Discovery.Resync.{add_node_again}
use node_wiring_secure.Discovery.Unique.{AreDistinct, NodesAreDistinct, nodes-AreDistinct}

-- Every filter matches, and no service reference has a property.
abbrev everyone : Framework
everyone = record { property = λ r k. none; matches = λ s p. true }

abbrev wire : ℕ → CString → Endpoint
wire a w = record { address = a; properties = (wire_id_key, w) ∷ [] }

abbrev described : List Endpoint → NodeDescription
described es = record { node_id = codes "n"; zone_id = codes "z"; endpoints = es; properties = [] }

abbrev start : Discovery
start = record { own_node = described []; discovered_nodes = []; listeners = [] }

abbrev known_first : NodeDescription
known_first = described (wire 1 (codes "a") ∷ wire 2 (codes "b") ∷ [])

abbrev found_later : NodeDescription
found_later = described (wire 3 (codes "b") ∷ wire 4 (codes "c") ∷ [])

abbrev listening : Discovery
listening = record start { discovered_nodes = (codes "n", known_first) ∷ []; listeners = 1 ∷ [] }

wire-IsWired : (a : ℕ) (w : CString) → IsWired (wire a w)
unfolding wire_id get lookup
wire-IsWired a w = (w, ground (arith, same_text_refl wire_id_key))

first-AreWired : AreWired known_first.endpoints
first-AreWired = (wire-IsWired 1 (codes "a"), (wire-IsWired 2 (codes "b"), tt))

later-AreWired : AreWired found_later.endpoints
later-AreWired = (wire-IsWired 3 (codes "b"), (wire-IsWired 4 (codes "c"), tt))

listening-wired : NodesAreWired listening
listening-wired = (first-AreWired, tt)

listening-Ready : Ready everyone 1 listening
unfolding count
listening-Ready = record {
  nodes = listening-wired;
  own = tt;
  hears = record { present = refl; not_rsa = refl };
}

abbrev merged : Discovery
merged = record listening {
  discovered_nodes =
      (codes "n", described (wire 1 (codes "a") ∷ wire 2 (codes "b") ∷ wire 4 (codes "c") ∷ []))
      ∷ [];
}

-- The known wire is destroyed, the new one announced.
add_node_merges :
    add_node everyone listening found_later
    ≡ some (
      merged,
      destroyed (wire 3 (codes "b"))
          ∷ added 1 (wire 4 (codes "c")) none
          ∷ node_destroyed (codes "n")
          ∷ [],
    )
unfolding add_node merge has_wire strcmp_eq wire_id get lookup insert same_text inform notice
    wire_id_key
add_node_merges = refl

abbrev inputs : List Input
inputs =
    node_found found_later
    ∷ exported (wire 5 (codes "d"))
    ∷ node_lost known_first
    ∷ listener_went 2
    ∷ []

inputs_fit : All (Fits 1) inputs
inputs_fit = (later-AreWired, (wire-IsWired 5 (codes "d"), (first-AreWired, (omega arith, tt))))

add_node-knows_example :
    (x : Discovery × List Event) × (add_node everyone listening found_later ≡ some x)
    × NodesAreWired x.0
    × ((n w : CString)
        → knows x.0 n w ≡ (
            knows listening n w
            || (same_text n found_later.node_id && any (wire_is w) found_later.endpoints)))
add_node-knows_example =
    add_node-knows everyone listening found_later listening-wired later-AreWired

remove_node-knows_example :
    (x : Discovery × List Event) × (remove_node everyone listening found_later ≡ some x)
    × NodesAreWired x.0
    × ((n w : CString)
        → knows x.0 n w ≡ (
            knows listening n w
            && not (same_text n found_later.node_id && any (wire_is w) found_later.endpoints)))
remove_node-knows_example =
    remove_node-knows everyone listening found_later listening-wired later-AreWired

run-Ready_example :
    (x : Discovery × List Event) × (run everyone listening inputs ≡ some x)
    × Ready everyone 1 x.0
    × Balanced everyone 1 listening x.1 x.0
run-Ready_example = run-Ready everyone 1 listening inputs listening-Ready inputs_fit

run_from_registration_example :
    (x : Discovery × List Event) × (run everyone
        (record listening { listeners = [] })
        (listener_came 1 ∷ inputs)
      ≡ some x)
    × ((p : Endpoint → Bool)
        → additions 1 p x.1 ≡ removals 1 p x.1 + count (heard everyone 1 p) (known x.0))
unfolding count is_own
run_from_registration_example =
    run_from_registration everyone 1 (record listening { listeners = [] }) inputs listening-wired tt
      refl refl refl inputs_fit

add_node_again_example :
    add_node everyone merged found_later
    ≡ some
        (merged, map destroyed found_later.endpoints ++ (node_destroyed found_later.node_id ∷ []))
add_node_again_example =
    add_node_again everyone listening found_later _ listening-wired later-AreWired add_node_merges

later-AreDistinct : AreDistinct found_later.endpoints
unfolding any same_wire wire_id get lookup same_text wire_id_key
later-AreDistinct = (refl, (refl, tt))

first-AreDistinct : AreDistinct known_first.endpoints
unfolding any same_wire wire_id get lookup same_text wire_id_key
first-AreDistinct = (refl, (refl, tt))

nodes-AreDistinct_example :
    ((x : Discovery × List Event) × (add_node everyone listening found_later ≡ some x)
      × NodesAreDistinct x.0)
    × ((x : Discovery × List Event) × (remove_node everyone listening found_later ≡ some x)
        × NodesAreDistinct x.0)
nodes-AreDistinct_example =
    nodes-AreDistinct everyone listening found_later listening-wired (first-AreDistinct, tt)
      later-AreWired later-AreDistinct

wiring_endpoint_added_lem_example :
    wiring_endpoint_added (put_own start (wire 1 (codes "a") ∷ [])) (wire 2 (codes "a")) ≡ (
      if any (same_wire (wire 2 (codes "a"))) (wire 1 (codes "a") ∷ [])
      then some (success, put_own start (wire 1 (codes "a") ∷ []), [])
      else some (
        success,
        put_own start (wire 1 (codes "a") ∷ wire 2 (codes "a") ∷ []),
        own_node_written (wire 1 (codes "a") ∷ wire 2 (codes "a") ∷ []) ∷ [],
      ))
wiring_endpoint_added_lem_example =
    wiring_endpoint_added_lem (put_own start (wire 1 (codes "a") ∷ [])) (wire 2 (codes "a"))
      (wire-IsWired 2 (codes "a")) (wire-IsWired 1 (codes "a"), tt)
