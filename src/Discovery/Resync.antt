-- ===== src/Discovery/Resync.antt =====
-- The periodic full synchronisation adds nodes that are known already.
use node_wiring_secure.Base.{
  true, CString, same_text, same_text_iff, same_text_refl, List, [], ◌∷◌, ◌++◌, some, Option-cases,
  inl, inr, ◌≡◌, refl, sym, ◌∙◌, any, map, All, All-append, arith, append-nil, subst,
}
use mathlib.Core.Option.{some-injective}
use node_wiring_secure.Celix.HashMap.{lookup-insert, insert_same}
use node_wiring_secure.Endpoint.{Endpoint}
use node_wiring_secure.Discovery.{Discovery, NodeDescription, add_node, node, put_node}
use node_wiring_secure.Discovery.Listening.{Event, Framework, Listeners, destroyed, node_destroyed}
use node_wiring_secure.Discovery.Wires.{
  IsWired, AreWired, same_wire, wire_is, any-same_wire, fresh, merge_events,
}
use node_wiring_secure.Discovery.Knowledge.{
  NodesAreWired, with_endpoints, add_node_known, add_node_new, node-wired,
}
use node_wiring_secure.Discovery.WireSets.{any-fresh, AreWired-fresh, wire_is_text}

-- Each endpoint's wire is among those of `available`.
abbrev Covered : List Endpoint → List Endpoint → Type 0
Covered es available = All (λ e. any (same_wire e) available ≡ true) es

fresh-Covered : (es available : List Endpoint) → Covered es available → fresh es available ≡ []
unfolding fresh
fresh-Covered [] available h = refl
fresh-Covered (e ∷ es) available h = rw (h.0, fresh-Covered es available h.1)

merge_events-Covered :
    (f : Framework) (rs : Listeners) (es available : List Endpoint)
    → Covered es available
    → merge_events f rs es available ≡ map destroyed es
unfolding merge_events
merge_events-Covered f rs [] available h = refl
merge_events-Covered f rs (e ∷ es) available h =
    rw (h.0, merge_events-Covered f rs es available h.1)

-- All of `es` are covered where every wire of `es` is one of `available`.
Covered-wires :
    (es available : List Endpoint)
    → AreWired es
    → ((w : CString) → any (wire_is w) es ≡ true → any (wire_is w) available ≡ true)
    → Covered es available
unfolding any
Covered-wires [] available h k = tt
Covered-wires (e ∷ es) available ((w, p), hs) k = (
  any-same_wire e w available p ∙ k w (ground (arith, wire_is_text w w e p, same_text_refl w)),
  Covered-wires es available hs (λ v q. k v (ground arith)),
)

Covered-refl : (es : List Endpoint) → AreWired es → Covered es es
Covered-refl es h = Covered-wires es es h (λ w q. q)

Covered-fresh :
    (es available : List Endpoint) → AreWired es → Covered es (available ++ fresh es available)
Covered-fresh es available h =
    Covered-wires es (available ++ fresh es available) h
      (λ w q. ground (arith, any-fresh w es available h))

node-put_node_self :
    (s : Discovery) (k : CString) (d : NodeDescription) → node (put_node s k d) k ≡ some d
node-put_node_self s k d =
    ground (arith, lookup-insert same_text same_text_iff k k d s.discovered_nodes, same_text_refl k)

-- A description whose wires the node has already changes nothing, and nobody is told of it.
add_node-Covered :
    (f : Framework) (s : Discovery) (d old : NodeDescription)
    → node s d.node_id ≡ some old
    → AreWired d.endpoints
    → AreWired old.endpoints
    → Covered d.endpoints old.endpoints
    → add_node f s d ≡ some (s, map destroyed d.endpoints ++ (node_destroyed d.node_id ∷ []))
add_node-Covered f s d old found k wired c =
    let nothing = fresh-Covered d.endpoints old.endpoints c in
    add_node_known f s d old found k wired
    ∙ rw (
      nothing,
      merge_events-Covered f s.listeners d.endpoints old.endpoints c,
      append-nil,
      insert_same same_text d.node_id old s.discovered_nodes found,
    )

abbrev pub Again : Framework → NodeDescription → Discovery × List Event → Type 0
Again f d y =
    add_node f y.0 d ≡ some (y.0, map destroyed d.endpoints ++ (node_destroyed d.node_id ∷ []))

-- Where all endpoints have wire ids: adding a description once more, right after it was added,
-- changes nothing and tells no listener anything; all its endpoints and the description itself
-- are destroyed.
pub add_node_again :
    (f : Framework) (s : Discovery) (d : NodeDescription) (x : Discovery × List Event)
    → NodesAreWired s
    → AreWired d.endpoints
    → add_node f s d ≡ some x
    → add_node f x.0 d ≡ some (x.0, map destroyed d.endpoints ++ (node_destroyed d.node_id ∷ []))
add_node_again f s d x h k p = elim (Option-cases (node s d.node_id)) [
  | inl new ↦
      subst (λ y. Again f d y) (some-injective _ x (sym (add_node_new f s d new) ∙ p))
        (add_node-Covered f _ d d (node-put_node_self s d.node_id d) k k
          (Covered-refl d.endpoints k))
  | inr (old, found) ↦
      let wired = node-wired s d.node_id old h found in
      let es : List Endpoint = old.endpoints ++ fresh d.endpoints old.endpoints in
      let old' : NodeDescription = with_endpoints old es in
      subst (λ y. Again f d y)
        (some-injective _ x (sym (add_node_known f s d old found k wired) ∙ p))
        (add_node-Covered f _ d old' (node-put_node_self s d.node_id old') k
          (All-append IsWired old.endpoints _ wired (AreWired-fresh d.endpoints old.endpoints k))
          (Covered-fresh d.endpoints old.endpoints k))
]
