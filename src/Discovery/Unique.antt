-- ===== src/Discovery/Unique.antt =====
-- No node has two endpoints with one wire id.
use node_wiring_secure.Base.{
  Bool, false, same_text, List, [], ◌∷◌, ◌++◌, some, Bool-cases, Option-cases, inl, inr, ◌≡◌, refl,
  ◌∙◌, not, any, filter, arith, append-nil, append_assoc, any-append,
}
use node_wiring_secure.Celix.HashMap.{AllValues, insert-AllValues, lookup-AllValues}
use node_wiring_secure.Endpoint.{Endpoint}
use node_wiring_secure.Discovery.{Discovery, NodeDescription, add_node, remove_node, node}
use node_wiring_secure.Discovery.Listening.{Event, Framework}
use node_wiring_secure.Discovery.Wires.{
  IsWired, AreWired, same_wire, fresh, without_wires, same_text_comm, AreWired-snoc,
}
use node_wiring_secure.Discovery.Knowledge.{
  NodesAreWired, add_node_known, add_node_new, remove_node_known, remove_node_new, node-wired,
}

-- No wire id stands twice.
abbrev pub AreDistinct : List Endpoint → Type 0
AreDistinct [] = Unit
AreDistinct (e ∷ es) = (any (same_wire e) es ≡ false) × AreDistinct es

same_wire_comm : (e d : Endpoint) → IsWired e → IsWired d → same_wire e d ≡ same_wire d e
unfolding same_wire
same_wire_comm e d (v, p) (w, q) = ground (arith, same_text_comm v w)

AreDistinct-snoc :
    (es : List Endpoint) (e : Endpoint)
    → AreWired es
    → IsWired e
    → AreDistinct es
    → any (same_wire e) es ≡ false
    → AreDistinct (es ++ (e ∷ []))
unfolding any
AreDistinct-snoc [] e h p d new = (refl, tt)
AreDistinct-snoc (x ∷ es) e h p d new = (
  any-append (same_wire x) es (e ∷ []) ∙ ground (arith, d.0, same_wire_comm e x p h.0),
  AreDistinct-snoc es e h.1 p d.1 (ground arith),
)

AreDistinct-fresh :
    (es available : List Endpoint)
    → AreWired es
    → AreWired available
    → AreDistinct available
    → AreDistinct (available ++ fresh es available)
unfolding fresh
AreDistinct-fresh [] available h k d = rw append-nil d
AreDistinct-fresh (e ∷ es) available h k d = elim (Bool-cases (any (same_wire e) available)) [
  | inl old ↦ rw old (AreDistinct-fresh es available h.1 k d)
  | inr new ↦
      rw (new, ← append_assoc)
        (AreDistinct-fresh es (available ++ (e ∷ [])) h.1 (AreWired-snoc available e k h.0)
          (AreDistinct-snoc available e k h.0 d new))
]

any-filter-false :
    (p q : Endpoint → Bool) (es : List Endpoint) → any p es ≡ false → any p (filter q es) ≡ false
unfolding any filter
any-filter-false p q [] h = refl
any-filter-false p q (e ∷ es) h = ground (arith, any-filter-false p q es)

AreDistinct-filter :
    (q : Endpoint → Bool) (es : List Endpoint) → AreDistinct es → AreDistinct (filter q es)
unfolding filter
AreDistinct-filter q [] d = tt
AreDistinct-filter q (e ∷ es) d = elim (Bool-cases (q e)) [
  | inl stays ↦ rw stays (any-filter-false (same_wire e) q es d.0, AreDistinct-filter q es d.1)
  | inr goes ↦ rw goes (AreDistinct-filter q es d.1)
]

AreDistinct-without_wires :
    (requested es : List Endpoint) → AreDistinct es → AreDistinct (without_wires requested es)
unfolding without_wires
AreDistinct-without_wires [] es d = d
AreDistinct-without_wires (e ∷ requested) es d =
    AreDistinct-without_wires requested _ (AreDistinct-filter (λ x. not (same_wire e x)) es d)

abbrev pub HasDistinct : NodeDescription → Type 0
HasDistinct d = AreDistinct d.endpoints

abbrev pub NodesAreDistinct : Discovery → Type 0
NodesAreDistinct s = AllValues HasDistinct same_text s.discovered_nodes

-- Where all endpoints have wire ids, and no discovered node has one twice, nor the description,
-- neither adding nor removing the description faults, and after either no discovered node has a
-- wire id twice.
pub nodes-AreDistinct :
    (f : Framework) (s : Discovery) (d : NodeDescription)
    → NodesAreWired s
    → NodesAreDistinct s
    → AreWired d.endpoints
    → AreDistinct d.endpoints
    → ((x : Discovery × List Event) × (add_node f s d ≡ some x) × NodesAreDistinct x.0)
      × ((x : Discovery × List Event) × (remove_node f s d ≡ some x) × NodesAreDistinct x.0)
nodes-AreDistinct f s d h u k distinct = elim (Option-cases (node s d.node_id)) [
  | inl new ↦ (
    (
      _,
      add_node_new f s d new,
      insert-AllValues HasDistinct same_text d.node_id d s.discovered_nodes distinct u,
    ),
    (_, remove_node_new f s d new, u),
  )
  | inr (old, found) ↦
      let wired = node-wired s d.node_id old h found in
      let unique =
        lookup-AllValues HasDistinct same_text d.node_id s.discovered_nodes old u found in
      (
        (
          _,
          add_node_known f s d old found k wired,
          insert-AllValues HasDistinct same_text d.node_id _ s.discovered_nodes
              (AreDistinct-fresh d.endpoints old.endpoints k wired unique) u,
        ),
        (
          _,
          remove_node_known f s d old found k wired,
          insert-AllValues HasDistinct same_text d.node_id _ s.discovered_nodes
              (AreDistinct-without_wires d.endpoints old.endpoints unique) u,
        ),
      )
]
