-- ===== src/Discovery/Own.antt =====
-- The own node's endpoints (node_discovery_wiringEndpointAdded and -Removed), and the set of the
-- listeners.
use node_wiring_secure.Base.{
  ℕ, Bool, List, [], ◌∷◌, ◌++◌, some, if◌then◌else◌, ◌==◌, Bool-cases, inl, inr, ◌≡◌, ◌≢◌, refl,
  any, count, erase_first, arith,
}
use node_wiring_secure.Celix.{success}
use node_wiring_secure.Endpoint.{Endpoint, wire_id, strcmp_eq}
use node_wiring_secure.Discovery.{
  Discovery, put_own, wiring_endpoint_added, wiring_endpoint_removed,
}
use node_wiring_secure.Discovery.Listening.{own_node_written, Framework, join, leave, offer}
use node_wiring_secure.Discovery.Loops.{remove_first}
use node_wiring_secure.Discovery.Wires.{IsWired, AreWired, same_wire, has_wire_same}
use node_wiring_secure.Discovery.Notices.{
  additions, removals, is_addition, is_removal, heard, times,
}

-- Where the own endpoints have wire ids: an exported endpoint with a wire id joins the own node, and
-- that is written to etcd, exactly if no own endpoint has its wire id; the status is a success in
-- both cases.
pub wiring_endpoint_added_lem :
    (s : Discovery) (e : Endpoint)
    → IsWired e
    → AreWired s.own_node.endpoints
    → wiring_endpoint_added s e ≡ (
        if any (same_wire e) s.own_node.endpoints
        then some (success, s, [])
        else some (
          success,
          put_own s (s.own_node.endpoints ++ (e ∷ [])),
          own_node_written (s.own_node.endpoints ++ (e ∷ [])) ∷ [],
        ))
unfolding wiring_endpoint_added
wiring_endpoint_added_lem s e h k = rw (has_wire_same e s.own_node.endpoints h k)

strcmp_eq_own :
    (e d : Endpoint)
    → IsWired e
    → IsWired d
    → strcmp_eq (wire_id e) (wire_id d) ≡ some (same_wire e d)
unfolding strcmp_eq same_wire
strcmp_eq_own e d (v, p) (w, q) = ground arith

remove_first_wired :
    (e : Endpoint) (es : List Endpoint)
    → IsWired e
    → AreWired es
    → remove_first (wire_id e) es ≡ some (erase_first (same_wire e) es)
unfolding remove_first erase_first
remove_first_wired e [] h k = refl
remove_first_wired e (d ∷ es) h k =
    ground (arith, strcmp_eq_own e d h k.0, remove_first_wired e es h k.1)

pub wiring_endpoint_removed_lem :
    (s : Discovery) (e : Endpoint)
    → IsWired e
    → AreWired s.own_node.endpoints
    → wiring_endpoint_removed s e
      ≡ some (success, put_own s (erase_first (same_wire e) s.own_node.endpoints), [])
unfolding wiring_endpoint_removed
wiring_endpoint_removed_lem s e h k = rw (remove_first_wired e s.own_node.endpoints h k)

pub times-join : (r q : ℕ) (rs : List ℕ) → q ≢ r → times r (join q rs) ≡ times r rs
unfolding join count
times-join r q [] h = ground arith
times-join r q (x ∷ rs) h = ground (arith, times-join r q rs h)

pub times-join_self : (r : ℕ) (rs : List ℕ) → times r rs ≡ 0 → times r (join r rs) ≡ 1
unfolding join count
times-join_self r [] h = ground arith
times-join_self r (x ∷ rs) h = ground (arith, times-join_self r rs (ground arith))

pub times-leave : (r q : ℕ) (rs : List ℕ) → q ≢ r → times r (leave q rs) ≡ times r rs
unfolding leave count
times-leave r q [] h = refl
times-leave r q (x ∷ rs) h = ground (arith, times-leave r q rs h)

-- A new listener is told of the endpoints that it accepts, and nobody else is told anything.
pub offer_counts :
    (f : Framework) (r q : ℕ) (p : Endpoint → Bool) (es : List Endpoint)
    → (additions r p (offer f q es) ≡ (if r == q then count (heard f r p) es else 0))
      × (removals r p (offer f q es) ≡ 0)
unfolding offer count is_addition is_removal
offer_counts f r q p [] = ground arith
offer_counts f r q p (e ∷ es) = elim (Bool-cases (r == q)) [
  | inl hit ↦
      let same : r ≡ q = ground arith in rw (← same) (ground (arith, offer_counts f r r p es))
  | inr miss ↦ ground (arith, offer_counts f r q p es)
]
