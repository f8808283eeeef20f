-- ===== src/Endpoint/Tests.antt =====
-- Witnesses for wiring_endpoint_description.c.
use node_wiring_secure.Base.{ℕ, CString, codes, [], ◌∷◌, some, ◌≡◌, ◌↔◌}
use node_wiring_secure.Endpoint.{Endpoint, wire_id_key, wire_id, hash, equals}
use node_wiring_secure.Endpoint.Laws.{equals_iff, SameWire}

abbrev wire : ℕ → Endpoint
wire a = record { address = a; properties = (wire_id_key, codes "w") ∷ [] }

equals_iff_example :
    ((equals (some (wire 1)) (some (wire 2)) ≡ some 0)
      ↔ SameWire (wire_id (wire 1)) (wire_id (wire 2)))
    × ((string_hash : CString → ℕ)
        → equals (some (wire 1)) (some (wire 2)) ≡ some 0
        → hash string_hash (wire 1) ≡ hash string_hash (wire 2))
equals_iff_example = equals_iff (wire 1) (wire 2)
