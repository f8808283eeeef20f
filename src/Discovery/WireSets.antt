-- ===== src/Discovery/WireSets.antt =====
-- The wires of the lists that the loops of node_discovery.c leave.
use node_wiring_secure.Base.{
  true, CString, same_text, same_text_iff, List, [], ◌∷◌, ◌++◌, some, Bool-cases, inl, inr, ◌≡◌,
  refl, not, ◌&&◌, ◌||◌, any, filter, arith, any-append, All-filter, append-nil, append_assoc, sym,
  ◌∙◌,
}
use node_wiring_secure.Endpoint.{Endpoint, wire_id}
use node_wiring_secure.Discovery.Wires.{
  IsWired, AreWired, wire_is, same_wire, fresh, without_wires, any-same_wire, same_wire_wired,
}

-- An endpoint with wire `w` that is found in `es` by its wire shows `w` among the wires of `es`.
found_wire :
    (w : CString) (e : Endpoint) (es : List Endpoint)
    → IsWired e
    → any (same_wire e) es ≡ true
    → wire_is w e ≡ true
    → any (wire_is w) es ≡ true
unfolding wire_is
found_wire w e es (v, p) found h =
    let v_is_w : w ≡ v = ground (arith, same_text_iff w v) in
    rw v_is_w (sym (any-same_wire e v es p) ∙ found)

pub wire_is_text : (w v : CString) (e : Endpoint) → wire_id e ≡ some v → wire_is w e ≡ same_text w v
unfolding wire_is
wire_is_text w v e p = rw p

pub any-fresh :
    (w : CString) (es available : List Endpoint)
    → AreWired es
    → any (wire_is w) (available ++ fresh es available)
      ≡ (any (wire_is w) available || any (wire_is w) es)
unfolding fresh any
any-fresh w [] available h = ground (arith, append-nil available)
any-fresh w (e ∷ es) available h = elim (Bool-cases (any (same_wire e) available)) [
  | inl old ↦
      rw (old, any-fresh w es available h.1) (ground (arith, found_wire w e available h.0 old))
  | inr new ↦
      rw
        (
          new,
          ← append_assoc,
          any-fresh w es (available ++ (e ∷ [])) h.1,
          any-append (wire_is w) available (e ∷ []),
        )
        (ground arith)
]

any-filter :
    (w : CString) (e : Endpoint) (es : List Endpoint)
    → IsWired e
    → AreWired es
    → any (wire_is w) (filter (λ d. not (same_wire e d)) es)
      ≡ (any (wire_is w) es && not (wire_is w e))
unfolding filter any
any-filter w e [] p h = refl
any-filter w e (d ∷ es) (v, p) (h, hs) = ground (
  arith,
  any-filter w e es (v, p) hs,
  same_wire_wired e d v p,
  wire_is_text w v e p,
  wire_is_text w h.0 d h.1,
  wire_is_text v h.0 d h.1,
  same_text_iff w v,
  same_text_iff w h.0,
  same_text_iff v h.0,
)

pub any-without_wires :
    (w : CString) (requested es : List Endpoint)
    → AreWired requested
    → AreWired es
    → any (wire_is w) (without_wires requested es)
      ≡ (any (wire_is w) es && not (any (wire_is w) requested))
unfolding without_wires any
any-without_wires w [] es h k = ground arith
any-without_wires w (e ∷ requested) es h k =
    let left : List Endpoint = filter (λ d. not (same_wire e d)) es in
    ground (
      arith,
      any-without_wires w requested left h.1 (All-filter IsWired (λ d. not (same_wire e d)) es k),
      any-filter w e es h.0 k,
    )

pub AreWired-fresh : (es available : List Endpoint) → AreWired es → AreWired (fresh es available)
unfolding fresh
AreWired-fresh [] available h = tt
AreWired-fresh (e ∷ es) available h = elim (Bool-cases (any (same_wire e) available)) [
  | inl old ↦ rw old (AreWired-fresh es available h.1)
  | inr new ↦ rw new (h.0, AreWired-fresh es (available ++ (e ∷ [])) h.1)
]

pub AreWired-without_wires :
    (requested es : List Endpoint) → AreWired es → AreWired (without_wires requested es)
unfolding without_wires
AreWired-without_wires [] es h = h
AreWired-without_wires (e ∷ requested) es h =
    AreWired-without_wires requested _ (All-filter IsWired (λ d. not (same_wire e d)) es h)
