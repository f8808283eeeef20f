-- ===== src/Discovery/Wires.antt =====
-- The loops over endpoint lists, for endpoints that have wire ids, as plain list functions.
use node_wiring_secure.Base.{
  Bool, true, false, CString, same_text, same_text_iff, List, [], ◌∷◌, ◌++◌, Option, none, some,
  if◌then◌else◌, Bool-cases, inl, inr, ◌≡◌, refl, not, any, filter, All, arith, All-append,
  All-filter, append_assoc, append-nil,
}
use node_wiring_secure.Endpoint.{Endpoint, wire_id, strcmp_eq}
use node_wiring_secure.Discovery.Listening.{Event, Framework, Listeners, inform, destroyed}
use node_wiring_secure.Discovery.Loops.{has_wire, merge, withdraw, withdraw_all, announce}

-- The endpoint has a wire id; wiringEndpointDescription_create gives every description one.
abbrev pub IsWired : Endpoint → Type 0
IsWired e = (w : CString) × (wire_id e ≡ some w)

abbrev pub AreWired : List Endpoint → Type 0
AreWired es = All IsWired es

abbrev pub is_text : CString → Option CString → Bool
is_text w none = false
is_text w (some v) = same_text w v

-- The endpoint's wire id is `w`.
unfoldable pub wire_is : CString → Endpoint → Bool
wire_is w e = is_text w (wire_id e)

abbrev both_same : Option CString → Option CString → Bool
both_same none v = false
both_same (some w) v = is_text w v

unfoldable pub same_wire : Endpoint → Endpoint → Bool
same_wire e d = both_same (wire_id e) (wire_id d)

strcmp_eq_wired :
    (w : CString) (e : Endpoint) → IsWired e → strcmp_eq (some w) (wire_id e) ≡ some (wire_is w e)
unfolding strcmp_eq wire_is
strcmp_eq_wired w e (v, p) = ground arith

has_wire_wired :
    (w : CString) (es : List Endpoint)
    → AreWired es
    → has_wire (some w) es ≡ some (any (wire_is w) es)
unfolding has_wire any
has_wire_wired w [] h = refl
has_wire_wired w (e ∷ es) h = ground (arith, strcmp_eq_wired w e h.0, has_wire_wired w es h.1)

pub same_text_comm : (v w : CString) → same_text v w ≡ same_text w v
same_text_comm v w = ground (arith, same_text_iff v w, same_text_iff w v)

-- The endpoints that a description adds to those that are available.
unfoldable pub fresh : List Endpoint → List Endpoint → List Endpoint
fresh [] available = []
fresh (e ∷ es) available =
    let found = any (same_wire e) available in
    (if found then [] else e ∷ []) ++ fresh es (if found then available else available ++ (e ∷ []))

unfoldable pub merge_events : Framework → Listeners → List Endpoint → List Endpoint → List Event
merge_events f rs [] available = []
merge_events f rs (e ∷ es) available =
    let found = any (same_wire e) available in
    (if found then destroyed e ∷ [] else inform f rs e true)
    ++ merge_events f rs es (if found then available else available ++ (e ∷ []))

pub same_wire_wired :
    (e d : Endpoint) (w : CString) → wire_id e ≡ some w → same_wire e d ≡ wire_is w d
unfolding same_wire wire_is
same_wire_wired e d w p = ground arith

pub any-same_wire :
    (e : Endpoint) (w : CString) (es : List Endpoint)
    → wire_id e ≡ some w
    → any (same_wire e) es ≡ any (wire_is w) es
unfolding any
any-same_wire e w [] p = refl
any-same_wire e w (d ∷ es) p = ground (arith, same_wire_wired e d w p, any-same_wire e w es p)

pub has_wire_same :
    (e : Endpoint) (es : List Endpoint)
    → IsWired e
    → AreWired es
    → has_wire (wire_id e) es ≡ some (any (same_wire e) es)
has_wire_same e es (w, p) h = rw (any-same_wire e w es p, p) (has_wire_wired w es h)

pub AreWired-snoc :
    (es : List Endpoint) (e : Endpoint) → AreWired es → IsWired e → AreWired (es ++ (e ∷ []))
AreWired-snoc es e h p = All-append IsWired es (e ∷ []) h (p, tt)

pub merge_wired :
    (f : Framework) (rs : Listeners) (es available : List Endpoint)
    → AreWired es
    → AreWired available
    → merge f rs es available
      ≡ some (available ++ fresh es available, merge_events f rs es available)
unfolding merge fresh merge_events
merge_wired f rs [] available h k = simp append-nil
merge_wired f rs (e ∷ es) available h k = elim (Bool-cases (any (same_wire e) available)) [
  | inl old ↦ rw (has_wire_same e available h.0 k, old, merge_wired f rs es available h.1 k)
  | inr new ↦ rw (
    has_wire_same e available h.0 k,
    new,
    merge_wired f rs es (available ++ (e ∷ [])) h.1 (AreWired-snoc available e k h.0),
    append_assoc,
  )
]

-- What is left of `es` when the wires of all of `requested` are withdrawn.
unfoldable pub without_wires : List Endpoint → List Endpoint → List Endpoint
without_wires [] es = es
without_wires (e ∷ requested) es = without_wires requested (filter (λ d. not (same_wire e d)) es)

pub strcmp_eq_same :
    (e d : Endpoint)
    → IsWired e
    → IsWired d
    → strcmp_eq (wire_id d) (wire_id e) ≡ some (same_wire e d)
unfolding strcmp_eq same_wire
strcmp_eq_same e d (v, p) (w, q) = ground (arith, same_text_comm v w)

-- What is left of a node's endpoints when a wire is withdrawn, and what the listeners are told.
withdraw_wired :
    (f : Framework) (rs : Listeners) (e : Endpoint) (es : List Endpoint)
    → IsWired e
    → AreWired es
    → withdraw f rs (wire_id e) es
      ≡ some (filter (λ d. not (same_wire e d)) es, announce f rs (filter (same_wire e) es) false)
unfolding withdraw filter announce
withdraw_wired f rs e [] p h = refl
withdraw_wired f rs e (d ∷ es) p h =
    ground (arith, strcmp_eq_same e d p h.0, withdraw_wired f rs e es p h.1)

unfoldable pub withdraw_events : Framework → Listeners → List Endpoint → List Endpoint → List Event
withdraw_events f rs [] es = []
withdraw_events f rs (e ∷ requested) es =
    announce f rs (filter (same_wire e) es) false
    ++ withdraw_events f rs requested (filter (λ d. not (same_wire e d)) es)

pub withdraw_all_wired :
    (f : Framework) (rs : Listeners) (requested es : List Endpoint)
    → AreWired requested
    → AreWired es
    → withdraw_all f rs requested es
      ≡ some (without_wires requested es, withdraw_events f rs requested es)
unfolding withdraw_all without_wires withdraw_events
withdraw_all_wired f rs [] es h k = refl
withdraw_all_wired f rs (e ∷ requested) es h k = rw (
  withdraw_wired f rs e es h.0 k,
  withdraw_all_wired f rs requested (filter (λ d. not (same_wire e d)) es) h.1
      (All-filter IsWired (λ d. not (same_wire e d)) es k),
)
