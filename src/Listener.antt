-- ===== src/Listener.antt =====
-- wiring_endpoint_listener.h: the listeners of wiring endpoints, as node_discovery.c and wtm.c keep
-- them, and what Celix answers about them.
use node_wiring_secure.Base.{
  ℕ, Bool, true, false, CString, codes, List, [], ◌∷◌, Option, none, some, ◌==◌, if◌then◌else◌,
}
use node_wiring_secure.Celix.{Properties}
use node_wiring_secure.Endpoint.{Endpoint}

-- What Celix answers: serviceReference_getProperty for a service reference, and filter_match for
-- the filter made from a scope.
pub record Framework : Type 0 where
  pub property : ℕ → CString → Option CString
  pub matches : Option CString → Properties → Bool

unfoldable pub scope_key : CString
scope_key = codes "wiring.endpoint.listener.scope"

unfoldable pub rsa_key : CString
rsa_key = codes "RSA"

unfoldable pub true_text : CString
true_text = codes "true"

-- The keys of a hash map of listeners, in iteration order; every value is NULL.
abbrev pub Listeners : Type 0
Listeners = List ℕ

abbrev pub is_none {ℓ} : {A : Type ℓ} → Option A → Bool
is_none none = true
is_none (some a) = false

abbrev pub scope : Framework → ℕ → Option CString
scope f r = f.property r scope_key

-- The listener's filter matches the endpoint.
abbrev pub accepts : Framework → ℕ → Endpoint → Bool
accepts f r e = f.matches (scope f r) e.properties

-- hashMap_put and hashMap_remove of such a map
unfoldable pub join : ℕ → Listeners → Listeners
join r [] = r ∷ []
join r (q ∷ qs) = if r == q then q ∷ qs else q ∷ join r qs

unfoldable pub leave : ℕ → Listeners → Listeners
leave r [] = []
leave r (q ∷ qs) = if r == q then qs else q ∷ leave r qs
