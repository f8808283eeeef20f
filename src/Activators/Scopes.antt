-- ===== src/Activators/Scopes.antt =====
-- Which endpoints the node discovery and the topology manager of a node tell each other.
use node_wiring_secure.Base.{
  ℕ, Bool, true, false, not, CString, codes, same_text, ◌++◌, none, some, ◌≡◌, ◌≢◌, refl, ap, ◌∙◌,
  filter, repeat_if, arith, length,
}
use node_wiring_secure.Celix.{Properties, success, is_success}
use node_wiring_secure.Celix.HashMap.{lookup, insert}
use node_wiring_secure.Endpoint.{Endpoint, get, set}
use node_wiring_secure.Listener.{Framework, Listeners, scope_key, rsa_key, accepts}
use node_wiring_secure.Discovery.Listening.{inform}
use node_wiring_secure.Topology.World.{Outside, World, History}
use node_wiring_secure.Topology.Notify.{concerns, notify}
use node_wiring_secure.Topology.Notify.Wanting.{called, tells_to, listed_times, notify-listener}
use node_wiring_secure.Activators.Hearing.{heard, heard_by, filter-inform}
use node_wiring_secure.Activators.{own_scope, foreign_scope, discovery_listener, topology_listener}

-- The endpoint is of this framework.
abbrev pub is_of : CString → CString → Endpoint → Bool
is_of key uuid e = elim (get e.properties key) [ none ↦ false | some u ↦ same_text u uuid ]

-- A service reference has the properties that the service was registered with, besides those that
-- Celix sets itself.
abbrev pub IsRegistered : Framework → ℕ → Properties → Type 0
IsRegistered f r props =
    (k : CString) → k ≢ codes "service.id" → k ≢ codes "objectClass" → f.property r k ≡ get props k

registered_scope :
    (f : Framework) (r : ℕ) (props : Properties)
    → IsRegistered f r props
    → f.property r scope_key ≡ get props scope_key
unfolding scope_key
registered_scope f r props h =
    h scope_key (λ q. omega (arith, ap length q)) (λ q. omega (arith, ap length q))

registered_rsa :
    (f : Framework) (r : ℕ) (props : Properties)
    → IsRegistered f r props
    → f.property r rsa_key ≡ get props rsa_key
unfolding rsa_key
registered_rsa f r props h =
    h rsa_key (λ q. omega (arith, ap length q)) (λ q. omega (arith, ap length q))

-- The filters of the two scopes match the endpoints of the framework, and the others.
abbrev pub ReadsScopes : Framework → CString → CString → Type 0
ReadsScopes f key uuid =
    (e : Endpoint)
    → (f.matches (some (own_scope key uuid)) e.properties ≡ is_of key uuid e)
      × (f.matches (some (foreign_scope key uuid)) e.properties ≡ not (is_of key uuid e))

discovery_listener-scope :
    (key uuid : CString) → get (discovery_listener key uuid) scope_key ≡ some (own_scope key uuid)
unfolding get set discovery_listener lookup insert same_text scope_key
discovery_listener-scope key uuid = refl

discovery_listener-rsa : (key uuid : CString) → get (discovery_listener key uuid) rsa_key ≡ none
unfolding get set discovery_listener lookup insert same_text scope_key rsa_key
discovery_listener-rsa key uuid = refl

topology_listener-scope :
    (key uuid : CString)
    → get (topology_listener key uuid) scope_key ≡ some (foreign_scope key uuid)
unfolding get set topology_listener lookup insert same_text scope_key
topology_listener-scope key uuid = refl

topology_listener-rsa : (key uuid : CString) → get (topology_listener key uuid) rsa_key ≡ none
unfolding get set topology_listener lookup insert same_text scope_key rsa_key
topology_listener-rsa key uuid = refl

concerned :
    (o : Outside) (r : ℕ) (e : Endpoint) (b : Bool)
    → accepts o.framework r e ≡ b
    → o.framework.property r rsa_key ≡ none
    → concerns o r e ≡ b
concerned o r e true matched plain = rw matched refl
concerned o r e false matched plain = rw (matched, plain) refl

-- Where the references have the properties that the activators register the listeners with, besides
-- service.id and objectClass, filters are read as they are meant, and the discovery's listener can be
-- got: of an endpoint that comes or goes, the discovery tells the topology manager, once for each time
-- that its reference is listed, if the endpoint is of another framework, and does not if it is of this
-- one; and a notification of the topology manager tells the discovery, once for each time that it is
-- listed, if the endpoint is of this framework, and does not if it is of another; so that neither
-- hears again what it has said.
pub told-split :
    (o : Outside) (key uuid : CString) (t d : ℕ) (e : Endpoint) (is_added : Bool) (rs : Listeners)
    (w : World)
    → IsRegistered o.framework t (topology_listener key uuid)
    → IsRegistered o.framework d (discovery_listener key uuid)
    → ReadsScopes o.framework key uuid
    → ((h : History) → is_success (o.get_service h d) ≡ true)
    → (filter (heard_by t) (inform o.framework rs e is_added)
        ≡ repeat_if
            (not (is_of key uuid e))
            (listed_times t rs)
            (heard is_added t e (some (foreign_scope key uuid))))
      × ((w' : World) × (notify o is_added e w ≡ some (success, w'))
          × (filter (tells_to d) w'.history
              ≡ filter (tells_to d) w.history
                ++ repeat_if
                    (is_of key uuid e)
                    (listed_times d w.manager.listener_list)
                    (called is_added d e (some (own_scope key uuid)))))
told-split o key uuid t d e is_added rs w at_t at_d reads got =
    let f = o.framework in
    let scope_t = registered_scope f t _ at_t ∙ topology_listener-scope key uuid in
    let rsa_t = registered_rsa f t _ at_t ∙ topology_listener-rsa key uuid in
    let scope_d = registered_scope f d _ at_d ∙ discovery_listener-scope key uuid in
    let rsa_d = registered_rsa f d _ at_d ∙ discovery_listener-rsa key uuid in
    let matched : accepts f d e ≡ is_of key uuid e =
      ap (λ s. f.matches s e.properties) scope_d ∙ (reads e).0 in
    let (w', ran, same, told) =
      notify-listener o is_added (is_of key uuid e) e d w got (concerned o d e _ matched rsa_d) in
    (
      filter-inform f t e is_added (not (is_of key uuid e)) (some (foreign_scope key uuid))
          (ap (λ s. f.matches s e.properties) scope_t ∙ (reads e).1) scope_t rsa_t rs,
      (
        w',
        ran,
        told
            ∙ ap
                (λ s.
                  filter (tells_to d) w.history
                  ++ repeat_if (is_of key uuid e) (listed_times d w.manager.listener_list)
                      (called is_added d e s))
                scope_d,
      ),
    )
