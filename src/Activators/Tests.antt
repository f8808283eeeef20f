-- ===== src/Activators/Tests.antt =====
-- The scopes of the two listeners of a node "u".
use node_wiring_secure.Base.{
  true, false, not, codes, same_text, [], ◌∷◌, none, some, if◌then◌else◌, ◌==◌, filter, count,
  repeat, ◌≡◌, refl,
}
use node_wiring_secure.Celix.{Properties, success, is_success, bundle_exception}
use node_wiring_secure.Celix.HashMap.{lookup}
use node_wiring_secure.Endpoint.{Endpoint, get}
use node_wiring_secure.Listener.{Framework}
use node_wiring_secure.Discovery.Listening.{added, inform}
use node_wiring_secure.Topology.World.{Outside, World}
use node_wiring_secure.Topology.Notify.{notify}
use node_wiring_secure.Topology.Notify.Wanting.{tells_to}
use node_wiring_secure.Activators.{own_scope, foreign_scope, discovery_listener, topology_listener}
use node_wiring_secure.Activators.Scopes.{is_of, ReadsScopes, told-split}
use node_wiring_secure.Activators.Hearing.{heard_by}

abbrev bare : Properties → Endpoint
bare p = record { address = 0; properties = p }

-- The topology manager's listener is 1.
abbrev two_listeners : Framework
two_listeners = record {
  property = λ r k.
      if r == 1
      then get (topology_listener (codes "k") (codes "u")) k
      else get (discovery_listener (codes "k") (codes "u")) k;
  matches = λ s p. elim s [
    | none ↦ false
    | some text ↦
        if same_text text (own_scope (codes "k") (codes "u"))
        then is_of (codes "k") (codes "u") (bare p)
        else not (is_of (codes "k") (codes "u") (bare p))
  ];
}

abbrev node_outside : Outside
node_outside = record {
  framework = two_listeners;
  admin_properties = λ h a. none;
  export_endpoint = λ h a. (bundle_exception, none);
  import_endpoint = λ h a e. success;
  remove_export = λ h a e. success;
  remove_import = λ h a e. success;
  get_service = λ h r. success;
  told = λ h r e. success;
  same_endpoint = λ d e. d.address == e.address;
  string_hash = λ s. 0;
  framework_uuid_key = codes "k";
  service_id_key = codes "id";
  object_class_key = codes "class";
}

two_listeners-ReadsScopes : ReadsScopes two_listeners (codes "k") (codes "u")
unfolding same_text own_scope foreign_scope
two_listeners-ReadsScopes e = (refl, refl)

abbrev from_elsewhere : Endpoint
from_elsewhere = bare ((codes "k", codes "v") ∷ [])

abbrev both_listed : World
both_listed = record {
  manager = record {
    wa_list = [];
    waiting_for_export = [];
    waiting_for_import = [];
    imported = [];
    exported = [];
    listener_list = 2 ∷ 3 ∷ [];
  };
  history = [];
}

-- An endpoint of another node is told to the topology manager, and not to the discovery.
told-split_example :
    (filter (heard_by 1) (inform two_listeners (1 ∷ 5 ∷ []) from_elsewhere true)
      ≡ added 1 from_elsewhere (some (foreign_scope (codes "k") (codes "u"))) ∷ [])
    × ((w' : World) × (notify node_outside true from_elsewhere both_listed ≡ some (success, w'))
        × (filter (tells_to 2) w'.history ≡ []))
unfolding get lookup same_text is_success filter count repeat
told-split_example =
    told-split node_outside (codes "k") (codes "u") 1 2 from_elsewhere true (1 ∷ 5 ∷ []) both_listed
      (λ k a b. refl) (λ k a b. refl) two_listeners-ReadsScopes (λ h. refl)
