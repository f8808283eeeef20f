-- ===== src/Topology/Tests.antt =====
-- Tests and witnesses for the wiring topology manager.
use mathlib.Core.Bool.{true≢false}
use node_wiring_secure.Base.{
  ◌+◌, filter, count, repeat, true, false, CString, codes, same_text, [], ◌∷◌, ◌++◌, Option, none,
  some, ◌≡◌, ◌≢◌, ◌⊎◌, ◌↔◌, refl, sym, ap, any, map, All, arith, length, ◌==◌, erase_first,
}
use node_wiring_secure.Celix.{Properties, Status, success, bundle_exception, is_success}
use node_wiring_secure.Celix.HashMap.{Map, lookup, Keyed}
use node_wiring_secure.Endpoint.{Endpoint, get, set}
use node_wiring_secure.Topology.World.{
  Admin, Manager, World, History, Outside, contains, tells_added,
}
use node_wiring_secure.Topology.Matching.{properties_match, is_service_key, same_service}
use node_wiring_secure.Topology.Matching.Meaning.{
  left_out, IsOneOf, properties_match_iff, UniqueKeys, same_service_refl, same_service-set,
}
use node_wiring_secure.Topology.Notify.{notify}
use node_wiring_secure.Topology.Notify.Wanting.{tells_to, Wants, notify-Wants}
use node_wiring_secure.Topology.Export.{export_wiring_endpoint, service_id, set_exported}
use node_wiring_secure.Topology.Export.Wires.{
  ExportsReturn, Outcome, export_wiring_endpoint-Outcome,
}
use node_wiring_secure.Topology.Export.Reuse.{
  relabel, announced, export_wiring_endpoint-relabel, export_wiring_endpoint-again,
}
use node_wiring_secure.Topology.Import.{remove_imported_wiring_endpoint}
use node_wiring_secure.Topology.Import.Dropping.{
  blocks, cleared, remove_imported_wiring_endpoint-Faults,
}
use node_wiring_secure.Topology.Admins.{export_waiting, wa_removed}
use node_wiring_secure.Topology.Admins.Waiting.{export_waiting-enough}
use node_wiring_secure.Topology.Admins.Removal.{
  Unused, RemovalsSucceed, wa_removed-Unused, wa_removed-contains,
}

abbrev zone_key : CString
zone_key = codes "zone"

-- A service that wants an export in a zone.
abbrev service : Properties
service = (service_id, codes "7") ∷ (zone_key, codes "b") ∷ []

abbrev wire : Endpoint
wire = record { address = 5; properties = (zone_key, codes "b") ∷ [] }

-- All filters match, and all calls succeed but the exports, which answer `answer`.
abbrev outside : Status × Option Endpoint → Outside
outside answer = record {
  framework = record { property = λ r k. none; matches = λ s p. true };
  admin_properties = λ h a. some service;
  export_endpoint = λ h a. answer;
  import_endpoint = λ h a e. success;
  remove_export = λ h a e. success;
  remove_import = λ h a e. success;
  get_service = λ h r. success;
  told = λ h r e. success;
  same_endpoint = λ d e. d.address == e.address;
  string_hash = λ s. length s;
  framework_uuid_key = codes "uuid";
  service_id_key = service_id;
  object_class_key = codes "objectClass";
}

abbrev willing : Outside
willing = outside (success, some wire)

abbrev unwilling : Outside
unwilling = outside (bundle_exception, none)

-- A manager with two admins and one listener.
abbrev two_admins : Manager
two_admins = record {
  wa_list = 1 ∷ 2 ∷ [];
  listener_list = 4 ∷ [];
  exported = [];
  imported = [];
  waiting_for_export = [];
  waiting_for_import = [];
}

abbrev start : World
start = record { manager = two_admins; history = [] }

service-named : get service service_id ≡ some (codes "7")
unfolding get lookup service_id same_text
service-named = refl

service-UniqueKeys : UniqueKeys service
unfolding get lookup service_id same_text
service-UniqueKeys = (refl, (refl, tt))

willing-ExportsReturn : ExportsReturn willing
willing-ExportsReturn h a good = (wire, refl)

unwilling-ExportsReturn : ExportsReturn unwilling
unfolding is_success
unwilling-ExportsReturn h a good = absurd (true≢false (sym good))

admins-there : two_admins.wa_list ≢ []
admins-there h = omega (arith, ap length h)

-- A wire of the admin 1 for the service, and imports of one and of two admins.
abbrev wired : World
wired = record {
  manager = record two_admins {
    exported = (service, (1, wire) ∷ []) ∷ [];
    imported = (wire, 1 ∷ 2 ∷ []) ∷ (record wire { address = 6 }, 2 ∷ []) ∷ [];
  };
  history = [];
}

service-key : is_service_key willing service_id ≡ true
unfolding is_service_key service_id same_text
service-key = ground arith

start-fresh : (o : Outside) → lookup (same_service o) service two_admins.exported ≡ none
unfolding lookup
start-fresh o = refl

wired-found : lookup (same_service willing) service wired.manager.exported ≡ some ((1, wire) ∷ [])
unfolding lookup
wired-found = rw (same_service_refl willing service service-UniqueKeys)

properties_match_iff_example :
    (properties_match willing wire.properties service ≡ true)
    ↔ All (λ (k, v). IsOneOf k (left_out willing) ⊎ (get service k ≡ some v)) wire.properties
properties_match_iff_example = properties_match_iff willing wire.properties service

same_service-set_example :
    same_service willing (set service service_id (codes "8")) service
    ≡ same_service willing service service
same_service-set_example =
    same_service-set willing service service service_id (codes "8") service-key

notify-Wants_example :
    (w' : World) × (notify willing true wire start ≡ some (success, w'))
    × (w'.manager ≡ start.manager)
    × ((Wants willing 4 wire
          × (filter (tells_to 4) w'.history ≡ [] ++ (tells_added 4 wire none ∷ [])))
        ⊎ ((¬ Wants willing 4 wire) × (filter (tells_to 4) w'.history ≡ [])))
unfolding filter repeat count is_success
notify-Wants_example = notify-Wants willing true wire 4 start (λ h. refl)

export_wiring_endpoint-Outcome_example :
    (status : Status) × (m : Map Admin Endpoint) × (w : World) × (export_wiring_endpoint willing
        (some service)
        start
      ≡ some (status, w))
    × (w.manager ≡ set_exported willing service m two_admins)
    × (lookup (same_service willing) service w.manager.exported ≡ some m)
    × Outcome (1 ∷ 2 ∷ []) (status, m)
export_wiring_endpoint-Outcome_example =
    export_wiring_endpoint-Outcome willing service (codes "7") service-named willing-ExportsReturn
      start service-UniqueKeys admins-there (start-fresh willing)

export_wiring_endpoint-relabel_example :
    export_wiring_endpoint willing (some service) wired
    ≡ some (
      success,
      record {
        manager = set_exported willing service (relabel (codes "7") ((1, wire) ∷ [])) wired.manager;
        history = [] ++ announced willing (4 ∷ []) (relabel (codes "7") ((1, wire) ∷ [])) [];
      },
    )
export_wiring_endpoint-relabel_example =
    export_wiring_endpoint-relabel willing service (codes "7") service-named wired ((1, wire) ∷ [])
      wired-found

export_wiring_endpoint-again_example :
    (status : Status) × (w : World) × (export_wiring_endpoint unwilling (some service) start
      ≡ some (status, w))
    × ((is_success status ≡ true)
        ⊎ ((is_success status ≡ false)
            × (lookup (same_service unwilling) service w.manager.exported ≡ some [])
            × (export_wiring_endpoint unwilling (some service) w ≡ some (success, w))))
export_wiring_endpoint-again_example =
    export_wiring_endpoint-again unwilling service (codes "7") service-named start
      unwilling-ExportsReturn service-UniqueKeys admins-there (start-fresh unwilling)

export_waiting-enough_example :
    export_waiting willing 1 (3 + 2) [] (service ∷ service ∷ []) success start
    ≡ export_waiting willing 1 2 [] (service ∷ service ∷ []) success start
export_waiting-enough_example =
    export_waiting-enough willing 1 3 (service ∷ service ∷ []) success start

wired-Keyed : All (λ x. Keyed (λ y z. y == z) x.1) wired.manager.exported
unfolding lookup
wired-Keyed = ((refl, tt), tt)

wa_removed-Unused_example :
    (status : Status) × (w : World) × (wa_removed willing 1 wired ≡ some (status, w))
    × (w.manager.wa_list ≡ erase_first (λ x. x == 1) (1 ∷ 2 ∷ []))
    × (map (λ x. x.0) w.manager.exported ≡ service ∷ [])
    × Unused 1 w.manager.exported
wa_removed-Unused_example = wa_removed-Unused willing 1 wired wired-Keyed

willing-RemovalsSucceed : RemovalsSucceed willing
unfolding is_success
willing-RemovalsSucceed h a e = (refl, refl)

wa_removed-contains_example :
    (status : Status) × (w : World) × (wa_removed willing 1 wired ≡ some (status, w))
    × All (λ x. contains x.1 1 ≡ true) w.manager.imported
wa_removed-contains_example = wa_removed-contains willing 1 wired willing-RemovalsSucceed

remove_imported_wiring_endpoint-Faults_example :
    ((any (blocks willing wire.properties) wired.manager.imported ≡ true)
      × (remove_imported_wiring_endpoint willing wire.properties wired ≡ none))
    ⊎ ((any (blocks willing wire.properties) wired.manager.imported ≡ false)
        × ((status : Status) × (h : History) × (remove_imported_wiring_endpoint willing
                wire.properties wired
              ≡ some (
                status,
                record {
                  manager = record (wired.manager) {
                    imported = cleared willing wire.properties wired.manager.imported;
                  };
                  history = h;
                },
              ))))
remove_imported_wiring_endpoint-Faults_example =
    remove_imported_wiring_endpoint-Faults willing wire.properties wired
