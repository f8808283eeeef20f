-- ===== src/RemoteServiceAdmin/Services.antt =====
-- remote_service_admin_impl.c: services are exported and imported, and what is exported or imported is
-- taken back.
pub mod Kept
pub mod Served
use node_wiring_secure.Base.{
  ℕ, Bool, true, false, CString, codes, same_text, List, [], ◌∷◌, ◌++◌, Option, none, some, ◌==◌,
  ◌&&◌, not, take, if◌then◌else◌,
}
use node_wiring_secure.Celix.{
  Properties, Status, success, illegal_argument, illegal_state, bundle_exception, service_exception,
  is_success,
}
use node_wiring_secure.Celix.HashMap.{lookup, insert, remove}
use node_wiring_secure.Endpoint.{get, set, wire_id_key}
use node_wiring_secure.Listener.{is_none, true_text}
use node_wiring_secure.Celix.Numbers.{strtoull}
use node_wiring_secure.RemoteServiceAdmin.Description.{Description, description_hash}
use node_wiring_secure.RemoteServiceAdmin.Exporting.{Export, export_create, export_start}
use node_wiring_secure.RemoteServiceAdmin.Importing.{Import, import_create, import_destroy}
use node_wiring_secure.RemoteServiceAdmin.World.{
  Outside, M, ◌>>=◌, ◌>>◌, pure, deref, gets, modify, call, calls, done, creates_export,
  wtm_exports, wtm_imports, allocates, same_key,
}
use node_wiring_secure.RemoteServiceAdmin.Wires.{requested_key}
use node_wiring_secure.RemoteServiceAdmin.Removing.{close_export, close_import}

-- "(%s=%s)" in 256 bytes
abbrev pub service_filter : CString → CString → CString
service_filter key id = take 255 (codes "(" ++ (key ++ (codes "=" ++ (id ++ codes ")"))))

abbrev pub configuration_type : CString
configuration_type = codes "org.inaetics.remote.admin.wiring"

-- All calls of the wiring topology managers in turn; their answers are logged at most.
unfoldable pub ask_each : (ℕ → M (Unit {0})) → List ℕ → M (Unit {0})
ask_each ask [] = done
ask_each ask (t ∷ ts) = do ask t; ask_each ask ts

-- The request for the wire of an imported service.
abbrev pub wire_request : CString → CString → Properties
wire_request w id = set (set [] wire_id_key w) requested_key id

-- A wiring topology manager is asked for a wire to the service with these properties, or for the wire
-- of an imported service.
abbrev pub ask_export : Properties → ℕ → M (Unit {0})
ask_export p t = calls (wtm_exports t p)

abbrev pub ask_import : Properties → ℕ → M (Unit {0})
ask_import p t = calls (wtm_imports t p)

-- What importRegistration_create leaves in the caller's variable.
abbrev pub made : Status × Option Import → Option Import → Status × Option Import
made (status, none) before = (status, before)
made (status, some i) before = (status, some i)

module _ {Json : Type 0} (o : Outside Json) where
  -- The keys that the description does not take over.
  abbrev pub is_left_out : CString → Bool
  is_left_out key =
      not
        (not (same_text key o.keys.exported_interfaces) && not (same_text key o.keys.object_class))

  -- The loop of remoteServiceAdmin_createEndpointDescription. A value that is NULL is a fault.
  unfoldable pub copy_properties : ℕ → List CString → Properties → Option Properties
  copy_properties r [] p = some p
  copy_properties r (key ∷ keys) p =
      if is_success (o.property_status r key) && not (is_left_out key)
      then elim (o.framework.property r key) [
        | none ↦ none
        | some value ↦ copy_properties r keys (set p key value)
      ]
      else copy_properties r keys p

  -- The properties that are set on the description, in their order.
  unfoldable pub stamp : CString → CString → CString → CString → Properties → Properties
  stamp own class id uuid p0 =
      let p1 = set p0 o.keys.endpoint_framework_uuid own in
      let p2 = set p1 o.keys.object_class class in
      let p3 = set p2 o.keys.endpoint_service_id id in
      let p4 = set p3 o.keys.endpoint_id uuid in
      let p5 = set p4 o.keys.imported true_text in set p5 o.keys.imported_configs configuration_type

  -- The description from its properties.
  unfoldable pub description_of : Properties → CString → CString → Description
  description_of p class id = record {
    framework_uuid = get p o.keys.endpoint_framework_uuid;
    id = get p o.keys.endpoint_id;
    service = some class;
    properties = p;
    service_id = strtoull id;
  }

  -- remoteServiceAdmin_createEndpointDescription, by the generated uuid. It is a fault if the reference
  -- has no service id or the framework no uuid.
  unfoldable pub create_endpoint_description : CString → ℕ → CString → Option Description
  create_endpoint_description uuid r class = elim (copy_properties r (o.property_keys r) []) [
    | none ↦ none
    | some p ↦ elim (get p o.keys.service_id) [
      | none ↦ none
      | some id ↦ elim o.own_uuid.1 [
        | none ↦ none
        | some own ↦ elim (o.framework.property r o.keys.service_id) [
          | none ↦ none
          | some id' ↦ some (
              description_of (stamp own class id uuid (remove same_text o.keys.service_id p)) class
                id')
        ]
      ]
    ]
  ]

  -- All properties of a reference. A value that is NULL is a fault.
  unfoldable pub reference_properties : ℕ → List CString → Properties → Option Properties
  reference_properties r [] p = some p
  reference_properties r (key ∷ keys) p = elim (o.framework.property r key) [
    | none ↦ none
    | some value ↦ reference_properties r keys (set p key value)
  ]

  abbrev pub export_properties : ℕ → Option Properties → Option Properties
  export_properties r none = reference_properties r (o.property_keys r) []
  export_properties r (some p) = some p

  -- The new registration is started and stored, and every wiring topology manager asked for a wire.
  unfoldable pub publish : ℕ → Option Properties → Option Export → M Status
  publish r given none = pure service_exception
  publish r given (some e) = do
    modify (λ a. record a {
      exported_services =
          insert (λ x y. x == y) r (export_start o.registered e ∷ []) a.exported_services;
    })
    properties ← deref (export_properties r given)
    ts ← gets (λ a. a.wtm_list)
    ask_each (ask_export properties) ts
    pure service_exception

  -- The service is exported under its only interface.
  unfoldable pub export_as : ℕ → CString → Option Properties → M Status
  export_as r class given = do
    uuid ← call allocates (λ h. o.new_uuid h)
    d ← deref (create_endpoint_description uuid r class)
    creation ← call (creates_export r) (λ h. o.creation h r)
    publish r given (export_create creation r d).1

  export_if_offered : ℕ → Option CString → Option CString → Option Properties → M Status
  export_if_offered r (some exports) (some provided) given =
      if same_text exports provided then export_as r provided given else pure service_exception
  export_if_offered r _ _ given = pure service_exception

  export_first : List ℕ → Option Properties → M Status
  unfolding export_if_offered
  export_first [] given = pure illegal_state
  export_first (r ∷ rs) given =
      export_if_offered r (o.framework.property r o.keys.exported_interfaces)
        (o.framework.property r o.keys.object_class) given

  -- remoteServiceAdmin_exportService: whatever happens once a reference is found, the result is an
  -- error, since there is no synchronous export.
  unfoldable pub export_service : CString → Option Properties → M Status
  unfolding export_first
  export_service id given = do
    rs ← deref (o.references (service_filter o.keys.service_id id))
    export_first rs given

  -- remoteServiceAdmin_removeExportedService. What leaves the map is the entry under the address of the
  -- export reference, which exportRegistration_getExportReference has just allocated.
  unfoldable pub remove_exported_service : Export → M Status
  remove_exported_service e = do
    reference ← call allocates (λ h. o.new_address h)
    close_export o e
    modify
        (λ a. record a { exported_services = remove (λ x y. x == y) reference a.exported_services })
    pure success

  -- The registration of an import, unless it is known or has no objectClass: then what the caller's
  -- variable held stays there.
  unfoldable pub import_registration :
      Bool → Bool → Description → Option Import → Status × Option Import
  import_registration true memory d before = (bundle_exception, before)
  import_registration false memory d before = elim (get d.properties (codes "objectClass")) [
    | none ↦ (success, before)
    | some class ↦ made (import_create memory d class) before
  ]

  -- remoteServiceAdmin_importService where the description has a wire: the wire is asked for in any
  -- case.
  unfoldable pub import_over : CString → Description → Option Import → M (Status × Option Import)
  import_over w d before = do
    hashed ← deref (description_hash o.string_hash d)
    known ← gets (λ a. lookup (same_key o.string_hash) d a.imported_services)
    memory ← call allocates (λ h. o.import_memory h)
    let (status, i) = import_registration (not (is_none known)) memory d before
    if is_success status
        then modify (λ a. record a {
          imported_services = insert (same_key o.string_hash) d i a.imported_services;
        })
        else done
    ts ← gets (λ a. a.wtm_list)
    id ← deref d.id
    ask_each (ask_import (wire_request w id)) ts
    pure (status, i)

  -- remoteServiceAdmin_importService, by what the caller's variable holds before
  unfoldable pub import_service : Description → Option Import → M (Status × Option Import)
  import_service d before = elim (get d.properties wire_id_key) [
    | none ↦ pure (service_exception, before)
    | some w ↦ import_over w d before
  ]

  unfoldable pub destroy_found : Option (Option Import) → M (Unit {0})
  destroy_found (some (some i)) = do closed ← close_import o i; deref (import_destroy closed)
  destroy_found _ = done

  -- remoteServiceAdmin_removeImportedService, by the description of the registration
  unfoldable pub remove_imported_service : Option Description → M Status
  remove_imported_service none = pure illegal_argument
  remove_imported_service (some d) = do
    hashed ← deref (description_hash o.string_hash d)
    found ← gets (λ a. lookup (same_key o.string_hash) d a.imported_services)
    modify (λ a. record a {
      imported_services = remove (same_key o.string_hash) d a.imported_services;
    })
    destroy_found found
    pure success
