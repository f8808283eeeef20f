-- ===== src/Topology/Export.antt =====
-- The export of wiring endpoints in wtm.c.
pub mod Reuse
pub mod Wires
use node_wiring_secure.Base.{
  ℕ, Bool, true, false, CString, codes, List, [], ◌∷◌, ◌++◌, Option, none, some, if◌then◌else◌,
  ◌==◌,
}
use node_wiring_secure.Celix.{
  Properties, Status, success, illegal_argument, illegal_state, bundle_exception, is_success,
}
use node_wiring_secure.Celix.HashMap.{Map, lookup, insert, remove}
use node_wiring_secure.Endpoint.{Endpoint, get, set}
use node_wiring_secure.Topology.World.{
  Admin, Manager, Outside, M, ◌>>=◌, ◌>>◌, pure, gets, modify, call, deref, asks_properties,
  exports, removes_export,
}
use node_wiring_secure.Topology.Matching.{properties_match, same_service}
use node_wiring_secure.Topology.Notify.{notify}

unfoldable pub service_id : CString
service_id = codes "service.id"

unfoldable pub requested_service_id : CString
requested_service_id = codes "requested.service.id"

-- properties_set on the properties of an endpoint
abbrev pub mark : CString → CString → Endpoint → Endpoint
mark k v e = record e { properties = set e.properties k v }

-- The end of a successful export: the endpoint gets the id of the service, and is announced. A
-- missing endpoint or id is a null pointer that is read.
unfoldable pub finish_export : Outside → Properties → Option Endpoint → M (Status × Option Endpoint)
finish_export o p result = do
  e ← deref result
  id ← deref (get p service_id)
  let e' = mark requested_service_id id e
  status ← notify o true e'
  pure (status, some e')

-- The admin exports if its properties answer the request.
export_with : Outside → Admin → Properties → Option Properties → M (Status × Option Endpoint)
unfolding finish_export
export_with o a p none = pure (bundle_exception, none)
export_with o a p (some admin_properties) =
    if properties_match o p admin_properties
    then (do
      (status, e) ← call (exports a) (λ h. o.export_endpoint h a)
      if is_success status then finish_export o p e else pure (status, e))
    else pure (bundle_exception, none)

-- wiringTopologyManager_WiringAdminServiceExportWiringEndpoint, called with a null endpoint: the
-- status, and what the endpoint variable holds.
unfoldable pub admin_export : Outside → Admin → Properties → M (Status × Option Endpoint)
unfolding export_with
admin_export o a p = do
  admin_properties ← call (asks_properties a) (λ h. o.admin_properties h a)
  export_with o a p admin_properties

-- hashMap_put(wiringAdminList, wiringAdminService, wEndpoint) after a success
abbrev pub put_export : Status → Admin → Option Endpoint → Map Admin Endpoint → Map Admin Endpoint
put_export status a none m = m
put_export status a (some e) m = if is_success status then insert (λ x y. x == y) a e m else m

-- The loop of wiringTopologyManager_exportWiringEndpoint over the admins, as long as there is no
-- endpoint: the last status, and the admins with their endpoints.
unfoldable pub try_admins :
    Outside
    → Properties
    → List Admin
    → Status
    → Map Admin Endpoint
    → M (Status × Map Admin Endpoint)
try_admins o p [] status m = pure (status, m)
try_admins o p (a ∷ admins) status m = do
  (now, e) ← admin_export o a p
  elim e [ none ↦ try_admins o p admins now m | some d ↦ pure (now, put_export now a (some d) m) ]

-- The loop over the wires that a service can use again: each endpoint gets the new service's id.
unfoldable pub reuse_each : Outside → Properties → Map Admin Endpoint → M (Map Admin Endpoint)
reuse_each o p [] = pure []
reuse_each o p ((a, e) ∷ m) = do
  id ← deref (get p service_id)
  let e' = mark requested_service_id id e
  notify o true e'
  rest ← reuse_each o p m
  pure ((a, e') ∷ rest)

abbrev pub set_exported : Outside → Properties → Map Admin Endpoint → Manager → Manager
set_exported o p m w = record w { exported = insert (same_service o) p m w.exported }

-- The service needs a new wire.
new_wire : Outside → Properties → List Admin → M Status
new_wire o p [] = do
  modify (λ w. record w { waiting_for_export = w.waiting_for_export ++ (p ∷ []) })
  pure bundle_exception
new_wire o p (a ∷ admins) = do
  (status, m) ← try_admins o p (a ∷ admins) bundle_exception []
  modify (set_exported o p m)
  pure status

export_found : Outside → Properties → Option (Map Admin Endpoint) → M Status
unfolding new_wire
export_found o p none = do admins ← gets (λ w. w.wa_list); new_wire o p admins
export_found o p (some m) = do m' ← reuse_each o p m; modify (set_exported o p m'); pure success

-- wiringTopologyManager_exportWiringEndpoint
unfoldable pub export_wiring_endpoint : Outside → Option Properties → M Status
unfolding export_found
export_wiring_endpoint o none = pure illegal_argument
export_wiring_endpoint o (some p) = do
  found ← gets (λ w. lookup (same_service o) p w.exported)
  export_found o p found

-- The loop of wiringTopologyManager_removeExportedWiringEndpoint, which ends at the first failure.
unfoldable pub remove_each_export : Outside → Map Admin Endpoint → M Status
remove_each_export o [] = pure success
remove_each_export o ((a, e) ∷ m) = do
  status ← call (removes_export a e) (λ h. o.remove_export h a e)
  if is_success status then remove_each_export o m else pure bundle_exception

remove_found : Outside → Properties → Option (Map Admin Endpoint) → M Status
remove_found o p none = pure illegal_state
remove_found o p (some m) = do
  modify (λ w. record w { exported = remove (same_service o) p w.exported })
  remove_each_export o m

-- wiringTopologyManager_removeExportedWiringEndpoint
unfoldable pub remove_exported_wiring_endpoint : Outside → Option Properties → M Status
unfolding remove_found
remove_exported_wiring_endpoint o none = pure illegal_argument
remove_exported_wiring_endpoint o (some p) = do
  found ← gets (λ w. lookup (same_service o) p w.exported)
  remove_found o p found
