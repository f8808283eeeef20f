-- ===== src/RemoteServiceAdmin/Trackers.antt =====
-- remote_service_admin_impl.c: endpoint listeners and wiring topology managers come and go.
use node_wiring_secure.Base.{ℕ, List, [], ◌∷◌, ◌++◌, Option, none, some, if◌then◌else◌}
use node_wiring_secure.Celix.{Status, success, is_success}
use node_wiring_secure.Celix.HashMap.{Map}
use node_wiring_secure.Endpoint.{get, wire_id_key}
use node_wiring_secure.Listener.{join, leave}
use node_wiring_secure.RemoteServiceAdmin.Description.{Description}
use node_wiring_secure.RemoteServiceAdmin.Exporting.{Export}
use node_wiring_secure.RemoteServiceAdmin.Importing.{Import}
use node_wiring_secure.RemoteServiceAdmin.World.{
  Outside, M, ◌>>=◌, ◌>>◌, pure, deref, gets, modify, call, done, tells_added, registers_admin,
}
use node_wiring_secure.RemoteServiceAdmin.Services.{
  ask_import, ask_export, wire_request, reference_properties,
}

module _ {Json : Type 0} (o : Outside Json) where
  -- The inner loop of remoteServiceAdmin_endpointListenerAdded, with the status so far.
  unfoldable pub offer_exports : ℕ → List Export → Status → M Status
  offer_exports r [] status = pure status
  offer_exports r (e ∷ es) status =
      let scope = o.framework.property r o.keys.listener_scope in
      if o.framework.matches scope e.endpoint.properties
      then (do
        now ← call (tells_added r e.endpoint scope) (λ h. o.told h r e.endpoint)
        offer_exports r es now)
      else offer_exports r es success

  unfoldable pub offer_services : ℕ → Map ℕ (List Export) → Status → M Status
  offer_services r [] status = pure status
  offer_services r ((reference, es) ∷ m) status = do
    now ← offer_exports r es status
    offer_services r m now

  -- remoteServiceAdmin_endpointListenerAdded
  unfoldable pub endpoint_listener_added : ℕ → M Status
  endpoint_listener_added r = do
    modify (λ a. record a { listener_list = join r a.listener_list })
    exported ← gets (λ a. a.exported_services)
    offer_services r exported success

  -- remoteServiceAdmin_endpointListenerRemoved
  unfoldable pub endpoint_listener_removed : ℕ → M Status
  endpoint_listener_removed r = do
    modify (λ a. record a { listener_list = leave r a.listener_list })
    pure success

  -- remoteServiceAdmin_endpointListenerModified
  unfoldable pub endpoint_listener_modified : ℕ → M Status
  endpoint_listener_modified r = do
    status ← endpoint_listener_removed r
    if is_success status then endpoint_listener_added r else pure status

  -- A new wiring topology manager is asked for the wire of an imported service that has one.
  unfoldable pub request_import : ℕ → Description → M (Unit {0})
  request_import t d = elim (get d.properties wire_id_key) [
    | none ↦ done
    | some w ↦ do id ← deref d.id; ask_import (wire_request w id) t
  ]

  unfoldable pub request_imports : ℕ → Map Description (Option Import) → M (Unit {0})
  request_imports t [] = done
  request_imports t ((d, i) ∷ m) = do request_import t d; request_imports t m

  -- And for a wire to each exported service.
  unfoldable pub request_exports : ℕ → Map ℕ (List Export) → M (Unit {0})
  request_exports t [] = done
  request_exports t ((r, es) ∷ m) = do
    p ← deref (reference_properties o r (o.property_keys r) [])
    ask_export p t
    request_exports t m

  -- The service of the admin is registered once.
  unfoldable pub register_admin : Option ℕ → M Status
  register_admin (some r) = pure success
  register_admin none = do
    (status, r) ← call registers_admin (λ h. o.register h)
    if is_success status then modify (λ a. record a { registration = some r }) else done
    pure status

  -- remoteServiceAdmin_wtmAdded
  unfoldable pub wtm_added : ℕ → M Status
  wtm_added t = do
    modify (λ a. record a { wtm_list = a.wtm_list ++ (t ∷ []) })
    imported ← gets (λ a. a.imported_services)
    request_imports t imported
    exported ← gets (λ a. a.exported_services)
    request_exports t exported
    registration ← gets (λ a. a.registration)
    register_admin registration
