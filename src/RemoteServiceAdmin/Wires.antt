-- ===== src/RemoteServiceAdmin/Wires.antt =====
-- remote_service_admin_impl.c as a wiring endpoint listener: wires come and go.
use node_wiring_secure.Base.{
  ℕ, Bool, true, false, CString, codes, same_text, List, [], ◌∷◌, ◌++◌, Option, none, some, map,
  if◌then◌else◌,
}
use node_wiring_secure.Celix.{Status, success, bundle_exception, is_success}
use node_wiring_secure.Celix.HashMap.{Map, lookup, insert, remove}
use node_wiring_secure.Endpoint.{Endpoint, get, set, wire_id, wire_id_key, strcmp_eq}
use node_wiring_secure.Listener.{Listeners, is_none}
use node_wiring_secure.RemoteServiceAdmin.Description.{Description}
use node_wiring_secure.RemoteServiceAdmin.Exporting.{Export}
use node_wiring_secure.RemoteServiceAdmin.Importing.{Import, set_send_fn, import_start}
use node_wiring_secure.RemoteServiceAdmin.World.{
  Outside, M, ◌>>=◌, ◌>>◌, pure, deref, gets, modify, call, done, ignore, gets_service, unregisters,
  tells_added, registers_receive, registers_factory,
}

abbrev pub requested_id_key : CString
requested_id_key = codes "requested.service.id"

abbrev pub requested_key : CString
requested_key = codes "requested.service"

module _ {Json : Type 0} (o : Outside Json) where
  -- Both maps get the new receive service after a success.
  unfoldable pub put_receive : CString → Status × ℕ → M (Unit {0})
  put_receive w (status, registration) =
      if is_success status
      then modify (λ a. record a {
        receive_services = insert same_text w w a.receive_services;
        receive_registrations = insert same_text w registration a.receive_registrations;
      })
      else done

  unfoldable pub register_new : CString → M Status
  register_new w = do
    answer ← call (registers_receive w) (λ h. o.register h)
    put_receive w answer
    pure answer.0

  -- remoteServiceAdmin_registerReceive
  unfoldable pub register_receive : CString → M Status
  register_receive w = do
    known ← gets (λ a. lookup same_text w a.receive_services)
    if is_none known then register_new w else pure success

  unfoldable pub unregister_found : Option ℕ → M Status
  unregister_found none = pure success
  unregister_found (some r) = call (unregisters r) (λ h. o.unregister h r)

  -- remoteServiceAdmin_unregisterReceive
  unfoldable pub unregister_receive : CString → M Status
  unfolding unregister_found
  unregister_receive w = do
    found ← gets (λ a. lookup same_text w a.receive_registrations)
    modify (λ a. record a {
      receive_services = remove same_text w a.receive_services;
      receive_registrations = remove same_text w a.receive_registrations;
    })
    unregister_found found

  -- What one listener is told of the exports that its filter matches.
  unfoldable pub tell_exports : ℕ → Option CString → List Export → M (Unit {0})
  tell_exports r scope [] = done
  tell_exports r scope (e ∷ es) = do
    if o.framework.matches scope e.endpoint.properties
        then ignore (call (tells_added r e.endpoint scope) (λ h. o.told h r e.endpoint))
        else done
    tell_exports r scope es

  unfoldable pub notify_every : List Export → Listeners → M (Unit {0})
  notify_every es [] = done
  notify_every es (r ∷ rs) = do
    status ← call (gets_service r) (λ h. o.get_service h r)
    if is_success status
        then tell_exports r (o.framework.property r o.keys.listener_scope) es
        else done
    notify_every es rs

  -- remoteServiceAdmin_notifyListenersEndpointAdded, but for its last line, which unlocks a mutex that
  -- it has not locked.
  unfoldable pub notify_listeners : List Export → M (Unit {0})
  notify_listeners es = do rs ← gets (λ a. a.listener_list); notify_every es rs

  abbrev pub set_wire : CString → Export → Export
  set_wire w e = record e {
    endpoint = record (e.endpoint) { properties = set e.endpoint.properties wire_id_key w };
  }

  -- The registrations of the service that the wire is for get its id.
  unfoldable pub attach : Option CString → List Export → M (List Export)
  attach wire es = do
    w ← deref wire
    status ← register_receive w
    if is_success status then notify_listeners (map (set_wire w) es) else done
    pure (map (set_wire w) es)

  -- The body of the loop over the exported services. A requested id that is NULL is a fault.
  unfoldable pub attach_matching :
      Option CString → Option CString → ℕ → List Export → M (List Export)
  attach_matching wire requested r es = elim (o.framework.property r o.keys.service_id) [
    | none ↦ pure es
    | some id ↦ do
      same ← deref (strcmp_eq (some id) requested)
      if same then attach wire es else pure es
  ]

  unfoldable pub attach_each :
      Option CString → Option CString → Map ℕ (List Export) → M (Map ℕ (List Export))
  attach_each wire requested [] = pure []
  attach_each wire requested ((r, es) ∷ m) = do
    now ← attach_matching wire requested r es
    rest ← attach_each wire requested m
    pure ((r, now) ∷ rest)

  -- arrayList_contains with remoteServiceAdmin_wireIdEquals: NULL is looked for as such, a text is
  -- compared with strcmp.
  unfoldable pub lists_wire : Option CString → List (Option CString) → Option Bool
  lists_wire w [] = some false
  lists_wire none (v ∷ vs) = if is_none v then some true else lists_wire none vs
  lists_wire (some w) (v ∷ vs) =
      let rest = lists_wire (some w) vs in
      elim (strcmp_eq (some w) v) [ none ↦ none | some same ↦ if same then some true else rest ]

  -- remoteServiceAdmin_addWiringEndpoint for a wire of the own framework
  unfoldable pub add_export_wire : Endpoint → M Status
  add_export_wire e = do
    wires ← gets (λ a. a.exported_wires)
    known ← deref (lists_wire (wire_id e) wires)
    if known
        then done
        else modify (λ a. record a { exported_wires = a.exported_wires ++ (wire_id e ∷ []) })
    exported ← gets (λ a. a.exported_services)
    exported' ← attach_each (wire_id e) (get e.properties requested_id_key) exported
    modify (λ a. record a { exported_services = exported' })
    pure success

  -- An import that the wire is for gets the send function, and its factory is registered, unless
  -- something has failed before.
  unfoldable pub start_import : Option Import → Status → M (Option Import × Status)
  start_import none status = pure (none, bundle_exception)
  start_import (some i) status =
      if is_success status
      then if is_none i.factory_reg
        then (do
          answer ← call (registers_factory i.class_object) (λ h. o.register h)
          let (now, started) = import_start answer (set_send_fn i)
          pure (some started, now))
        else (do
          let (now, started) = import_start (success, 0) (set_send_fn i)
          pure (some started, now))
      else pure (some i, status)

  -- The loop over the imported services. An id that is NULL is a fault.
  unfoldable pub start_each :
      Option CString
      → Map Description (Option Import)
      → Status
      → M (Map Description (Option Import) × Status)
  start_each requested [] status = pure ([], status)
  start_each requested ((d, i) ∷ m) status = do
    same ← deref (strcmp_eq requested d.id)
    (i', now) ← if same then start_import i status else pure (i, status)
    (rest, last) ← start_each requested m now
    pure ((d, i') ∷ rest, last)

  -- remoteServiceAdmin_addWiringEndpoint for a wire of another framework
  unfoldable pub add_import_wire : Endpoint → M Status
  add_import_wire e = do
    imported ← gets (λ a. a.imported_services)
    (imported', status) ← start_each (get e.properties requested_key) imported success
    modify (λ a. record a { imported_services = imported' })
    pure status

  -- Whether the wire is of the own framework.
  unfoldable pub is_own_wire : Endpoint → Option Bool
  is_own_wire e = elim (get e.properties o.keys.endpoint_framework_uuid) [
    | none ↦ some false
    | some u ↦ strcmp_eq o.own_uuid.1 (some u)
  ]

  -- remoteServiceAdmin_addWiringEndpoint
  unfoldable pub add_wiring_endpoint : Endpoint → M Status
  add_wiring_endpoint e =
      if is_success o.own_uuid.0
      then (do own ← deref (is_own_wire e); if own then add_export_wire e else add_import_wire e)
      else pure o.own_uuid.0
