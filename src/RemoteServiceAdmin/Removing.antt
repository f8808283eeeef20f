-- ===== src/RemoteServiceAdmin/Removing.antt =====
-- remote_service_admin_impl.c: a wire goes, and remoteServiceAdmin_stop.
pub mod Faults
use node_wiring_secure.Base.{
  ℕ, Bool, false, CString, List, [], ◌∷◌, ◌++◌, Option, none, some, ◌==◌, map, if◌then◌else◌,
}
use node_wiring_secure.Celix.{Status}
use node_wiring_secure.Celix.HashMap.{Map, lookup, remove}
use node_wiring_secure.Endpoint.{Endpoint, get, wire_id, wire_id_key, strcmp_eq}
use node_wiring_secure.RemoteServiceAdmin.Description.{Description}
use node_wiring_secure.RemoteServiceAdmin.Exporting.{Export, export_stop}
use node_wiring_secure.RemoteServiceAdmin.Importing.{Import, import_stop}
use node_wiring_secure.RemoteServiceAdmin.World.{
  Outside, M, ◌>>=◌, ◌>>◌, pure, deref, gets, modify, call, calls, done, ignore, ungets_reference,
  unregisters, same_key,
}
use node_wiring_secure.RemoteServiceAdmin.Wires.{unregister_receive}

module _ {Json : Type 0} (o : Outside Json) where
  -- The registrations of one service that are on the wire. One without a wire id is a fault.
  unfoldable pub on_wire : Option CString → List Export → Option (List Export)
  on_wire wire [] = some []
  on_wire wire (e ∷ es) =
      let rest = on_wire wire es in
      elim (strcmp_eq wire (get e.endpoint.properties wire_id_key)) [
        | none ↦ none
        | some same ↦ elim rest [
          | none ↦ none
          | some found ↦ if same then some (e ∷ found) else some found
        ]
      ]

  -- The same for all services.
  unfoldable pub all_on_wire : Option CString → Map ℕ (List Export) → Option (List Export)
  all_on_wire wire [] = some []
  all_on_wire wire ((r, es) ∷ m) =
      let rest = all_on_wire wire m in
      elim (on_wire wire es) [
        | none ↦ none
        | some here ↦ elim rest [ none ↦ none | some found ↦ some (here ++ found) ]
      ]

  -- What is behind the pointer to a registration changes wherever it is listed.
  abbrev pub close_at : ℕ → List Export → List Export
  close_at a es = map (λ e. if e.address == a then export_stop e else e) es

  -- exportRegistration_close
  unfoldable pub close_export : Export → M (Unit {0})
  close_export e = do
    calls (ungets_reference e.reference)
    modify (λ a. record a {
      exported_services = map (λ x. (x.0, close_at e.address x.1)) a.exported_services;
    })

  unfoldable pub close_exports : List Export → M (Unit {0})
  close_exports [] = done
  close_exports (e ∷ es) = do close_export e; close_exports es

  unfoldable pub unregister_factory : Option ℕ → M (Unit {0})
  unregister_factory none = done
  unregister_factory (some r) = ignore (call (unregisters r) (λ h. o.unregister h r))

  -- importRegistration_close
  unfoldable pub close_import : Import → M Import
  unfolding unregister_factory
  close_import i = do unregister_factory i.factory_reg; deref (import_stop i)

  -- The import that is found for a key, if any, is closed.
  unfoldable pub close_found : Option (Option Import) → M (Unit {0})
  close_found (some (some i)) = do closed ← close_import i; done
  close_found _ = done

  -- An import without a wire id is passed over.
  unfoldable pub is_on : Option CString → Description → Option Bool
  is_on wire d = elim (get d.properties wire_id_key) [
    | none ↦ some false
    | some v ↦ strcmp_eq wire (some v)
  ]

  -- The loop over the imported services: those on the wire are closed and leave the map.
  unfoldable pub drop_each :
      Option CString
      → Map Description (Option Import)
      → Map Description (Option Import)
      → M (Map Description (Option Import))
  drop_each wire [] all = pure all
  drop_each wire ((d, i) ∷ m) all = do
    gone ← deref (is_on wire d)
    if gone
        then (do
          close_found (lookup (same_key o.string_hash) d all)
          drop_each wire m (remove (same_key o.string_hash) d all))
        else drop_each wire m all

  -- remoteServiceAdmin_removeWiringEndpoint
  unfoldable pub remove_wiring_endpoint : Endpoint → M Status
  remove_wiring_endpoint e = do
    exported ← gets (λ a. a.exported_services)
    found ← deref (all_on_wire (wire_id e) exported)
    close_exports found
    w ← deref (wire_id e)
    status ← unregister_receive o w
    imported ← gets (λ a. a.imported_services)
    left ← drop_each (wire_id e) imported imported
    modify (λ a. record a { imported_services = left })
    pure status

  unfoldable pub stop_exports : Map ℕ (List Export) → M (Unit {0})
  stop_exports [] = done
  stop_exports ((r, es) ∷ m) = do close_exports es; stop_exports m

  unfoldable pub stop_imports : Map Description (Option Import) → M (Unit {0})
  stop_imports [] = done
  stop_imports ((d, i) ∷ m) = do close_found (some i); stop_imports m

  -- remoteServiceAdmin_stop, by what destroySendServiceTracker answers. The maps are destroyed.
  unfoldable pub admin_stop : Status → M Status
  admin_stop closed = do
    exported ← gets (λ a. a.exported_services)
    stop_exports exported
    imported ← gets (λ a. a.imported_services)
    stop_imports imported
    modify (λ a. record a { exported_services = []; imported_services = [] })
    pure closed
