-- ===== src/Topology/Import.antt =====
-- The import of wiring endpoints in wtm.c.
pub mod Dropping
pub mod Losing
use node_wiring_secure.Base.{
  ℕ, zero, suc, Bool, true, false, CString, codes, same_text, List, [], ◌∷◌, ◌++◌, Option, none,
  some, if◌then◌else◌, ◌==◌, any, map, length, get_elem?, erase_at, ◌||◌,
}
use node_wiring_secure.Celix.{Properties, Status, success, bundle_exception, is_success}
use node_wiring_secure.Celix.HashMap.{Map, lookup, insert, remove}
use node_wiring_secure.Endpoint.{Endpoint, get, set}
use node_wiring_secure.Topology.World.{
  Admin, Manager, Outside, M, ◌>>=◌, ◌>>◌, pure, gets, modify, call, deref, asks_properties,
  imports, removes_import, contains,
}
use node_wiring_secure.Topology.Matching.{properties_match, has_value, requested_service_key}
use node_wiring_secure.Topology.Notify.{notify}

unfoldable pub config_key : CString
config_key = codes "inaetics.wiring.config"

-- Both configurations are there, and they are the same.
same_config : Option CString → Option CString → Bool
same_config none q = false
same_config (some c) q = has_value c q

import_with : Outside → Admin → Endpoint → Option Properties → M Status
unfolding same_config
import_with o a e none = pure bundle_exception
import_with o a e (some p) =
    if same_config (get e.properties config_key) (get p config_key)
    then call (imports a e) (λ h. o.import_endpoint h a e)
    else pure bundle_exception

-- wiringTopologyManager_checkWiringAdminForImportWiringEndpoint
unfoldable pub admin_import : Outside → Admin → Endpoint → M Status
unfolding import_with
admin_import o a e = do
  p ← call (asks_properties a) (λ h. o.admin_properties h a)
  import_with o a e p

-- The loop of wiringTopologyManager_checkWiringEndpointForImportService over the admins: the status
-- of the last one, and the admins that have imported the endpoint.
unfoldable pub import_each :
    Outside → Endpoint → List Admin → Status → List Admin → M (Status × List Admin)
import_each o e [] status importers = pure (status, importers)
import_each o e (a ∷ admins) status importers =
    let again = import_each o e admins success importers in
    let asked = (do
      now ← admin_import o a e
      import_each o e admins now (if is_success now then importers ++ (a ∷ []) else importers)) in
    if contains importers a then again else asked

abbrev pub set_importers : Outside → Endpoint → List Admin → Manager → Manager
set_importers o e admins w = record w { imported = insert o.same_endpoint e admins w.imported }

-- The admins of the endpoint are read only where there is an admin to look for.
import_all : Outside → Endpoint → List Admin → M Status
import_all o e [] = pure bundle_exception
import_all o e (a ∷ admins) = do
  found ← gets (λ w. lookup o.same_endpoint e w.imported)
  importers ← deref found
  (status, importers') ← import_each o e (a ∷ admins) bundle_exception importers
  modify (set_importers o e importers')
  pure status

-- wiringTopologyManager_checkWiringEndpointForImportService
unfoldable pub endpoint_import : Outside → Endpoint → Properties → M Status
unfolding import_all
endpoint_import o e p =
    if properties_match o p e.properties
    then (do admins ← gets (λ w. w.wa_list); import_all o e admins)
    else pure bundle_exception

-- The endpoint at this address is overwritten where it stands as a key.
abbrev pub write_key : Endpoint → Map Endpoint (List Admin) → Map Endpoint (List Admin)
write_key e [] = []
write_key e ((k, admins) ∷ m) = ((if k.address == e.address then e else k), admins) ∷ write_key e m

-- The endpoint gets the name of the requested service, and the listeners are told of it.
unfoldable pub announce_import : Outside → Endpoint → Option CString → M (Unit {0})
announce_import o e requested = do
  name ← deref requested
  let e' = record e { properties = set e.properties requested_service_key name }
  modify (λ w. record w { imported = write_key e' w.imported })
  notify o true e'
  pure tt

keys : Map Endpoint (List Admin) → List Endpoint
keys m = map (λ x. x.0) m

-- The inner loop of wiringTopologyManager_checkWaitingForImportServices: the entry at `i` is removed
-- for each endpoint that serves the request.
unfoldable pub serve_waiting : Outside → ℕ → Properties → List Endpoint → M (Unit {0})
serve_waiting o i p [] = pure tt
serve_waiting o i p (e ∷ es) = do
  status ← endpoint_import o e p
  if is_success status
      then (do
        modify (λ w. record w { waiting_for_import = erase_at i w.waiting_for_import })
        announce_import o e (get p requested_service_key))
      else pure tt
  serve_waiting o i p es

-- The outer loop, from the last request to the first.
unfoldable pub serve_from : Outside → ℕ → M (Unit {0})
unfolding keys
serve_from o zero = pure tt
serve_from o (suc i) = do
  found ← gets (λ w. get_elem? w.waiting_for_import i)
  p ← deref found
  es ← gets (λ w. keys w.imported)
  serve_waiting o i p es
  serve_from o i

-- wiringTopologyManager_checkWaitingForImportServices
unfoldable pub check_waiting : Outside → M Status
check_waiting o = do n ← gets (λ w. length w.waiting_for_import); serve_from o n; pure success

add_unknown : Outside → Endpoint → Option (List Admin) → M (Unit {0})
add_unknown o e none = modify (set_importers o e [])
add_unknown o e (some admins) = pure tt

-- wiringTopologyManager_WiringEndpointAdded
unfoldable pub wiring_endpoint_added : Outside → Endpoint → M Status
unfolding add_unknown
wiring_endpoint_added o e = do
  found ← gets (λ w. lookup o.same_endpoint e w.imported)
  add_unknown o e found
  check_waiting o
  pure success

-- The admins that have imported a lost endpoint are told; their answers are not looked at.
unfoldable pub remove_each_import : Outside → Endpoint → List Admin → M (Unit {0})
remove_each_import o e [] = pure tt
remove_each_import o e (a ∷ admins) = do
  call (removes_import a e) (λ h. o.remove_import h a e)
  remove_each_import o e admins

lose : Outside → Endpoint → Option (List Admin) → M (Unit {0})
lose o e none = pure tt
lose o e (some admins) = do
  modify (λ w. record w { imported = remove o.same_endpoint e w.imported })
  remove_each_import o e admins

-- wiringTopologyManager_WiringEndpointRemoved
unfoldable pub wiring_endpoint_removed : Outside → Endpoint → M Status
unfolding lose
wiring_endpoint_removed o e = do
  found ← gets (λ w. lookup o.same_endpoint e w.imported)
  lose o e found
  notify o false e
  pure success

-- An import that names a service is announced.
announce_named : Outside → Endpoint → Option CString → M (Unit {0})
announce_named o e none = pure tt
announce_named o e (some name) = announce_import o e (some name)

-- The loop of wiringTopologyManager_importWiringEndpoint: whether some endpoint serves the request.
unfoldable pub import_from : Outside → Properties → List Endpoint → Bool → M Bool
unfolding announce_named
import_from o p [] available = pure available
import_from o p (e ∷ es) available = do
  status ← endpoint_import o e p
  if is_success status then announce_named o e (get p requested_service_key) else pure tt
  import_from o p es (available || is_success status)

-- wiringTopologyManager_importWiringEndpoint. The status is that of the last notification.
unfoldable pub import_wiring_endpoint : Outside → Properties → M Status
unfolding keys
import_wiring_endpoint o p = do
  es ← gets (λ w. keys w.imported)
  available ← import_from o p es false
  if available
      then pure tt
      else modify (λ w. record w { waiting_for_import = w.waiting_for_import ++ (p ∷ []) })
  pure success

-- The loop of wiringTopologyManager_removeImportedWiringEndpoint over the admins of an endpoint, for
-- `rounds` rounds from index `i`: the admin at the index is taken out of the list, which so becomes
-- shorter, and the index grows. Past the end the admin is NULL, and its function is read through it.
unfoldable pub drop_importers :
    Outside → Endpoint → ℕ → ℕ → List Admin → Status → M (List Admin × Status)
drop_importers o e zero i admins status = pure (admins, status)
drop_importers o e (suc rounds) i admins status = do
  a ← deref (get_elem? admins i)
  now ← call (removes_import a e) (λ h. o.remove_import h a e)
  drop_importers o e rounds (suc i) (erase_at i admins)
      (if is_success now then status else bundle_exception)

abbrev pub drop_one :
    Outside → Properties → Endpoint → List Admin → Status → M (List Admin × Status)
drop_one o p e admins status =
    if properties_match o p e.properties
    then drop_importers o e (length admins) 0 admins status
    else pure (admins, status)

-- The loop over the imported endpoints.
unfoldable pub drop_matching :
    Outside
    → Properties
    → Map Endpoint (List Admin)
    → Status
    → M (Map Endpoint (List Admin) × Status)
drop_matching o p [] status = pure ([], status)
drop_matching o p ((e, admins) ∷ m) status = do
  (left, now) ← drop_one o p e admins status
  (rest, last) ← drop_matching o p m now
  pure ((e, left) ∷ rest, last)

-- wiringTopologyManager_removeImportedWiringEndpoint
unfoldable pub remove_imported_wiring_endpoint : Outside → Properties → M Status
remove_imported_wiring_endpoint o p = do
  m ← gets (λ w. w.imported)
  (m', status) ← drop_matching o p m success
  modify (λ w. record w { imported = m' })
  pure status
