-- ===== src/Topology/Admins.antt =====
-- wtm_wadmin_tracker.c: wiring admins come and go.
pub mod Removal
pub mod Waiting
use node_wiring_secure.Base.{
  ℕ, zero, suc, Bool, true, false, List, [], ◌∷◌, ◌++◌, Option, none, some, if◌then◌else◌, ◌==◌,
  length, erase_first,
}
use node_wiring_secure.Celix.{Properties, Status, success, is_success}
use node_wiring_secure.Celix.HashMap.{Map, lookup, remove}
use node_wiring_secure.Endpoint.{Endpoint}
use node_wiring_secure.Topology.World.{
  Admin, Outside, M, ◌>>=◌, ◌>>◌, pure, gets, modify, call, removes_export, removes_import,
  contains,
}
use node_wiring_secure.Topology.Notify.{notify}
use node_wiring_secure.Topology.Export.{admin_export, put_export, set_exported}
use node_wiring_secure.Topology.Import.{admin_import, check_waiting}

-- The first loop of wiringTopologyManager_waAdded: the new admin exports what is exported already.
unfoldable pub export_more :
    Outside
    → Admin
    → Map Properties (Map Admin Endpoint)
    → Status
    → M (Map Properties (Map Admin Endpoint) × Status)
export_more o a [] status = pure ([], status)
export_more o a ((p, m) ∷ exported) status = do
  (now, e) ← admin_export o a p
  (rest, last) ← export_more o a exported now
  pure ((p, put_export now a e m) ∷ rest, last)

-- The second loop: the requests that wait for an export are tried, and after each success the
-- iteration starts again. `before` has failed in this iteration. A success makes the list shorter,
-- so that there are at most as many as the list is long.
unfoldable pub export_waiting :
    Outside → Admin → ℕ → List Properties → List Properties → Status → M (List Properties × Status)
export_waiting o a fuel before [] status = pure (before, status)
export_waiting o a zero before (p ∷ rest) status = pure (before ++ (p ∷ rest), status)
export_waiting o a (suc fuel) before (p ∷ rest) status = do
  (now, e) ← admin_export o a p
  if is_success now
      then (do
        modify (set_exported o p (put_export now a e []))
        export_waiting o a fuel [] (before ++ rest) now)
      else export_waiting o a (suc fuel) (before ++ (p ∷ [])) rest now

-- The third loop: the new admin imports what is imported already.
unfoldable pub import_more :
    Outside → Admin → Map Endpoint (List Admin) → Status → M (Map Endpoint (List Admin) × Status)
import_more o a [] status = pure ([], status)
import_more o a ((e, importers) ∷ imported) status = do
  now ← admin_import o a e
  (rest, last) ← import_more o a imported now
  pure ((e, if is_success now then importers ++ (a ∷ []) else importers) ∷ rest, last)

-- wiringTopologyManager_waAdded
unfoldable pub wa_added : Outside → Admin → M Status
wa_added o a = do
  modify (λ w. record w { wa_list = w.wa_list ++ (a ∷ []) })
  exported ← gets (λ w. w.exported)
  (exported', s1) ← export_more o a exported success
  modify (λ w. record w { exported = exported' })
  waiting ← gets (λ w. w.waiting_for_export)
  (waiting', s2) ← export_waiting o a (length waiting) [] waiting s1
  modify (λ w. record w { waiting_for_export = waiting' })
  imported ← gets (λ w. w.imported)
  (imported', s3) ← import_more o a imported s2
  modify (λ w. record w { imported = imported' })
  check_waiting o
  pure s3

-- The endpoint that the admin exports, if any, is announced as removed and removed there.
unexport : Outside → Admin → Option Endpoint → Status → M Status
unexport o a none status = pure status
unexport o a (some e) status = do
  notify o false e
  call (removes_export a e) (λ h. o.remove_export h a e)

-- The first loop of wiringTopologyManager_waRemoved.
unfoldable pub unexport_all :
    Outside
    → Admin
    → Map Properties (Map Admin Endpoint)
    → Status
    → M (Map Properties (Map Admin Endpoint) × Status)
unfolding unexport
unexport_all o a [] status = pure ([], status)
unexport_all o a ((p, m) ∷ exported) status = do
  now ← unexport o a (lookup (λ x y. x == y) a m) status
  (rest, last) ← unexport_all o a exported now
  pure ((p, remove (λ x y. x == y) a m) ∷ rest, last)

-- An admin that has imported the endpoint drops it, and leaves its list.
unimport : Outside → Admin → Endpoint → List Admin → Status → M (Status × List Admin)
unimport o a e importers status =
    if contains importers a
    then (do
      now ← call (removes_import a e) (λ h. o.remove_import h a e)
      pure (now, erase_first (λ x. x == a) importers))
    else pure (status, importers)

-- The second loop, which adds the admin to the list of the endpoint if the status is a success.
unfoldable pub unimport_all :
    Outside → Admin → Map Endpoint (List Admin) → Status → M (Map Endpoint (List Admin) × Status)
unfolding unimport
unimport_all o a [] status = pure ([], status)
unimport_all o a ((e, importers) ∷ imported) status = do
  (now, left) ← unimport o a e importers status
  (rest, last) ← unimport_all o a imported now
  pure ((e, if is_success now then left ++ (a ∷ []) else left) ∷ rest, last)

-- wiringTopologyManager_waRemoved
unfoldable pub wa_removed : Outside → Admin → M Status
wa_removed o a = do
  exported ← gets (λ w. w.exported)
  (exported', s1) ← unexport_all o a exported success
  modify (λ w. record w { exported = exported' })
  imported ← gets (λ w. w.imported)
  (imported', s2) ← unimport_all o a imported s1
  modify (λ w. record w { imported = imported' })
  modify (λ w. record w { wa_list = erase_first (λ x. x == a) w.wa_list })
  pure s2
