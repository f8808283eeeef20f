-- ===== src/Topology/Notify.antt =====
-- wiringTopologyManager_notifyListenersWiringEndpointAdded and -Removed.
pub mod Reach
pub mod Wanting
use node_wiring_secure.Base.{ℕ, Bool, true, false, List, [], ◌∷◌, not, ◌||◌, if◌then◌else◌}
use node_wiring_secure.Celix.{Status, success, is_success}
use node_wiring_secure.Endpoint.{Endpoint}
use node_wiring_secure.Listener.{Listeners, scope, accepts, is_none, rsa_key}
use node_wiring_secure.Topology.World.{
  Outside, M, ◌>>=◌, ◌>>◌, pure, gets, call, gets_service, tells_added, tells_removed,
}

-- The listener is told: its filter matches, or it is a remote service admin's.
abbrev pub concerns : Outside → ℕ → Endpoint → Bool
concerns o r e = accepts o.framework r e || not (is_none (o.framework.property r rsa_key))

tell : Outside → Bool → ℕ → Endpoint → M (Unit {0})
tell o is_added r e =
    if concerns o r e
    then if is_added
      then call (tells_added r e (scope o.framework r)) (λ h. tt)
      else call (tells_removed r e (scope o.framework r)) (λ h. tt)
    else pure tt

-- The loop over the listeners: one whose service cannot be got is passed over.
notify_each : Outside → Bool → Endpoint → Listeners → M (Unit {0})
unfolding tell
notify_each o is_added e [] = pure tt
notify_each o is_added e (r ∷ rs) = do
  status ← call (gets_service r) (λ h. o.get_service h r)
  if is_success status then tell o is_added r e else pure tt
  notify_each o is_added e rs

-- The status of every callback is overwritten by that of the unlocking.
unfoldable pub notify : Outside → Bool → Endpoint → M Status
unfolding notify_each
notify o is_added e = do rs ← gets (λ m. m.listener_list); notify_each o is_added e rs; pure success
