-- ===== src/Topology/Tracker.antt =====
-- wtm_wendpointlistener_tracker.c: wiring endpoint listeners come and go.
pub mod Offering
use node_wiring_secure.Base.{
  ℕ, Bool, false, CString, codes, same_text, [], ◌∷◌, Option, none, some, if◌then◌else◌,
}
use node_wiring_secure.Celix.{Properties, Status, success, is_success}
use node_wiring_secure.Celix.HashMap.{Map}
use node_wiring_secure.Endpoint.{Endpoint}
use node_wiring_secure.Listener.{scope, accepts, true_text, join, leave}
use node_wiring_secure.Topology.World.{
  Admin, Outside, M, ◌>>=◌, ◌>>◌, pure, gets, modify, call, tells_added,
}

unfoldable pub wtm_key : CString
wtm_key = codes "WTM"

is_true : Option CString → Bool
is_true none = false
is_true (some v) = same_text v true_text

-- The reference is the topology manager's own listener.
unfoldable pub is_own : Outside → ℕ → Bool
unfolding is_true
is_own o r = is_true (o.framework.property r wtm_key)

-- The exported endpoints of one service that the new listener accepts are offered to it.
unfoldable pub offer_each : Outside → ℕ → Map Admin Endpoint → Status → M Status
offer_each o r [] status = pure status
offer_each o r ((a, e) ∷ m) status = do
  now ←
      (if accepts o.framework r e
        then call (tells_added r e (scope o.framework r)) (λ h. o.told h r e)
        else pure status)
  offer_each o r m now

unfoldable pub offer_all : Outside → ℕ → Map Properties (Map Admin Endpoint) → Status → M Status
offer_all o r [] status = pure status
offer_all o r ((p, m) ∷ exported) status = do
  now ← offer_each o r m status
  offer_all o r exported now

-- wiringTopologyManager_wiringEndpointListenerAdded
unfoldable pub listener_added : Outside → ℕ → M Status
listener_added o r = if is_own o r then pure success else (do
  modify (λ w. record w { listener_list = join r w.listener_list })
  exported ← gets (λ w. w.exported)
  offer_all o r exported success)

-- wiringTopologyManager_wiringEndpointListenerRemoved
unfoldable pub listener_removed : Outside → ℕ → M Status
listener_removed o r = do
  modify (λ w. record w { listener_list = leave r w.listener_list })
  pure success

-- wiringTopologyManager_wiringEndpointListenerModified
unfoldable pub listener_modified : Outside → ℕ → M Status
listener_modified o r = do
  status ← listener_removed o r
  if is_success status then listener_added o r else pure status
