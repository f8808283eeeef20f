-- ===== src/Topology/Notify/Reach.antt =====
-- Whom a notification reaches.
use node_wiring_secure.Base.{
  ℕ, Bool, some, List, [], ◌∷◌, ◌++◌, some, if◌then◌else◌, ◌≡◌, ◌∙◌, append-nil, append_assoc,
  arith,
}
use node_wiring_secure.Celix.{success, is_success}
use node_wiring_secure.Endpoint.{Endpoint}
use node_wiring_secure.Listener.{Listeners, scope}
use node_wiring_secure.Topology.World.{
  Outside, World, Call, History, pure, gets_service, tells_added, tells_removed, bind_at,
}
use node_wiring_secure.Topology.Notify.{concerns, tell, notify_each, notify}

-- What listener `r` is told after the history `h`, if its service is got.
unfoldable pub told_of : Outside → Bool → Endpoint → ℕ → History → List Call
told_of o is_added e r h =
    if is_success (o.get_service h r)
    then if concerns o r e
      then if is_added
        then tells_added r e (scope o.framework r) ∷ []
        else tells_removed r e (scope o.framework r) ∷ []
      else []
    else []

-- The calls that one notification makes after the history `h`.
unfoldable pub notices : Outside → Bool → Endpoint → Listeners → History → List Call
notices o is_added e [] h = []
notices o is_added e (r ∷ rs) h =
    let told = told_of o is_added e r h in
    (gets_service r ∷ told) ++ notices o is_added e rs (h ++ (gets_service r ∷ told))

tell_lem :
    (o : Outside) (is_added : Bool) (e : Endpoint) (r : ℕ) (h : History) (v : World)
    → (if is_success (o.get_service h r) then tell o is_added r e else pure tt) v
      ≡ some (tt, record v { history = v.history ++ told_of o is_added e r h })
unfolding tell told_of
tell_lem o is_added e r h v = ground (arith, append-nil v.history)

notify_each_lem :
    (o : Outside) (is_added : Bool) (e : Endpoint) (rs : Listeners) (w : World)
    → notify_each o is_added e rs w
      ≡ some (tt, record w { history = w.history ++ notices o is_added e rs w.history })
unfolding notify_each notices
notify_each_lem o is_added e [] w = rw append-nil
notify_each_lem o is_added e (r ∷ rs) w =
    let v : World = record w { history = w.history ++ (gets_service r ∷ []) } in
    bind_at (if is_success (o.get_service w.history r) then tell o is_added r e else pure tt)
      (λ _. notify_each o is_added e rs) v (tell_lem o is_added e r w.history v)
    ∙ notify_each_lem o is_added e rs _
    ∙ simp append_assoc

-- A notification never fails, leaves the manager as it is, and makes these calls: each listener's
-- service is got in turn, and the listener is told of the endpoint exactly if that succeeds and its
-- filter matches the endpoint or it is a remote service admin's.
pub notify_lem :
    (o : Outside) (is_added : Bool) (e : Endpoint) (w : World)
    → notify o is_added e w
      ≡ some (
        success,
        record w { history = w.history ++ notices o is_added e w.manager.listener_list w.history },
      )
unfolding notify
notify_lem o is_added e w =
    bind_at (notify_each o is_added e w.manager.listener_list) (λ _. pure success) w
      (notify_each_lem o is_added e w.manager.listener_list w)
