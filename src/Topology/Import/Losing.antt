-- ===== src/Topology/Import/Losing.antt =====
-- What happens when a wiring endpoint is lost.
use node_wiring_secure.Base.{
  false, List, [], ◌∷◌, ◌++◌, Option, none, some, Option-cases, inl, inr, ◌≡◌, ◌∙◌, map, append-nil,
  append_assoc,
}
use node_wiring_secure.Celix.{success}
use node_wiring_secure.Celix.HashMap.{lookup, remove, remove_absent}
use node_wiring_secure.Endpoint.{Endpoint}
use node_wiring_secure.Topology.World.{Admin, World, Outside, ◌>>=◌, pure, bind_at, removes_import}
use node_wiring_secure.Topology.Notify.{notify}
use node_wiring_secure.Topology.Notify.Reach.{notices, notify_lem}
use node_wiring_secure.Topology.Import.{remove_each_import, lose, wiring_endpoint_removed}

remove_each_import_lem :
    (o : Outside) (e : Endpoint) (admins : List Admin) (w : World)
    → remove_each_import o e admins w
      ≡ some (tt, record w { history = w.history ++ map (λ a. removes_import a e) admins })
unfolding remove_each_import
remove_each_import_lem o e [] w = rw append-nil
remove_each_import_lem o e (a ∷ admins) w =
    remove_each_import_lem o e admins
      (record w { history = w.history ++ (removes_import a e ∷ []) })
    ∙ simp append_assoc

-- The admins that have imported the endpoint.
abbrev pub importers : Option (List Admin) → List Admin
importers none = []
importers (some admins) = admins

-- The world when the endpoint has left the map and its admins have been told.
abbrev pub without_endpoint : Outside → Endpoint → World → World
without_endpoint o e w = record {
  manager = record (w.manager) { imported = remove o.same_endpoint e w.manager.imported };
  history =
      w.history
      ++ map (λ a. removes_import a e) (importers (lookup o.same_endpoint e w.manager.imported));
}

lose_lem :
    (o : Outside) (e : Endpoint) (w : World)
    → lose o e (lookup o.same_endpoint e w.manager.imported) w ≡ some (tt, without_endpoint o e w)
unfolding lose
lose_lem o e w = elim (Option-cases (lookup o.same_endpoint e w.manager.imported)) [
  | inl gone ↦ rw (gone, append-nil, remove_absent o.same_endpoint e w.manager.imported gone)
  | inr (admins, found) ↦ rw found (remove_each_import_lem o e admins _)
]

-- A lost endpoint leaves the imported ones and nothing else of the manager changes; each admin that
-- had imported it is told once, in the order of its list, and then the listeners are notified. The
-- status is a success, whatever the admins answer.
pub wiring_endpoint_removed_lem :
    (o : Outside) (e : Endpoint) (w : World)
    → wiring_endpoint_removed o e w
      ≡ some (
        success,
        record (without_endpoint o e w) {
          history =
              (without_endpoint o e w).history
              ++ notices o false e w.manager.listener_list (without_endpoint o e w).history;
        },
      )
unfolding wiring_endpoint_removed
wiring_endpoint_removed_lem o e w =
    bind_at (lose o e (lookup o.same_endpoint e w.manager.imported))
      (λ _. notify o false e >>= λ _. pure success) w (lose_lem o e w)
    ∙ bind_at (notify o false e) (λ _. pure success) (without_endpoint o e w)
        (notify_lem o false e (without_endpoint o e w))
