-- ===== src/Topology/Export/Reuse.antt =====
-- The export of a service that has an entry already.
use node_wiring_secure.Base.{
  true, false, CString, List, [], ◌∷◌, ◌++◌, none, some, ◌≡◌, ◌≢◌, ◌⊎◌, ap, ◌∙◌, inl, inr,
  append-nil, append_assoc,
}
use node_wiring_secure.Celix.{Properties, Status, success, is_success}
use node_wiring_secure.Celix.HashMap.{Map, lookup, insert_same}
use node_wiring_secure.Endpoint.{Endpoint, get}
use node_wiring_secure.Listener.{Listeners}
use node_wiring_secure.Topology.World.{
  Admin, World, Call, History, Outside, M, ◌>>=◌, pure, modify, bind_at,
}
use node_wiring_secure.Topology.Matching.{same_service}
use node_wiring_secure.Topology.Matching.Meaning.{UniqueKeys}
use node_wiring_secure.Topology.Notify.{notify}
use node_wiring_secure.Topology.Notify.Reach.{notices, notify_lem}
use node_wiring_secure.Topology.Export.{
  reuse_each, export_found, export_wiring_endpoint, set_exported, service_id, requested_service_id,
  mark,
}
use node_wiring_secure.Topology.Export.Wires.{ExportsReturn, export_wiring_endpoint-Outcome}

-- The endpoints of a service, with the id of the service that uses them now.
unfoldable pub relabel : CString → Map Admin Endpoint → Map Admin Endpoint
relabel id [] = []
relabel id ((a, e) ∷ m) = (a, mark requested_service_id id e) ∷ relabel id m

-- The calls that announce these endpoints one after the other.
unfoldable pub announced : Outside → Listeners → Map Admin Endpoint → History → List Call
announced o rs [] h = []
announced o rs ((a, e) ∷ m) h =
    let told = notices o true e rs h in told ++ announced o rs m (h ++ told)

module _ (o : Outside) (p : Properties) (id : CString) (named : get p service_id ≡ some id) where
  reuse_each_lem :
      (m : Map Admin Endpoint) (w : World)
      → reuse_each o p m w
        ≡ some (
          relabel id m,
          record w {
            history = w.history ++ announced o w.manager.listener_list (relabel id m) w.history;
          },
        )
  unfolding reuse_each relabel announced
  reuse_each_lem [] w = rw append-nil
  reuse_each_lem ((a, e) ∷ m) w =
      let e' = mark requested_service_id id e in
      let told = notices o true e' w.manager.listener_list w.history in
      let v : World = record w { history = w.history ++ told } in
      let rest : M (Map Admin Endpoint) = reuse_each o p m >>= λ r. pure ((a, e') ∷ r) in
      rw named (
        bind_at (notify o true e') (λ _. rest) w (notify_lem o true e' w)
        ∙ bind_at (reuse_each o p m) (λ r. pure ((a, e') ∷ r)) v (reuse_each_lem m v)
        ∙ simp append_assoc)

  -- An export of a service that has an entry is a success that asks no wiring admin: the endpoints
  -- of the entry get the id of the service, and each is announced.
  pub export_wiring_endpoint-relabel :
      (w : World) (m : Map Admin Endpoint)
      → lookup (same_service o) p w.manager.exported ≡ some m
      → export_wiring_endpoint o (some p) w
        ≡ some (
          success,
          record {
            manager = set_exported o p (relabel id m) w.manager;
            history = w.history ++ announced o w.manager.listener_list (relabel id m) w.history;
          },
        )
  unfolding export_wiring_endpoint export_found
  export_wiring_endpoint-relabel w m found = rw found (
      bind_at (reuse_each o p m) (λ m'. modify (set_exported o p m') >>= λ _. pure success) w
        (reuse_each_lem m w))

  -- An entry without a wire.
  export_wiring_endpoint-empty :
      (w : World)
      → lookup (same_service o) p w.manager.exported ≡ some []
      → export_wiring_endpoint o (some p) w ≡ some (success, w)
  unfolding relabel announced
  export_wiring_endpoint-empty w found =
      export_wiring_endpoint-relabel w [] found
      ∙ rw (append-nil, insert_same (same_service o) p [] w.manager.exported found)

  -- A first export of a service, where there are wiring admins, returns. Either it is a success, or
  -- it is a failure that is not tried again: the next export of the service is then a success that
  -- changes nothing and calls nothing, though the service has no wire.
  pub export_wiring_endpoint-again :
      (w : World)
      → ExportsReturn o
      → UniqueKeys p
      → w.manager.wa_list ≢ []
      → lookup (same_service o) p w.manager.exported ≡ none
      → (status : Status) × (w' : World) × (export_wiring_endpoint o (some p) w ≡ some (status, w'))
        × ((is_success status ≡ true)
            ⊎ ((is_success status ≡ false)
                × (lookup (same_service o) p w'.manager.exported ≡ some [])
                × (export_wiring_endpoint o (some p) w' ≡ some (success, w'))))
  export_wiring_endpoint-again w returns unique there fresh =
      let (status, m, w', ran, kept, found, out) =
        export_wiring_endpoint-Outcome o p id named returns w unique there fresh in
      (
        status,
        w',
        ran,
        elim out [
          | inl (fails, nothing) ↦
              let empty = found ∙ ap some nothing in
              inr (fails, empty, export_wiring_endpoint-empty w' empty)
          | inr (done, _) ↦ inl done
        ],
      )
