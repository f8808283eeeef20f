-- ===== src/Topology/Tracker/Offering.antt =====
-- What a new listener of the topology manager is told.
use node_wiring_secure.Base.{
  ℕ, false, List, [], ◌∷◌, ◌++◌, some, Bool-cases, inl, inr, ◌≡◌, refl, ap, ◌∙◌, map, append-nil,
  append_assoc, if◌then◌else◌,
}
use node_wiring_secure.Celix.{Properties, Status, success}
use node_wiring_secure.Celix.HashMap.{Map}
use node_wiring_secure.Endpoint.{Endpoint}
use node_wiring_secure.Listener.{scope, accepts, join}
use node_wiring_secure.Topology.World.{Admin, World, Call, Outside, bind_at, tells_added}
use node_wiring_secure.Topology.Tracker.{is_own, offer_each, offer_all, listener_added}

-- The endpoints of one service, and of all services, in the order of the maps.
abbrev pub endpoints_of : Map Admin Endpoint → List Endpoint
endpoints_of m = map (λ x. x.1) m

unfoldable pub all_endpoints : Map Properties (Map Admin Endpoint) → List Endpoint
all_endpoints [] = []
all_endpoints ((p, m) ∷ exported) = endpoints_of m ++ all_endpoints exported

-- The calls that offer those of the endpoints that the listener accepts.
unfoldable pub offers : Outside → ℕ → List Endpoint → List Call
offers o r [] = []
offers o r (e ∷ es) =
    let rest = offers o r es in
    if accepts o.framework r e then tells_added r e (scope o.framework r) ∷ rest else rest

offers-append :
    (o : Outside) (r : ℕ) (es ds : List Endpoint)
    → offers o r (es ++ ds) ≡ offers o r es ++ offers o r ds
unfolding offers
offers-append o r [] ds = refl
offers-append o r (e ∷ es) ds = elim (Bool-cases (accepts o.framework r e)) [
  | inl hit ↦ rw hit (ap (λ l. tells_added r e (scope o.framework r) ∷ l) (offers-append o r es ds))
  | inr miss ↦ rw miss (offers-append o r es ds)
]

offer_each_lem :
    (o : Outside) (r : ℕ) (m : Map Admin Endpoint) (status : Status) (w : World)
    → (last : Status) × (offer_each o r m status w
        ≡ some (last, record w { history = w.history ++ offers o r (endpoints_of m) }))
unfolding offer_each offers
offer_each_lem o r [] status w = (status, rw append-nil)
offer_each_lem o r ((a, e) ∷ m) status w = elim (Bool-cases (accepts o.framework r e)) [
  | inl hit ↦
      let v : World = record w {
        history = w.history ++ (tells_added r e (scope o.framework r) ∷ []);
      } in
      let (last, ran) = offer_each_lem o r m (o.told w.history r e) v in
      (last, rw hit (ran ∙ simp append_assoc))
  | inr miss ↦ let (last, ran) = offer_each_lem o r m status w in (last, rw miss ran)
]

offer_all_lem :
    (o : Outside) (r : ℕ) (exported : Map Properties (Map Admin Endpoint)) (status : Status)
    (w : World)
    → (last : Status) × (offer_all o r exported status w
        ≡ some (last, record w { history = w.history ++ offers o r (all_endpoints exported) }))
unfolding offer_all all_endpoints
offer_all_lem o r [] status w = (status, unfold offers in rw append-nil)
offer_all_lem o r ((p, m) ∷ exported) status w =
    let (now, ran) = offer_each_lem o r m status w in
    let v : World = record w { history = w.history ++ offers o r (endpoints_of m) } in
    let (last, ran') = offer_all_lem o r exported now v in
    (
      last,
      bind_at (offer_each o r m status) (λ s. offer_all o r exported s) w ran
          ∙ ran'
          ∙ rw (offers-append o r (endpoints_of m) (all_endpoints exported)) (
              ap (λ h. some (last, record w { history = h }))
                (append_assoc w.history (offers o r (endpoints_of m))
                  (offers o r (all_endpoints exported)))),
    )

-- A new listener that is not the topology manager's own joins the listeners, and is offered exactly
-- those exported endpoints that its filter accepts, in the order of the maps; nothing else changes.
pub listener_added_lem :
    (o : Outside) (r : ℕ) (w : World)
    → is_own o r ≡ false
    → (status : Status) × (listener_added o r w
        ≡ some (
          status,
          record {
            manager = record (w.manager) { listener_list = join r w.manager.listener_list };
            history = w.history ++ offers o r (all_endpoints w.manager.exported);
          },
        ))
unfolding listener_added
listener_added_lem o r w foreign =
    let v : World = record w {
      manager = record (w.manager) { listener_list = join r w.manager.listener_list };
    } in
    let (status, ran) = offer_all_lem o r w.manager.exported success v in (status, rw foreign ran)
