-- ===== src/Topology/Export/Wires.antt =====
-- What an export of a wiring endpoint leaves behind.
use mathlib.Core.Option.{none-ne-some}
use node_wiring_secure.Base.{
  Bool, true, false, CString, List, [], ◌∷◌, ◌++◌, Option, none, some, if◌then◌else◌, Bool-cases,
  inl, inr, ◌≡◌, ◌≢◌, refl, ap, ◌∙◌, ◌⊎◌, any, arith,
}
use node_wiring_secure.Celix.{Properties, Status, success, bundle_exception, is_success}
use node_wiring_secure.Celix.HashMap.{Map, lookup, insert, lookup-insert_self}
use node_wiring_secure.Endpoint.{Endpoint, get}
use node_wiring_secure.Topology.World.{
  Admin, Manager, World, History, Outside, M, pure, bind_at, exports, asks_properties, contains,
}
use node_wiring_secure.Topology.Matching.{properties_match, same_service}
use node_wiring_secure.Topology.Matching.Meaning.{UniqueKeys, same_service_refl}
use node_wiring_secure.Topology.Notify.{notify}
use node_wiring_secure.Topology.Notify.Reach.{notices, notify_lem}
use node_wiring_secure.Topology.Export.{
  admin_export, export_with, finish_export, try_admins, put_export, new_wire, export_found,
  export_wiring_endpoint, set_exported, service_id, requested_service_id, mark,
}

-- An admin that answers an export with a success has set the endpoint.
abbrev pub ExportsReturn : Outside → Type 0
ExportsReturn o =
    (h : History) (a : Admin)
    → is_success (o.export_endpoint h a).0 ≡ true
    → (e : Endpoint) × ((o.export_endpoint h a).1 ≡ some e)

-- The step returns, leaves the manager as it is, and gives an endpoint where it succeeds.
abbrev Returns : M (Status × Option Endpoint) → World → Type 0
Returns m w =
    (r : Status × Option Endpoint) × (w' : World) × (m w ≡ some (r, w'))
    × (w'.manager ≡ w.manager)
    × ((is_success r.0 ≡ false) ⊎ ((e : Endpoint) × (r.1 ≡ some e)))

bundle_fails : is_success bundle_exception ≡ false
unfolding is_success
bundle_fails = refl

Returns-if :
    (b : Bool) (m n : M (Status × Option Endpoint)) (w : World)
    → Returns m w
    → Returns n w
    → Returns (if b then m else n) w
Returns-if true m n w h k = h
Returns-if false m n w h k = k

module _ (o : Outside) (p : Properties) (id : CString) (named : get p service_id ≡ some id) where
  finish_export-Returns :
      (result : Option Endpoint) (e : Endpoint) (w : World)
      → result ≡ some e
      → Returns (finish_export o p result) w
  unfolding finish_export
  finish_export-Returns none e w h = absurd (none-ne-some e h)
  finish_export-Returns (some d) e w h =
      let d' = mark requested_service_id id d in
      let w' : World = record w {
        history = w.history ++ notices o true d' w.manager.listener_list w.history;
      } in
      (
        (success, some d'),
        w',
        rw named (
            bind_at (notify o true d') (λ status. pure (status, some d')) w
              (notify_lem o true d' w)),
        refl,
        inr (d', refl),
      )

  module _ (returns : ExportsReturn o) where
    export_with-Returns :
        (a : Admin) (r : Option Properties) (w : World) → Returns (export_with o a p r) w
    unfolding export_with
    export_with-Returns a none w = ((bundle_exception, none), w, refl, refl, inl bundle_fails)
    export_with-Returns a (some r) w =
        Returns-if (properties_match o p r) _ _ w (answered (is_success answer.0) refl)
          ((bundle_exception, none), w, refl, refl, inl bundle_fails)
      where
        answer : Status × Option Endpoint
        answer = o.export_endpoint w.history a

        w1 : World
        w1 = record w { history = w.history ++ (exports a ∷ []) }

        answered :
            (b : Bool)
            → is_success answer.0 ≡ b
            → Returns (if b then finish_export o p answer.1 else pure answer) w1
        answered true done =
            let (e, h) = returns w.history a done in finish_export-Returns answer.1 e w1 h
        answered false fails = (answer, w1, refl, refl, inl fails)

    admin_export-Returns : (a : Admin) (w : World) → Returns (admin_export o a p) w
    unfolding admin_export
    admin_export-Returns a w =
        export_with-Returns a (o.admin_properties w.history a)
          (record w { history = w.history ++ (asks_properties a ∷ []) })

-- Of the admins, either none has exported the service, or exactly one has.
abbrev pub Outcome : List Admin → Status × Map Admin Endpoint → Type 0
Outcome admins (status, m) =
    ((is_success status ≡ false) × (m ≡ []))
    ⊎ ((is_success status ≡ true)
        × ((a : Admin) × (e : Endpoint) × (contains admins a ≡ true) × (m ≡ (a, e) ∷ [])))

Outcome-cons :
    (a : Admin) (admins : List Admin) (r : Status × Map Admin Endpoint)
    → Outcome admins r
    → Outcome (a ∷ admins) r
unfolding any
Outcome-cons a admins r (inl h) = inl h
Outcome-cons a admins r (inr (done, (b, e, i, h))) = inr (done, (b, e, ground (arith, i), h))

-- The attempts return, leave the manager as it is, and have an outcome.
abbrev Ends : M (Status × Map Admin Endpoint) → List Admin → World → Type 0
Ends m admins w =
    (r : Status × Map Admin Endpoint) × (w' : World) × (m w ≡ some (r, w'))
    × (w'.manager ≡ w.manager)
    × Outcome admins r

-- What follows the attempt of one admin in try_admins.
abbrev next_admin :
    Outside
    → Properties
    → Admin
    → List Admin
    → Status × Option Endpoint
    → M (Status × Map Admin Endpoint)
next_admin o p a admins (now, e) = elim e [
  | none ↦ try_admins o p admins now []
  | some d ↦ pure (now, put_export now a (some d) [])
]

exported-Ends :
    (a : Admin) (admins : List Admin) (now : Status) (d : Endpoint) (w : World)
    → Ends (pure (now, put_export now a (some d) [])) (a ∷ admins) w
unfolding insert any
exported-Ends a admins now d w = elim (Bool-cases (is_success now)) [
  | inl done ↦ ((now, _), w, refl, refl, inr (done, (a, d, ground arith, rw done)))
  | inr fails ↦ ((now, _), w, refl, refl, inl (fails, rw fails))
]

next_admin-Ends :
    (o : Outside) (p : Properties) (a : Admin) (admins : List Admin) (now : Status)
    (e : Option Endpoint) (w : World)
    → (is_success now ≡ false → Ends (try_admins o p admins now []) admins w)
    → (is_success now ≡ false) ⊎ ((d : Endpoint) × (e ≡ some d))
    → Ends (next_admin o p a admins (now, e)) (a ∷ admins) w
next_admin-Ends o p a admins now none w rest (inl fails) =
    let (r, w', ran, kept, out) = rest fails in (r, w', ran, kept, Outcome-cons a admins r out)
next_admin-Ends o p a admins now none w rest (inr (d, h)) = absurd (none-ne-some d h)
next_admin-Ends o p a admins now (some d) w rest good = exported-Ends a admins now d w

module _ (o : Outside) (p : Properties) (id : CString) (named : get p service_id ≡ some id)
    (returns : ExportsReturn o) where
  try_admins-Ends :
      (admins : List Admin) (status : Status) (w : World)
      → is_success status ≡ false
      → Ends (try_admins o p admins status []) admins w
  unfolding try_admins
  try_admins-Ends [] status w fails = ((status, []), w, refl, refl, inl (fails, refl))
  try_admins-Ends (a ∷ admins) status w fails =
      let ((now, e), w', ran, kept, good) = admin_export-Returns o p id named returns a w in
      let (r, w'', ran', kept', out) =
        next_admin-Ends o p a admins now e w' (try_admins-Ends admins now w') good in
      (
        r,
        w'',
        bind_at (admin_export o a p) (next_admin o p a admins) w ran ∙ ran',
        kept' ∙ kept,
        out,
      )

  new_wire-Ends :
      (admins : List Admin) (w : World)
      → admins ≢ []
      → (r : Status × Map Admin Endpoint) × (w' : World) × (new_wire o p admins w ≡ some (r.0, w'))
        × (w'.manager ≡ set_exported o p r.1 w.manager)
        × Outcome admins r
  unfolding new_wire
  new_wire-Ends [] w there = absurd (there refl)
  new_wire-Ends (a ∷ admins) w there =
      let ((status, m), w', ran, kept, out) =
        try_admins-Ends (a ∷ admins) bundle_exception w bundle_fails in
      (
        (status, m),
        record w' { manager = set_exported o p m w'.manager },
        bind_at (try_admins o p (a ∷ admins) bundle_exception []) _ w ran,
        ap (set_exported o p m) kept,
        out,
      )

  -- An export of a service that has no wire yet, where there are wiring admins, returns, and changes
  -- the exported services only: the new entry holds one admin of the list with its endpoint where
  -- the status is a success, and is empty where it is a failure.
  pub export_wiring_endpoint-Outcome :
      (w : World)
      → UniqueKeys p
      → w.manager.wa_list ≢ []
      → lookup (same_service o) p w.manager.exported ≡ none
      → (status : Status) × (m : Map Admin Endpoint) × (w' : World) × (export_wiring_endpoint o
            (some p)
            w
          ≡ some (status, w'))
        × (w'.manager ≡ set_exported o p m w.manager)
        × (lookup (same_service o) p w'.manager.exported ≡ some m)
        × Outcome w.manager.wa_list (status, m)
  unfolding export_wiring_endpoint export_found
  export_wiring_endpoint-Outcome w unique there fresh =
      let ((status, m), w', ran, kept, out) = new_wire-Ends w.manager.wa_list w there in
      (
        status,
        m,
        w',
        rw fresh ran,
        kept,
        ap (λ (v : Manager). lookup (same_service o) p v.exported) kept
            ∙ lookup-insert_self (same_service o) p m w.manager.exported
                (same_service_refl o p unique),
        out,
      )
