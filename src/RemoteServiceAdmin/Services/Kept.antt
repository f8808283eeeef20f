-- ===== src/RemoteServiceAdmin/Services/Kept.antt =====
-- An export that is removed stays listed, without its service.
use mathlib.Core.Option
use mathlib.Core.Bool.{true≢false}
use mathlib.Core.Option.{none-ne-some}
use node_wiring_secure.Base.{
  ℕ, true, false, List, [], ◌∷◌, ◌++◌, Option, none, some, ◌==◌, ==_iff, map, ◌≡◌, refl, ap, sym,
  ◌∙◌, Option-cases, Bool-cases, inl, inr, if◌then◌else◌,
}
use node_wiring_secure.Celix.{success}
use node_wiring_secure.Celix.HashMap.{Map, lookup, remove, remove_absent}
use node_wiring_secure.RemoteServiceAdmin.Exporting.{Export, export_stop, remove_serv, is_service}
use node_wiring_secure.RemoteServiceAdmin.World.{World, Outside, ungets_reference, allocates}
use node_wiring_secure.RemoteServiceAdmin.Removing.{close_at, close_export}
use node_wiring_secure.RemoteServiceAdmin.Services.{remove_exported_service}
use node_wiring_secure.RemoteServiceAdmin.Requests.{first_with, last_with}

module _ {Json : Type 0} (o : Outside Json) where
  -- The registrations of a map, those at the address `a` closed.
  abbrev pub closed : ℕ → Map ℕ (List Export) → Map ℕ (List Export)
  closed a m = map (λ x. (x.0, close_at o a x.1)) m

  abbrev pub close_if : ℕ → Export → Export
  close_if a e = if e.address == a then export_stop e else e

  remove_serv_self :
      (e : Export) (s : ℕ) → e.service ≡ some s → remove_serv s e ≡ record e { service = none }
  unfolding remove_serv is_service
  remove_serv_self e s there = rw (remove_serv, there, is_service, (==_iff s s).1 refl)

  -- To stop a registration lets its service go, and changes nothing that a search looks at.
  export_stop_lem :
      (e : Export)
      → ((export_stop e).endpoint ≡ e.endpoint)
        × ((export_stop e).address ≡ e.address)
        × (e.is_tracking ≡ true → (export_stop e).service ≡ none)
  unfolding export_stop
  export_stop_lem e = elim (Bool-cases e.is_tracking) [
    | inl open_now ↦ elim (Option-cases e.service) [
      | inl missing ↦ rw (export_stop, open_now, missing) (refl, refl, λ h. missing)
      | inr (s, there) ↦
          rw
            (
              export_stop,
              open_now,
              there,
              remove_serv_self (record e { is_tracking = false }) s there,
            )
            (refl, refl, λ h. refl)
    ]
    | inr shut ↦ rw (export_stop, shut) (refl, refl, λ h. absurd (true≢false (sym h)))
  ]

  close_if_endpoint : (a : ℕ) (e : Export) → (close_if a e).endpoint ≡ e.endpoint
  close_if_endpoint a e = elim (Bool-cases (e.address == a)) [
    | inl hit ↦ rw hit ((export_stop_lem e).0)
    | inr miss ↦ rw miss
  ]

  lookup-closed :
      (a r : ℕ) (m : Map ℕ (List Export))
      → lookup (λ x y. x == y) r m ≡ none
      → lookup (λ x y. x == y) r (closed a m) ≡ none
  unfolding lookup
  lookup-closed a r [] h = refl
  lookup-closed a r ((k, es) ∷ m) h = elim (Bool-cases (r == k)) [
    | inl hit ↦ absurd (none-ne-some es (sym (rw hit at h)))
    | inr miss ↦ rw miss (lookup-closed a r m (rw miss at h))
  ]

  first_with-closed :
      (a id : ℕ) (es : List Export)
      → first_with id (close_at o a es) ≡ Option.map (close_if a) (first_with id es)
  unfolding first_with
  first_with-closed a id [] = refl
  first_with-closed a id (e ∷ es) =
      let same = close_if_endpoint a e in
      elim (Bool-cases (id == e.endpoint.service_id)) [
        | inl hit ↦ rw (ap (λ d. id == d.service_id) same ∙ hit, hit)
        | inr miss ↦ rw (ap (λ d. id == d.service_id) same ∙ miss, miss) (first_with-closed a id es)
      ]

  last_with-closed :
      (a id : ℕ) (m : Map ℕ (List Export)) (before : Option Export)
      → last_with id (closed a m) (Option.map (close_if a) before)
        ≡ Option.map (close_if a) (last_with id m before)
  unfolding last_with
  last_with-closed a id [] before = refl
  last_with-closed a id ((r, es) ∷ m) before = elim (Option-cases (first_with id es)) [
    | inl missing ↦
        rw (last_with, first_with-closed a id es, missing) (last_with-closed a id m before)
    | inr (e, found) ↦
        rw (last_with, first_with-closed a id es, found) (last_with-closed a id m (some e))
  ]

  -- Where the address of new memory is no service reference, a request for some service id would call
  -- the given registration, and its tracker is open: to remove it as an exported service succeeds and
  -- removes no registration, those at its address are stopped, and a request for this id still calls
  -- it, without a service.
  pub remove_exported_service-kept :
      (e : Export) (id : ℕ) (w : World)
      → lookup (λ x y. x == y) (o.new_address w.history) w.admin.exported_services ≡ none
      → last_with id w.admin.exported_services none ≡ some e
      → e.is_tracking ≡ true
      → (w' : World) × (remove_exported_service o e w ≡ some (success, w'))
        × (w'.admin.exported_services ≡ closed e.address w.admin.exported_services)
        × ((e' : Export) × (last_with id w'.admin.exported_services none ≡ some e')
            × (e'.address ≡ e.address)
            × (e'.service ≡ none))
  unfolding remove_exported_service close_export
  remove_exported_service-kept e id w fresh found tracking =
      let m = closed e.address w.admin.exported_services in
      let a = o.new_address w.history in
      let stays : remove (λ x y. x == y) a m ≡ m =
        remove_absent (λ x y. x == y) a m
          (lookup-closed e.address a w.admin.exported_services fresh) in
      let w' : World = record {
        admin = record (w.admin) { exported_services = remove (λ x y. x == y) a m };
        history = (w.history ++ (allocates ∷ [])) ++ (ungets_reference e.reference ∷ []);
      } in
      let (same_endpoint, same_address, gone) = export_stop_lem e in
      let it : (e.address == e.address) ≡ true = (==_iff e.address e.address).1 refl in
      (
        w',
        refl,
        stays,
        (
          export_stop e,
          ap (λ x. last_with id x none) stays
              ∙ last_with-closed e.address id w.admin.exported_services none
              ∙ ap (Option.map (close_if e.address)) found
              ∙ ap (λ b. some (if b then export_stop e else e)) it,
          same_address,
          gone tracking,
        ),
      )
