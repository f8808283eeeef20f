-- ===== src/WiringAdmin/Exports/Published.antt =====
-- What a successful export publishes.
use node_wiring_secure.Base.{
  ℕ, true, false, CString, same_text, [], some, Bool-cases, inl, inr, ◌≡◌, ◌≢◌, ◌⊎◌, refl, sym, ap,
  ◌∙◌,
}
use node_wiring_secure.Celix.{Properties, Status, success, is_success}
use node_wiring_secure.Celix.HashMap.{lookup, lookup-insert_self}
use node_wiring_secure.Endpoint.{Endpoint, get, set, wire_id, wire_id_key}
use node_wiring_secure.Endpoint.Laws.{get-set, get-set_ne, create_fresh}
use node_wiring_secure.Topology.Import.{config_key}
use node_wiring_secure.WiringAdmin.Server.{start_webserver-some}
use node_wiring_secure.WiringAdmin.Exports.{
  Site, Admin, no_trackers, ready, announce_on, track, finish, export_ready, export_endpoint,
  secure_key, secure_value, config_value, url_key,
}

-- The endpoint says how it is reached, and has a wire id of its own.
abbrev pub IsPublished : Site → Admin → Endpoint → Type 0
IsPublished c a e =
    (get e.properties config_key ≡ some config_value)
    × (get e.properties secure_key ≡ some secure_value)
    × (get e.properties url_key ≡ some a.url)
    × (wire_id e ≡ some c.uuid)

-- The framework's uuid stands under a key of its own.
abbrev pub IsOwnKey : CString → Type 0
IsOwnKey k = (k ≢ config_key) × (k ≢ secure_key) × (k ≢ url_key) × (k ≢ wire_id_key)

abbrev wire_only : CString → Properties
wire_only uuid = set [] wire_id_key uuid

module _ (c : Site) (a : Admin) (fw : CString) (own_key : IsOwnKey c.framework_uuid_key) where
  abbrev p0 : Properties
  p0 = wire_only c.uuid

  abbrev p1 : Properties
  p1 = set p0 config_key config_value

  abbrev p2 : Properties
  p2 = set p1 secure_key secure_value

  abbrev p3 : Properties
  p3 = set p2 url_key a.url

  -- The framework's uuid hides none of the others.
  beside : (j : CString) → c.framework_uuid_key ≢ j → get (announce_on c a.url fw p0) j ≡ get p3 j
  unfolding announce_on
  beside j h = get-set_ne p3 c.framework_uuid_key j fw (λ e. h (sym e))

  announce_on-IsPublished :
      (b : ℕ) → IsPublished c a (record { address = b; properties = announce_on c a.url fw p0 })
  unfolding wire_id config_key secure_key url_key wire_id_key same_text
  announce_on-IsPublished b =
      let (k1, k2, k3, k4) = own_key in
      (
        beside config_key k1
            ∙ get-set p2 url_key config_key a.url
            ∙ get-set p1 secure_key config_key secure_value
            ∙ get-set p0 config_key config_key config_value,
        beside secure_key k2
            ∙ get-set p2 url_key secure_key a.url
            ∙ get-set p1 secure_key secure_key secure_value,
        beside url_key k3 ∙ get-set p2 url_key url_key a.url,
        beside wire_id_key k4
            ∙ get-set p2 url_key wire_id_key a.url
            ∙ get-set p1 secure_key wire_id_key secure_value
            ∙ get-set p0 config_key wire_id_key config_value
            ∙ get-set [] wire_id_key wire_id_key c.uuid,
      )

ready-trackers :
    (c : Site) (a : Admin)
    → c.certificates ≡ true
    → (a' : Admin) × (ready c a ≡ some a') × (a'.trackers ≡ a.trackers)
unfolding ready
ready-trackers c a there = elim (Bool-cases (no_trackers a.trackers)) [
  | inl first ↦
      let ((runs, url), started) = start_webserver-some c.starts c.ip c.port in
      (record a { runs = runs; url = url }, rw (first, there, started), refl)
  | inr later ↦ (a, rw later, refl)
]

-- The admin waits for the services of the endpoint, or the tracker has failed and nothing waits.
abbrev pub Tracked : Site → Admin → Endpoint → Status × Admin → Type 0
Tracked c a e (status, a') =
    (a'.url ≡ a.url)
    × (((is_success status ≡ true) × (lookup c.same_endpoint e a'.trackers ≡ some c.tracker))
        ⊎ ((is_success status ≡ false) × (a'.trackers ≡ a.trackers)))

track-Tracked :
    (c : Site) (e : Endpoint) (a : Admin) → c.same_endpoint e e ≡ true → Tracked c a e (track c e a)
unfolding track
track-Tracked c e a self = elim (Bool-cases (is_success c.create_tracker)) [
  | inr bad ↦ rw bad (refl, inr (bad, refl))
  | inl good ↦ elim (Bool-cases (is_success c.open_tracker)) [
    | inr bad ↦ rw (good, bad) (refl, inr (refl, refl))
    | inl good' ↦
        rw (good, good')
          (refl, inl (refl, lookup-insert_self c.same_endpoint e c.tracker a.trackers self))
  ]
]

-- Where the certificates are there, the framework has a uuid under a key of its own, the endpoint is
-- allocated and equal to itself as a key: an export returns and leaves an endpoint that has the
-- configuration, the url of the admin and the generated wire id. If the status is a success, the
-- admin tracks the receive services of this endpoint; if not, it tracks no more than before, though
-- the endpoint is there.
pub export_endpoint-IsPublished :
    (c : Site) (a : Admin) (fw : CString) (b : ℕ)
    → c.certificates ≡ true
    → c.framework_uuid ≡ (success, some fw)
    → c.block ≡ some b
    → IsOwnKey c.framework_uuid_key
    → ((e : Endpoint) → c.same_endpoint e e ≡ true)
    → (status : Status) × (e : Endpoint) × (a' : Admin) × (export_endpoint c a
        ≡ some (status, some e, a'))
      × IsPublished c a' e
      × (((is_success status ≡ true) × (lookup c.same_endpoint e a'.trackers ≡ some c.tracker))
          ⊎ ((is_success status ≡ false) × (a'.trackers ≡ a.trackers)))
unfolding export_endpoint export_ready finish is_success
export_endpoint-IsPublished c a fw b there named allocated own_key self =
    let (a1, readied, kept) = ready-trackers c a there in
    let e : Endpoint = record {
      address = b;
      properties = announce_on c a1.url fw (wire_only c.uuid);
    } in
    let (same_url, tracked) = track-Tracked c e a1 (self e) in
    let (k1, k2, k3, k4) = announce_on-IsPublished c a1 fw own_key b in
    (
      (track c e a1).0,
      e,
      (track c e a1).1,
      rw (readied, named, allocated, create_fresh b c.uuid),
      (k1, k2, k3 ∙ ap some (sym same_url), k4),
      elim tracked [ inl good ↦ inl good | inr (bad, same) ↦ inr (bad, same ∙ kept) ],
    )
