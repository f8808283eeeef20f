-- ===== src/WiringAdmin/Imports/Paired.antt =====
-- Send services and their registrations.
use node_wiring_secure.Base.{
  ℕ, Bool, List, [], ◌∷◌, none, some, ◌⊎◌, Option-cases, Bool-cases, inl, inr, ◌≡◌, refl, sym, ap,
  ◌∙◌, map, if◌then◌else◌,
}
use node_wiring_secure.Celix.{Status, is_success}
use node_wiring_secure.Celix.HashMap.{Map, lookup, insert, remove}
use node_wiring_secure.Endpoint.{Endpoint, wire_id}
use node_wiring_secure.WiringAdmin.Imports.{Sends, import_endpoint, remove_import}

abbrev pub keys : Map Endpoint ℕ → List Endpoint
keys m = map (λ x. x.0) m

-- Each send service has its registration, under the same key and at the same place.
abbrev pub IsPaired : Sends → Type 0
IsPaired m = keys m.services ≡ keys m.registrations

-- What insert and remove do to the keys alone.
unfoldable add_key : (Endpoint → Endpoint → Bool) → Endpoint → List Endpoint → List Endpoint
add_key same e [] = e ∷ []
add_key same e (k ∷ ks) = if same e k then k ∷ ks else k ∷ add_key same e ks

unfoldable drop_key : (Endpoint → Endpoint → Bool) → Endpoint → List Endpoint → List Endpoint
drop_key same e [] = []
drop_key same e (k ∷ ks) = if same e k then ks else k ∷ drop_key same e ks

keys-insert :
    (same : Endpoint → Endpoint → Bool) (e : Endpoint) (v : ℕ) (m : Map Endpoint ℕ)
    → keys (insert same e v m) ≡ add_key same e (keys m)
unfolding insert add_key
keys-insert same e v [] = refl
keys-insert same e v ((k, w) ∷ m) = elim (Bool-cases (same e k)) [
  | inl hit ↦ rw hit
  | inr miss ↦ rw miss (ap (λ l. k ∷ l) (keys-insert same e v m))
]

keys-remove :
    (same : Endpoint → Endpoint → Bool) (e : Endpoint) (m : Map Endpoint ℕ)
    → keys (remove same e m) ≡ drop_key same e (keys m)
unfolding remove drop_key
keys-remove same e [] = refl
keys-remove same e ((k, w) ∷ m) = elim (Bool-cases (same e k)) [
  | inl hit ↦ rw hit
  | inr miss ↦ rw miss (ap (λ l. k ∷ l) (keys-remove same e m))
]

insert-IsPaired :
    (same : Endpoint → Endpoint → Bool) (e : Endpoint) (service registration : ℕ) (m : Sends)
    → IsPaired m
    → IsPaired (record {
      services = insert same e service m.services;
      registrations = insert same e registration m.registrations;
    })
insert-IsPaired same e service registration m paired =
    keys-insert same e service m.services
    ∙ ap (add_key same e) paired
    ∙ sym (keys-insert same e registration m.registrations)

remove-IsPaired :
    (same : Endpoint → Endpoint → Bool) (e : Endpoint) (m : Sends)
    → IsPaired m
    → IsPaired (record {
      services = remove same e m.services;
      registrations = remove same e m.registrations;
    })
remove-IsPaired same e m paired =
    keys-remove same e m.services
    ∙ ap (drop_key same e) paired
    ∙ sym (keys-remove same e m.registrations)

removal-IsPaired :
    (same : Endpoint → Endpoint → Bool) (unregister : ℕ → Status) (e : Endpoint) (m : Sends)
    → IsPaired m
    → ((lookup same e m.registrations ≡ none) × (remove_import same unregister e m ≡ none))
      ⊎ ((r : ℕ) × (m'' : Sends) × (lookup same e m.registrations ≡ some r)
          × (remove_import same unregister e m ≡ some (unregister r, m''))
          × IsPaired m'')
unfolding remove_import
removal-IsPaired same unregister e m paired = elim (Option-cases (lookup same e m.registrations)) [
  | inl missing ↦ inl (missing, rw missing)
  | inr (r, there) ↦ inr (r, _, there, rw there, remove-IsPaired same e m paired)
]

-- Where every send service has its registration, for an endpoint with a wire id and an allocated send
-- service: an import returns with the answer of the registration, and after it every send service has
-- its registration; and a removal, whatever is answered to it, faults exactly if the endpoint has no
-- registration, and otherwise returns with the answer, and every send service has its registration
-- again.
pub imports-IsPaired :
    (same : Endpoint → Endpoint → Bool) (service registration : ℕ) (status : Status)
    (unregister : ℕ → Status) (e : Endpoint) (w : List ℕ) (m : Sends)
    → wire_id e ≡ some w
    → IsPaired m
    → (m' : Sends) × (import_endpoint same (some service) (status, registration) e m
        ≡ some (status, m'))
      × IsPaired m'
      × (((lookup same e m.registrations ≡ none) × (remove_import same unregister e m ≡ none))
          ⊎ ((r : ℕ) × (m'' : Sends) × (lookup same e m.registrations ≡ some r)
              × (remove_import same unregister e m ≡ some (unregister r, m''))
              × IsPaired m''))
unfolding import_endpoint
imports-IsPaired same service registration status unregister e w m wired paired =
    let removed = removal-IsPaired same unregister e m paired in
    elim (Bool-cases (is_success status)) [
      | inl good ↦ (
        record {
          services = insert same e service m.services;
          registrations = insert same e registration m.registrations;
        },
        rw (wired, good),
        insert-IsPaired same e service registration m paired,
        removed,
      )
      | inr bad ↦ (m, rw (wired, bad), paired, removed)
    ]
