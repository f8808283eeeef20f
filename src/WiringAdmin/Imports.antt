-- ===== src/WiringAdmin/Imports.antt =====
-- The import of wiring endpoints in wiring_admin_impl.c: a send service for each.
pub mod Paired
use node_wiring_secure.Base.{
  ℕ, Bool, true, false, List, [], ◌∷◌, Option, none, some, ◌>>=◌, if◌then◌else◌,
}
use node_wiring_secure.Celix.{Status, enomem, is_success}
use node_wiring_secure.Celix.HashMap.{Map, lookup, insert, remove}
use node_wiring_secure.Endpoint.{Endpoint, wire_id}

-- The maps wiringSendServices and wiringSendRegistrations, with the services and registrations by
-- their addresses.
pub record Sends : Type 0 where
  pub services : Map Endpoint ℕ
  pub registrations : Map Endpoint ℕ

-- wiringAdmin_importWiringEndpoint, by what calloc answers and by what registering the send service
-- answers. A wire id that is NULL is a null pointer that is read.
unfoldable pub import_endpoint :
    (Endpoint → Endpoint → Bool)
    → Option ℕ
    → Status × ℕ
    → Endpoint
    → Sends
    → Option (Status × Sends)
import_endpoint same none answer e m = some (enomem, m)
import_endpoint same (some service) (status, registration) e m = do
  w ← wire_id e
  some (
    status,
    if is_success status
        then record {
          services = insert same e service m.services;
          registrations = insert same e registration m.registrations;
        }
        else m,
  )

-- wiringAdmin_removeImportedWiringEndpoint, by what unregistering the registration answers; a NULL
-- registration is a null pointer that is read. The endpoint leaves both maps whatever the answer is.
unfoldable pub remove_import :
    (Endpoint → Endpoint → Bool) → (ℕ → Status) → Endpoint → Sends → Option (Status × Sends)
remove_import same unregister e m = do
  registration ← lookup same e m.registrations
  some (
    unregister registration,
    record { services = remove same e m.services; registrations = remove same e m.registrations },
  )
