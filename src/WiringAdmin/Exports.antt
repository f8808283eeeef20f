-- ===== src/WiringAdmin/Exports.antt =====
-- The export of wiring endpoints in wiring_admin_impl.c.
pub mod Published
use node_wiring_secure.Base.{
  ℕ, Bool, true, false, CString, codes, List, [], ◌∷◌, ◌++◌, Option, none, some, ◌>>=◌,
  if◌then◌else◌,
}
use node_wiring_secure.Celix.{Properties, Status, success, illegal_argument, is_success}
use node_wiring_secure.Celix.HashMap.{Map, lookup, insert, remove}
use node_wiring_secure.Endpoint.{Endpoint, set, create}
use node_wiring_secure.Topology.Import.{config_key}
use node_wiring_secure.WiringAdmin.Server.{start_webserver}

unfoldable pub secure_key : CString
secure_key = codes "inaetics.wiring.secure"

unfoldable pub config_value : CString
config_value = codes "inaetics.wiring.https"

unfoldable pub secure_value : CString
secure_value = codes "yes"

unfoldable pub url_key : CString
url_key = codes "inaetics.wiring.https.url"

-- What an export depends on outside the admin: the web server and its surroundings, the framework's
-- uuid, what creating an endpoint gets, and the answers on a new tracker for a wire id. The last is
-- whether the key test of the maps takes two endpoints for one.
pub record Site : Type 0 where
  pub starts : CString → Bool
  pub certificates : Bool
  pub ip : Option CString
  pub port : CString
  pub framework_uuid : Status × Option CString
  pub framework_uuid_key : CString
  pub block : Option ℕ
  pub uuid : CString
  pub create_tracker : Status
  pub open_tracker : Status
  pub tracker : ℕ
  pub same_endpoint : Endpoint → Endpoint → Bool

-- The state that an export uses.
pub record Admin : Type 0 where
  pub trackers : Map Endpoint ℕ
  pub runs : Bool
  pub url : CString

abbrev pub no_trackers : Map Endpoint ℕ → Bool
no_trackers [] = true
no_trackers (x ∷ m) = false

-- The web server is started for the first tracker.
unfoldable pub ready : Site → Admin → Option Admin
ready c a =
    if no_trackers a.trackers
    then (do
      (runs, url) ← start_webserver c.starts c.certificates c.ip c.port
      some (record a { runs = runs; url = url }))
    else some a

-- The four properties that are set on the endpoint's properties.
unfoldable pub announce_on : Site → CString → CString → Properties → Properties
announce_on c url fw p =
    set (set (set (set p config_key config_value) secure_key secure_value) url_key url)
      c.framework_uuid_key fw

-- The tracker of the endpoint's receive services.
unfoldable pub track : Site → Endpoint → Admin → Status × Admin
track c e a =
    if is_success c.create_tracker
    then (
      c.open_tracker,
      if is_success c.open_tracker
          then record a { trackers = insert c.same_endpoint e c.tracker a.trackers }
          else a,
    )
    else (c.create_tracker, a)

-- After the creation: without an endpoint its status is all there is.
unfoldable pub finish :
    Site → CString → Admin → Status × Option Endpoint → Status × Option Endpoint × Admin
finish c fw a (status, none) = (status, none, a)
finish c fw a (status, some d) =
    let e : Endpoint = record d { properties = announce_on c a.url fw d.properties } in
    if is_success status
    then (let (tracked, a') = track c e a in (tracked, some e, a'))
    else (status, some e, a)

unfoldable pub export_ready : Site → Admin → Option (Status × Option Endpoint × Admin)
export_ready c a =
    if is_success c.framework_uuid.0
    then (do
      created ← create c.block c.uuid true none (some [])
      fw ← c.framework_uuid.1
      some (finish c fw a created))
    else some (c.framework_uuid.0, none, a)

-- wiringAdmin_exportWiringEndpoint, called with a null endpoint: the status, what is left in the
-- endpoint variable, and the admin. A framework uuid that is NULL is a null pointer that is read.
unfoldable pub export_endpoint : Site → Admin → Option (Status × Option Endpoint × Admin)
export_endpoint c a = do a' ← ready c a; export_ready c a'

abbrev pub is_there : Option ℕ → Bool
is_there none = false
is_there (some t) = true

-- wiringAdmin_removeExportedWiringEndpoint: the server is stopped with the last tracker.
unfoldable pub remove_export : Site → Option Endpoint → Admin → Status × Admin
remove_export c none a = (illegal_argument, a)
remove_export c (some e) a =
    let left = remove c.same_endpoint e a.trackers in
    let stops = is_there (lookup c.same_endpoint e a.trackers) in
    (
      success,
      record a {
        trackers = left;
        runs = if stops then (if no_trackers left then false else a.runs) else a.runs;
      },
    )
