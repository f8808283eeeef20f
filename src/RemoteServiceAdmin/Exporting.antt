-- ===== src/RemoteServiceAdmin/Exporting.antt =====
-- remote_service_admin/private/src/export_registration_dfi.c: the registration of an exported service.
use node_wiring_secure.Base.{
  ℕ, Bool, true, false, CString, codes, ◌++◌, List, [], ◌∷◌, Option, none, some, ◌==◌, take,
  if◌then◌else◌,
}
use node_wiring_secure.Celix.{
  Status, success, enomem, illegal_argument, bundle_exception, is_success,
}
use node_wiring_secure.Celix.HashMap.{Map}
use node_wiring_secure.Listener.{is_none}
use node_wiring_secure.RemoteServiceAdmin.Description.{Description}

-- struct export_registration, by its address: the endpoint and the service reference of its export
-- reference, whether its service tracker is open, and the service that the tracker has found.
pub record Export : Type 0 where
  pub address : ℕ
  pub reference : ℕ
  pub endpoint : Description
  pub is_tracking : Bool
  pub service : Option ℕ

-- What Celix, the files and dyn_interface answer while a registration is created.
pub record Creation : Type 0 where
  pub service_id : Status × Option CString
  pub memory : Option ℕ
  pub exported_interfaces : Status × Option CString
  pub bundle : Status
  -- bundle_getEntry, by the name of the descriptor: what is found there, if anything
  pub entry : CString → Status × Option CString
  -- fopen
  pub opens : CString → Bool
  -- whether dynInterface_parse returns 0
  pub parses : CString → Bool
  pub customizer : Status
  -- serviceTracker_createWithFilter
  pub tracker : CString → Status

-- A step that is left out after a failure, as CELIX_DO_IF does.
abbrev do_if : Status → Status → Status
do_if before next = if is_success before then next else before

-- "%s.descriptor" in 128 bytes; the C library prints NULL as "(null)".
unfoldable pub descriptor_name : Option CString → CString
descriptor_name none = codes "(null).descriptor"
descriptor_name (some exports) = take 127 (exports ++ codes ".descriptor")

-- "(service.id=%s)" in 32 bytes
unfoldable pub id_filter : Option CString → CString
id_filter none = codes "(service.id=(null))"
id_filter (some id) = take 31 (codes "(service.id=" ++ (id ++ codes ")"))

read_descriptor : Creation → CString → Status
read_descriptor c file =
    if c.opens file then if c.parses file then success else bundle_exception else bundle_exception

-- The status once the service id, the memory, the interfaces and the bundle have been asked for.
unfoldable bundle_found : Creation → Status
bundle_found c =
    let memory = do_if c.service_id.0 (if is_none c.memory then enomem else success) in
    do_if (do_if memory c.exported_interfaces.0) c.bundle

-- The descriptor: where none is found, that is the error, whatever failed before.
unfoldable described_by : Creation → Option CString → Status → Status
unfolding read_descriptor
described_by c none before = illegal_argument
described_by c (some file) before = do_if before (read_descriptor c file)

entry_of : Creation → Status × Option CString
unfolding bundle_found
entry_of c =
    if is_success (bundle_found c)
    then c.entry (descriptor_name c.exported_interfaces.1)
    else (bundle_found c, none)

unfoldable pub creation_status : Creation → Status
unfolding entry_of described_by id_filter descriptor_name
creation_status c =
    let (status, file) = entry_of c in
    let described = described_by c file status in
    do_if (do_if described c.customizer) (c.tracker (id_filter c.service_id.1))

-- exportRegistration_create: the registration is there exactly after a success.
unfoldable pub export_create : Creation → ℕ → Description → Status × Option Export
export_create c reference endpoint =
    if is_success (creation_status c)
    then (
      creation_status c,
      elim c.memory [
        | none ↦ none
        | some a ↦ some (record {
          address = a;
          reference = reference;
          endpoint = endpoint;
          is_tracking = false;
          service = none;
        })
      ],
    )
    else (creation_status c, none)

-- exportRegistration_addServ
unfoldable pub add_serv : ℕ → Export → Export
add_serv service e = record e { service = some service }

unfoldable pub is_service : ℕ → Option ℕ → Bool
is_service s none = false
is_service s (some t) = t == s

-- exportRegistration_removeServ: the service leaves if it is the current one.
unfoldable pub remove_serv : ℕ → Export → Export
unfolding is_service
remove_serv service e = if is_service service e.service then record e { service = none } else e

-- exportRegistration_start: the tracker is opened, and finds the service of the reference if Celix has
-- it.
unfoldable pub export_start : (ℕ → Option ℕ) → Export → Export
export_start registered e =
    let opened = record e { is_tracking = true } in
    elim (registered e.reference) [ none ↦ opened | some service ↦ add_serv service opened ]

-- exportRegistration_stop, and exportRegistration_close, which calls it: an open tracker is closed,
-- and lets its service go.
unfoldable pub export_stop : Export → Export
unfolding remove_serv
export_stop e =
    if e.is_tracking
    then elim e.service [
      | none ↦ record e { is_tracking = false }
      | some service ↦ remove_serv service (record e { is_tracking = false })
    ]
    else e

-- exportRegistration_call, over jsonRpc_call, which may fault: on a service that is NULL, too.
unfoldable pub export_call :
    (ℕ → Option ℕ → Option CString → Option (Status × Option CString))
    → Export
    → Option CString
    → Option (Status × Option CString)
export_call json_rpc e request = json_rpc e.address e.service request

-- The registrations of all exported services, in the order of the map.
abbrev pub all_exports : Map ℕ (List Export) → List Export
all_exports [] = []
all_exports ((r, es) ∷ m) = es ++ all_exports m
