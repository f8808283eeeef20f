-- ===== src/RemoteServiceAdmin/Importing.antt =====
-- remote_service_admin/private/src/import_registration_dfi.c: the registration of an imported service,
-- and the proxies that it makes for the bundles that use it.
pub mod Usage
pub mod Leftovers
use node_wiring_secure.Base.{
  ℕ, ◌+◌, ◌%◌, ◌^◌, ◌-◌, Bool, true, false, CString, codes, ◌++◌, List, [], ◌∷◌, Option, none, some,
  ◌==◌, ◌>>=◌, ◌>>◌, take, if◌then◌else◌, not,
}
use node_wiring_secure.Celix.{
  Status, success, enomem, illegal_argument, illegal_state, bundle_exception, is_success,
}
use node_wiring_secure.Celix.HashMap.{Map, lookup, insert, remove}
use node_wiring_secure.Listener.{is_none}
use node_wiring_secure.RemoteServiceAdmin.Description.{Description}

-- struct service_proxy: the address of its service, the count of its users, a size_t, and whether it
-- has been freed.
pub record Proxy : Type 0 where
  pub service : ℕ
  pub count : ℕ
  pub is_freed : Bool

-- struct import_registration: whether it has a send function, its factory's registration, and its
-- proxies by the bundles.
pub record Import : Type 0 where
  pub endpoint : Description
  pub class_object : CString
  pub has_send : Bool
  pub factory_reg : Option ℕ
  pub proxies : Map ℕ Proxy

-- importRegistration_create, by what the two allocations answer together
unfoldable pub import_create : Bool → Description → CString → Status × Option Import
import_create false endpoint class = (enomem, none)
import_create true endpoint class = (
  success,
  some (record {
    endpoint = endpoint;
    class_object = class;
    has_send = false;
    factory_reg = none;
    proxies = [];
  }),
)

-- importRegistration_setSendFn
unfoldable pub set_send_fn : Import → Import
set_send_fn i = record i { has_send = true }

-- importRegistration_start, by what bundleContext_registerServiceFactory answers. A registration that
-- it has made already is an error.
unfoldable pub import_start : Status × ℕ → Import → Status × Import
import_start (status, registration) i =
    if is_none i.factory_reg
    then (status, if is_success status then record i { factory_reg = some registration } else i)
    else (illegal_state, i)

-- importRegistration_destroyProxy: memory that is freed twice is a fault.
unfoldable pub destroy_proxy : Proxy → Option Proxy
destroy_proxy p = if p.is_freed then none else some (record p { is_freed = true })

-- importRegistration_clearProxies: the proxies are destroyed, and stay in the map.
unfoldable pub clear_proxies : Map ℕ Proxy → Option (Map ℕ Proxy)
clear_proxies [] = some []
clear_proxies ((b, p) ∷ m) = do
  freed ← destroy_proxy p
  rest ← clear_proxies m
  some ((b, freed) ∷ rest)

-- importRegistration_stop, and importRegistration_close, which calls it, where no bundle uses the factory's
-- service any more: to unregister it, Celix may first call ungetService for those that do.
unfoldable pub import_stop : Import → Option Import
import_stop i = do
  cleared ← clear_proxies i.proxies
  some (record i { factory_reg = none; proxies = cleared })

-- importRegistration_destroy
unfoldable pub import_destroy : Import → Option (Unit {0})
import_destroy i = do clear_proxies i.proxies; some tt

-- What Celix, the files and dyn_interface answer while a proxy is made.
pub record Making : Type 0 where
  pub entry : CString → Status × Option CString
  pub memory : Bool
  pub opens : CString → Bool
  -- dynInterface_parse: the methods, if it returns 0, each by whether dynFunction_createClosure does
  pub parses : CString → Option (List Bool)
  -- calloc of the service for so many methods
  pub service : ℕ → Option ℕ

abbrev pub all_closed : List Bool → Bool
all_closed [] = true
all_closed (rc ∷ rest) = if rc then all_closed rest else false

abbrev pub size : List Bool → ℕ
size [] = 0
size (rc ∷ rest) = size rest + 1

-- The service with its closures.
unfoldable pub fill : Making → List Bool → Status × Option ℕ
fill a methods = elim (a.service (1 + size methods)) [
  | none ↦ (enomem, none)
  | some service ↦ if all_closed methods then (success, some service) else (bundle_exception, none)
]

-- A descriptor that cannot be opened leaves the interface NULL, which is read then: a fault.
unfoldable pub make_from : Making → CString → Option (Status × Option ℕ)
make_from a file =
    if a.opens file
    then some
        (elim (a.parses file) [ none ↦ (bundle_exception, none) | some methods ↦ fill a methods ])
    else none

unfoldable pub make_found : Making → Status × Option CString → Option (Status × Option ℕ)
make_found a (status, none) = some (illegal_argument, none)
make_found a (status, some file) =
    if is_success status
    then if a.memory then make_from a file else some (enomem, none)
    else some (status, none)

-- importRegistration_createProxy: the service of the new proxy, after a success
unfoldable pub create_proxy : Making → CString → Option (Status × Option ℕ)
create_proxy a class = make_found a (a.entry (take 127 (class ++ codes ".descriptor")))

abbrev pub new_proxy : ℕ → Proxy
new_proxy service = record { service = service; count = 1; is_freed = false }

-- importRegistration_getService where the bundle has no proxy yet
unfoldable pub get_new : Making → ℕ → Import → Option (Status × Option ℕ × Import)
get_new a bundle i = do
  (status, made) ← create_proxy a i.class_object
  some (
    status,
    made,
    elim made [
      | none ↦ i
      | some service ↦ record i {
        proxies = insert (λ x y. x == y) bundle (new_proxy service) i.proxies;
      }
    ],
  )

-- importRegistration_getService: the status, the service, and the registration after it. A proxy that
-- has been freed is a fault.
unfoldable pub get_service : Making → ℕ → Import → Option (Status × Option ℕ × Import)
unfolding get_new
get_service a bundle i = elim (lookup (λ x y. x == y) bundle i.proxies) [
  | none ↦ get_new a bundle i
  | some p ↦
      if p.is_freed
      then none
      else some (
        success,
        some p.service,
        record i {
          proxies =
              insert (λ x y. x == y) bundle (record p { count = (p.count + 1) % 2 ^ 64 }) i.proxies;
        },
      )
]

-- The count of users is written back, or the proxy leaves the map.
unfoldable pub keep_or_drop : ℕ → Proxy → ℕ → Import → Import
keep_or_drop bundle p count i =
    if count == 0
    then record i { proxies = remove (λ x y. x == y) bundle i.proxies }
    else record i { proxies = insert (λ x y. x == y) bundle (record p { count = count }) i.proxies }

unfoldable pub unget_found : ℕ → ℕ → Proxy → Import → Option (Status × Import)
unfolding keep_or_drop
unget_found bundle service p i =
    if p.is_freed
    then none
    else if service == p.service
    then some (success, keep_or_drop bundle p ((p.count + (2 ^ 64 - 1)) % 2 ^ 64) i)
    else some (illegal_argument, keep_or_drop bundle p p.count i)

-- importRegistration_ungetService
unfoldable pub unget_service : ℕ → ℕ → Import → Option (Status × Import)
unfolding unget_found
unget_service bundle service i = elim (lookup (λ x y. x == y) bundle i.proxies) [
  | none ↦ some (success, i)
  | some p ↦ unget_found bundle service p i
]

-- What the call of a proxy does: what jsonRpc_prepareInvokeRequest answers, what the send function
-- leaves in the reply and in the return code, and what jsonRpc_handleReply answers.
pub record Rpc : Type 0 where
  pub prepares : Status × CString
  pub handles : Option CString → Status

-- importRegistration_proxyFunc: what it leaves in the return value, if anything, and its status. The
-- send function's own status is not asked for.
unfoldable pub proxy_func : Rpc → (CString → Option CString × ℕ) → Option Import → Option ℕ × Status
proxy_func r send none = (none, illegal_argument)
proxy_func r send (some i) =
    if not i.has_send
    then (none, illegal_argument)
    else if not (is_success r.prepares.0)
    then (none, r.prepares.0)
    else let (reply, rc) = send r.prepares.1 in
      (some rc, if rc == 0 then r.handles reply else success)
