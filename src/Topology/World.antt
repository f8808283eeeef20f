-- ===== src/Topology/World.antt =====
-- struct wiring_topology_manager, the wiring admins and listeners outside it, and the monad of the
-- operations: they act on the manager, call the outside, and may fault on a null pointer.
use node_wiring_secure.Base.{ℕ, Bool, CString, List, [], ◌∷◌, ◌++◌, Option, some, any, ◌==◌}
pub use node_wiring_secure.Base.Action.{◌>>=◌, ◌>>◌, pure, fault, deref, bind_at}
use node_wiring_secure.Base.Action.{Action}
use node_wiring_secure.Celix.{Properties, Status}
use node_wiring_secure.Celix.HashMap.{Map}
use node_wiring_secure.Endpoint.{Endpoint}
use node_wiring_secure.Listener.{Framework, Listeners}

-- A wiring_admin_service_pt, by its address.
abbrev pub Admin : Type 0
Admin = ℕ

-- arrayList_contains
abbrev pub contains : List Admin → Admin → Bool
contains admins a = any (λ x. x == a) admins

pub record Manager : Type 0 where
  pub wa_list : List Admin
  pub listener_list : Listeners
  pub exported : Map Properties (Map Admin Endpoint)
  pub imported : Map Endpoint (List Admin)
  pub waiting_for_export : List Properties
  pub waiting_for_import : List Properties

-- The calls that the manager makes, and the arguments that it gives.
pub data Call : Type 0 where
  asks_properties exports : Admin → Call
  imports removes_export removes_import : Admin → Endpoint → Call
  gets_service : ℕ → Call
  tells_added tells_removed : ℕ → Endpoint → Option CString → Call

abbrev pub History : Type 0
History = List Call

-- What is outside. Each answer may depend on all calls so far.
pub record Outside : Type 0 where
  pub framework : Framework
  -- getWiringAdminProperties, `none` where it leaves NULL
  pub admin_properties : History → Admin → Option Properties
  -- exportWiringEndpoint: the status, and what it leaves in the endpoint variable
  pub export_endpoint : History → Admin → Status × Option Endpoint
  pub import_endpoint : History → Admin → Endpoint → Status
  pub remove_export : History → Admin → Endpoint → Status
  pub remove_import : History → Admin → Endpoint → Status
  -- bundleContext_getService of a listener
  pub get_service : History → ℕ → Status
  -- what a listener answers to wiringEndpointAdded
  pub told : History → ℕ → Endpoint → Status
  -- whether a hash map over wiringEndpointDescription_hash and _equals takes two keys for one
  pub same_endpoint : Endpoint → Endpoint → Bool
  -- utils_stringHash
  pub string_hash : CString → ℕ
  -- the keys OSGI_RSA_ENDPOINT_FRAMEWORK_UUID, OSGI_FRAMEWORK_SERVICE_ID, OSGI_FRAMEWORK_OBJECTCLASS
  pub framework_uuid_key : CString
  pub service_id_key : CString
  pub object_class_key : CString

pub record World : Type 0 where
  pub manager : Manager
  pub history : History

abbrev pub M {ℓ} : Type ℓ → Type ℓ
M A = Action World A

abbrev pub gets {ℓ} : {A : Type ℓ} → (Manager → A) → M A
gets f w = some (f w.manager, w)

abbrev pub modify : (Manager → Manager) → M (Unit {0})
modify f w = some (tt, record w { manager = f w.manager })

-- A call of the outside, and its answer.
abbrev pub call {ℓ} : {A : Type ℓ} → Call → (History → A) → M A
call c answer w = some (answer w.history, record w { history = w.history ++ (c ∷ []) })

-- wiringTopologyManager_create, where the memory is there: everything is empty.
unfoldable pub create : Manager
create = record {
  wa_list = [];
  listener_list = [];
  exported = [];
  imported = [];
  waiting_for_export = [];
  waiting_for_import = [];
}
