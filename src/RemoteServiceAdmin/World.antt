-- ===== src/RemoteServiceAdmin/World.antt =====
-- struct remote_service_admin, the wiring topology managers, listeners and send services outside it,
-- and the monad of the operations: they act on the admin, call the outside, and may fault.
pub use node_wiring_secure.Base.Action.{◌>>=◌, ◌>>◌, pure, deref, bind_at, Returns, bind-Returns}
use node_wiring_secure.Base.Action.{Action}
use node_wiring_secure.Base.{
  ℕ, Bool, false, CString, List, [], ◌∷◌, ◌++◌, Option, none, some, ◌==◌, ◌&&◌,
}
use node_wiring_secure.Celix.{Properties, Status}
use node_wiring_secure.Celix.HashMap.{Map}
use node_wiring_secure.Listener.{Framework, Listeners}
use node_wiring_secure.RemoteServiceAdmin.Description.{
  Description, Keys, description_hash, description_equals,
}
use node_wiring_secure.RemoteServiceAdmin.Exporting.{Export, Creation}
use node_wiring_secure.RemoteServiceAdmin.Importing.{Import}

-- A wiring_send_service_pt, by its address, and its count of errors, an unsigned int.
pub record SendService : Type 0 where
  pub address : ℕ
  pub error_count : ℕ

-- struct remote_service_admin, and from the activator the registration of its service. The map of
-- receive services has the wire id that each has.
pub record Admin : Type 0 where
  pub exported_services : Map ℕ (List Export)
  pub imported_services : Map Description (Option Import)
  pub receive_services : Map CString CString
  pub receive_registrations : Map CString ℕ
  pub exported_wires : List (Option CString)
  pub send_services : Map CString SendService
  pub listener_list : Listeners
  pub wtm_list : List ℕ
  pub registration : Option ℕ

-- The calls that the admin makes, and the arguments that it gives.
pub data Call : Type 0 where
  gets_service ungets_reference unregisters : ℕ → Call
  tells_added : ℕ → Description → Option CString → Call
  registers_receive : CString → Call
  registers_factory : CString → Call
  registers_admin sleeps allocates : Call
  creates_export : ℕ → Call
  wtm_exports wtm_imports : ℕ → Properties → Call
  sends : ℕ → Option CString → Call
  calls_service : ℕ → Option ℕ → Option CString → Call

abbrev pub History : Type 0
History = List Call

-- jansson: a text to a value and back; the request object {"service.id": int, "request": value}, made
-- and taken apart, with an int by its 32 bits and what is not there left out.
pub record Jansson (Json : Type 0) : Type 0 where
  pub loads : CString → Option Json
  pub dumps : Json → CString
  pub pack : ℕ → Json → Json
  pub unpack : Json → Option ℕ × Option Json

-- What is outside. Each answer may depend on all calls so far.
pub record Outside (Json : Type 0) : Type 0 where
  pub framework : Framework
  pub keys : Keys
  pub json : Jansson Json
  -- utils_stringHash
  pub string_hash : CString → ℕ
  -- bundleContext_getProperty of the framework's uuid
  pub own_uuid : Status × Option CString
  -- bundleContext_getServiceReferences by a filter, `none` where it leaves NULL
  pub references : CString → Option (List ℕ)
  pub property_keys : ℕ → List CString
  pub property_status : ℕ → CString → Status
  -- the service that a tracker finds for a reference
  pub registered : ℕ → Option ℕ
  -- uuid_generate
  pub new_uuid : History → CString
  pub creation : History → ℕ → Creation
  -- whether the memory of an import registration is there
  pub import_memory : History → Bool
  -- the address of new memory
  pub new_address : History → ℕ
  -- the status of a registration, and the registration
  pub register : History → Status × ℕ
  pub unregister : History → ℕ → Status
  -- bundleContext_getService
  pub get_service : History → ℕ → Status
  -- what a listener answers to endpointAdded
  pub told : History → ℕ → Description → Status
  -- the send function of a send service: its status, the reply and the reply's status
  pub send : History → ℕ → CString → Status × Option CString × ℕ
  -- jsonRpc_call with the interface of a registration: `none` is a fault
  pub json_rpc : History → ℕ → Option ℕ → Option CString → Option (Status × Option CString)

pub record World : Type 0 where
  pub admin : Admin
  pub history : History

abbrev pub M {ℓ} : Type ℓ → Type ℓ
M A = Action World A

abbrev pub gets {ℓ} : {A : Type ℓ} → (Admin → A) → M A
gets f w = some (f w.admin, w)

abbrev pub modify : (Admin → Admin) → M (Unit {0})
modify f w = some (tt, record w { admin = f w.admin })

-- A call of the outside, and its answer.
abbrev pub call {ℓ} : {A : Type ℓ} → Call → (History → A) → M A
call c answer w = some (answer w.history, record w { history = w.history ++ (c ∷ []) })

-- A call without an answer.
abbrev pub calls : Call → M (Unit {0})
calls c = call c (λ h. tt)

abbrev pub done : M (Unit {0})
done = pure tt

-- A step whose status is not asked for.
abbrev pub ignore : M Status → M (Unit {0})
ignore m = m >>= λ status. done

-- remoteServiceAdmin_create: everything is empty.
unfoldable pub create : Admin
create = record {
  exported_services = [];
  imported_services = [];
  receive_services = [];
  receive_registrations = [];
  exported_wires = [];
  send_services = [];
  listener_list = [];
  wtm_list = [];
  registration = none;
}

abbrev both : Option ℕ → Option ℕ → Option Bool → Bool
both (some a) (some b) (some same) = a == b && same
both _ _ _ = false

-- The key test of the map of imported services: the hash, and then the comparison.
unfoldable pub same_key : (CString → ℕ) → Description → Description → Bool
same_key h c d = both (description_hash h c) (description_hash h d) (description_equals c d)
