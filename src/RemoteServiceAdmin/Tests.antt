-- ===== src/RemoteServiceAdmin/Tests.antt =====
-- Tests and witnesses for the remote service admin.
use mathlib.Core.List.{Memᴰ}
use node_wiring_secure.Base.{
  ℕ, true, false, CString, codes, same_text, List, [], ◌∷◌, ◌++◌, Option, none, some, ◌==◌, ◌≡◌,
  ◌↔◌, ◌⊎◌, refl, arith, All, any,
}
use node_wiring_secure.Celix.{Properties, success, illegal_argument, is_success}
use node_wiring_secure.Celix.HashMap.{lookup}
use node_wiring_secure.Endpoint.{Endpoint, get, wire_id, wire_id_key, strcmp_eq}
use node_wiring_secure.Celix.Numbers.{
  strtoull, atol, read_any, sign, skip_spaces, is_space, read_digits, digit, is_hex,
}
use node_wiring_secure.RemoteServiceAdmin.Description.{Description, Keys}
use node_wiring_secure.RemoteServiceAdmin.Exporting.{Export, Creation, all_exports}
use node_wiring_secure.RemoteServiceAdmin.Importing.{Import, Making}
use node_wiring_secure.RemoteServiceAdmin.Importing.Usage.{Use, gets_it, gives_back}
use node_wiring_secure.RemoteServiceAdmin.World.{
  World, Outside, Jansson, SendService, create, same_key, sends,
}
use node_wiring_secure.RemoteServiceAdmin.Wires.{requested_key, is_own_wire, add_wiring_endpoint}
use node_wiring_secure.RemoteServiceAdmin.Removing.{remove_wiring_endpoint}
use node_wiring_secure.RemoteServiceAdmin.Removing.Faults.{is_unwired, remove_wiring_endpoint-fault}
use node_wiring_secure.RemoteServiceAdmin.Services.{import_service, remove_exported_service}
use node_wiring_secure.RemoteServiceAdmin.Services.Kept.{closed, remove_exported_service-kept}
use node_wiring_secure.RemoteServiceAdmin.Services.Served.{
  fresh_import, served_import, requested, import_service-Served,
}
use node_wiring_secure.RemoteServiceAdmin.Requests.{
  Answer, last_with, first_with, send, receive, call_found,
}
use node_wiring_secure.RemoteServiceAdmin.Requests.Errors.{send_all, Settles, send_all-Settles}
use node_wiring_secure.RemoteServiceAdmin.Requests.Calls.{Unpacks, Differs, receive-send}

-- Numbers as the C library reads them: an octal, a hexadecimal, and a decimal text.
numbers_test :
    (strtoull (codes "010") ≡ 8) × (strtoull (codes " 0x1F") ≡ 31) × (atol (codes "010x") ≡ 10)
unfolding strtoull read_any sign skip_spaces is_space read_digits digit is_hex atol
numbers_test = (refl, refl, refl)

abbrev some_keys : Keys
some_keys = record {
  endpoint_service_id = codes "endpoint.service.id";
  endpoint_framework_uuid = codes "endpoint.framework.uuid";
  endpoint_id = codes "endpoint.id";
  object_class = codes "objectClass";
  service_id = codes "service.id";
  exported_interfaces = codes "service.exported.interfaces";
  imported = codes "service.imported";
  imported_configs = codes "service.imported.configs";
  listener_scope = codes "endpoint.listener.scope";
}

-- A stand-in for jansson: a value is its text, and a request is the id before the text.
abbrev split : CString → Option ℕ × Option CString
split [] = (none, none)
split (n ∷ v) = (some n, some v)

abbrev pub toy_json : Jansson CString
toy_json = record { loads = λ s. some s; dumps = λ v. v; pack = λ n v. n ∷ v; unpack = split }

abbrev no_creation : Creation
no_creation = record {
  service_id = (illegal_argument, none);
  memory = none;
  exported_interfaces = (success, none);
  bundle = success;
  entry = λ name. (success, none);
  opens = λ file. false;
  parses = λ file. false;
  customizer = success;
  tracker = λ filter. success;
}

-- A framework without services, over whose wires every send fails.
abbrev pub quiet : Outside CString
quiet = record {
  framework = record { property = λ r key. none; matches = λ scope p. false };
  keys = some_keys;
  json = toy_json;
  string_hash = λ s. 0;
  own_uuid = (success, some (codes "here"));
  references = λ filter. none;
  property_keys = λ r. [];
  property_status = λ r key. success;
  registered = λ r. none;
  new_uuid = λ h. codes "uuid";
  creation = λ h r. no_creation;
  import_memory = λ h. true;
  new_address = λ h. 99;
  register = λ h. (success, 7);
  unregister = λ h r. success;
  get_service = λ h r. success;
  told = λ h r d. success;
  send = λ h s text. (illegal_argument, none, 0);
  json_rpc = λ h e s request. some (success, request);
}

abbrev described_as : ℕ → Properties → Description
described_as id p = record {
  framework_uuid = some (codes "there");
  id = some (codes "e1");
  service = some (codes "calculator");
  properties = p;
  service_id = id;
}

abbrev pub on_wire_a : Properties
on_wire_a = (wire_id_key, codes "a") ∷ (codes "objectClass", codes "calculator") ∷ []

abbrev pub calculator : Description
calculator = described_as 3 on_wire_a

abbrev pub exported_at : ℕ → Properties → Export
exported_at a p = record {
  address = a;
  reference = 10;
  endpoint = described_as 3 p;
  is_tracking = true;
  service = some 50;
}

abbrev pub with_send : World
with_send = record {
  admin = record create {
    send_services = (codes "a", record { address = 5; error_count = 4 }) ∷ [];
  };
  history = [];
}

abbrev pub with_exports : World
with_exports = record {
  admin = record create {
    exported_services = (10, exported_at 1 on_wire_a ∷ []) ∷ (11, exported_at 2 [] ∷ []) ∷ [];
  };
  history = [];
}

abbrev with_manager : World
with_manager = record { admin = record create { wtm_list = 20 ∷ [] }; history = [] }

-- A bundle's making of a proxy that meets no failure.
abbrev making : Making
making = record {
  entry = λ name. (success, some (codes "file"));
  memory = true;
  opens = λ file. true;
  parses = λ file. some (true ∷ []);
  service = λ n. some 30;
}

abbrev some_uses : List Use
some_uses = gets_it making 1 ∷ gets_it making 2 ∷ gives_back 1 ∷ []

abbrev new_import : Import
new_import = fresh_import calculator (codes "calculator")

abbrev failing_sends : List CString
failing_sends = codes "p" ∷ codes "q" ∷ []

abbrev pub send_a : SendService
send_a = record { address = 5; error_count = 4 }

pub wired_a : get calculator.properties wire_id_key ≡ some (codes "a")
unfolding get lookup same_text wire_id_key
wired_a = refl

pub there_a : lookup same_text (codes "a") with_send.admin.send_services ≡ some send_a
unfolding lookup same_text create
there_a = refl

send_all-Settles_example :
    (answers : List Answer) × (s' : SendService) × (w' : World) × (send_all quiet calculator
        (codes "a")
        wired_a
        failing_sends
        with_send
      ≡ some (answers, w'))
    × Settles quiet calculator (codes "a") wired_a send_a with_send answers s' w'
send_all-Settles_example =
    send_all-Settles quiet calculator (codes "a") wired_a failing_sends send_a with_send
      ((codes "p", refl), ((codes "q", refl), tt)) there_a (omega arith)

pub toy-Unpacks : Unpacks toy_json
toy-Unpacks n v = (n ∷ v, refl, refl)

receive-send_example :
    (text : CString) × ((a : Answer) × (w' : World) × (send quiet calculator (codes "q") with_send
        ≡ some (a, w'))
      × Memᴰ (sends 5 (some text)) w'.history)
    × ((All (Differs 3) (all_exports with_exports.admin.exported_services)
          × (receive quiet text with_exports ≡ some ((illegal_argument, none), with_exports)))
        ⊎ ((e : Export) × Memᴰ e (all_exports with_exports.admin.exported_services)
            × (3 ≡ e.endpoint.service_id)
            × (receive quiet text with_exports
                ≡ call_found quiet (some (codes "q")) (some e) with_exports)))
receive-send_example =
    receive-send quiet quiet calculator (codes "a") (codes "q") (codes "q") send_a with_send
      with_exports refl toy-Unpacks wired_a there_a (omega arith) refl

abbrev end_a : Endpoint
end_a = record { address = 0; properties = (wire_id_key, codes "a") ∷ [] }

end_a_wired : wire_id end_a ≡ some (codes "a")
unfolding wire_id get lookup same_text wire_id_key
end_a_wired = refl

remove_wiring_endpoint-fault_example :
    (remove_wiring_endpoint quiet end_a with_exports ≡ none)
    ↔ (any is_unwired (exported_at 1 on_wire_a ∷ exported_at 2 [] ∷ []) ≡ true)
unfolding create
remove_wiring_endpoint-fault_example =
    remove_wiring_endpoint-fault quiet end_a (codes "a") with_exports end_a_wired tt

fresh_99 : lookup (λ x y. x == y) 99 with_exports.admin.exported_services ≡ none
unfolding lookup create
fresh_99 = refl

pub found_3 : last_with 3 with_exports.admin.exported_services none ≡ some (exported_at 2 [])
unfolding create last_with first_with
found_3 = refl

remove_exported_service-kept_example :
    (w' : World) × (remove_exported_service quiet (exported_at 2 []) with_exports
      ≡ some (success, w'))
    × (w'.admin.exported_services ≡ closed quiet 2 with_exports.admin.exported_services)
    × ((e' : Export) × (last_with 3 w'.admin.exported_services none ≡ some e')
        × (e'.address ≡ 2)
        × (e'.service ≡ none))
remove_exported_service-kept_example =
    remove_exported_service-kept quiet (exported_at 2 []) 3 with_exports fresh_99 found_3 refl

abbrev arriving : Endpoint
arriving = record {
  address = 0;
  properties = (codes "endpoint.framework.uuid", codes "there") ∷ (requested_key, codes "e1") ∷ [];
}

is_foreign : is_own_wire quiet arriving ≡ some false
unfolding is_own_wire get lookup same_text strcmp_eq
is_foreign = refl

asks_e1 : get arriving.properties requested_key ≡ some (codes "e1")
unfolding get lookup same_text
asks_e1 = refl

classed : get calculator.properties (codes "objectClass") ≡ some (codes "calculator")
unfolding get lookup same_text wire_id_key
classed = refl

not_imported :
    lookup (same_key quiet.string_hash) calculator with_manager.admin.imported_services ≡ none
unfolding lookup create
not_imported = refl

own_known : is_success quiet.own_uuid.0 ≡ true
unfolding is_success
own_known = refl

import_service-Served_example :
    (import_service quiet calculator none with_manager
      ≡ some (
        (success, some (fresh_import calculator (codes "calculator"))),
        requested quiet calculator (codes "a") (codes "e1") (codes "calculator") with_manager,
      ))
    × ((w' : World) × (add_wiring_endpoint quiet arriving
            (requested quiet calculator (codes "a") (codes "e1") (codes "calculator") with_manager)
          ≡ some (success, w'))
        × (w'.admin.imported_services
            ≡ with_manager.admin.imported_services
              ++ ((calculator, some (served_import calculator (codes "calculator") 7)) ∷ [])))
unfolding create
import_service-Served_example =
    import_service-Served quiet calculator (codes "a") (codes "e1") (codes "calculator")
      (codes "calculator") none arriving 7 with_manager wired_a classed refl refl not_imported tt
      refl own_known is_foreign asks_e1 refl
