-- ===== src/Call/Tests.antt =====
-- A remote call of a service that answers with its request.
use mathlib.Core.Option.{some-injective}
use node_wiring_secure.Base.{CString, codes, same_text, [], ◌∷◌, some, ◌≡◌, refl, ap, arith, length}
use node_wiring_secure.Celix.{success, is_success}
use node_wiring_secure.Celix.HashMap.{lookup}
use node_wiring_secure.Celix.Numbers.{sign_extend}
use node_wiring_secure.Endpoint.{Endpoint, get}
use node_wiring_secure.RemoteServiceAdmin.Exporting.{export_call}
use node_wiring_secure.RemoteServiceAdmin.World.{World, Outside, calls_service, create}
use node_wiring_secure.RemoteServiceAdmin.Requests.{
  last_with, first_with, send, receive, call_found, requested_service,
}
use node_wiring_secure.RemoteServiceAdmin.Tests.{
  quiet, calculator, exported_at, with_send, with_exports, send_a, wired_a, there_a, toy-Unpacks,
  found_3,
}
use node_wiring_secure.WiringAdmin.{Receiver, pick, reply, callback}
use node_wiring_secure.WiringAdmin.Exports.{url_key}
use node_wiring_secure.WiringAdmin.Sending
use node_wiring_secure.Call.{SendsOver, packed, status_of, send-served}

abbrev calling : Outside CString
calling = record quiet { send = λ h s text. (success, some (codes "q"), 0) }

abbrev receiver : Receiver
receiver = record { address = 1; wire = codes "a" }

abbrev carry : Sending.Curl
carry paths url request = record { res = 0; http_code = 200; parts = codes "q" ∷ [] }

abbrev linked : Endpoint
linked = record { address = 4; properties = (url_key, codes "https://h") ∷ [] }

linked_url : get linked.properties url_key ≡ some (codes "https://h")
unfolding get lookup same_text url_key
linked_url = refl

abbrev some_paths : Sending.Paths
some_paths = (codes "c", codes "k", codes "a")

calling-SendsOver :
    SendsOver calling send_a some_paths carry linked (packed calling calculator (codes "q"))
unfolding Sending.send Sending.take_outcome Sending.trusted_paths Sending.reply_memory
    Sending.write_all is_success
calling-SendsOver h a ran = ap (λ x. (x.0, x.1, status_of x.2)) (some-injective _ _ ran)

abbrev called_world : World
called_world = record with_exports { history = calls_service 2 (some 50) (some (codes "q")) ∷ [] }

called :
    call_found quiet (some (codes "q")) (some (exported_at 2 [])) with_exports
    ≡ some ((success, some (codes "q")), called_world)
unfolding call_found export_call create
called = refl

send-served_example :
    (w' : World) × (send calling calculator (codes "q") with_send
      ≡ some ((success, some (codes "q"), 0), w'))
unfolding callback reply is_success same_text pick Sending.write_all receive last_with first_with
    create requested_service call_found sign_extend export_call
send-served_example =
    send-served calling quiet calculator (codes "a") (codes "q") (codes "q") send_a with_send
      with_exports called_world ((codes "a", receiver ∷ []) ∷ []) receiver carry some_paths linked
      (codes "https://h") (codes "/") (exported_at 2 []) 113 [] refl toy-Unpacks wired_a there_a
      (omega arith) refl found_3 called refl linked_url
      (refl, refl, refl, ((λ h. omega (arith, ap length h)), tt)) calling-SendsOver
