-- ===== src/RemoteServiceAdmin/Requests.antt =====
-- remote_service_admin_impl.c: requests are sent over wires and received from them, and send services
-- come and go.
pub mod Errors
pub mod Calls
use node_wiring_secure.Base.{
  ℕ, ◌+◌, ◌-◌, ◌^◌, ◌%◌, Bool, CString, same_text, List, [], ◌∷◌, Option, none, some, ◌==◌, ◌||◌,
  not, leb, if◌then◌else◌,
}
use node_wiring_secure.Celix.{Status, success, illegal_argument, is_success}
use node_wiring_secure.Celix.HashMap.{Map, lookup, insert, remove}
use node_wiring_secure.Endpoint.{Endpoint, get, wire_id, wire_id_key}
use node_wiring_secure.Listener.{is_none}
use node_wiring_secure.Celix.Numbers.{sign_extend}
use node_wiring_secure.RemoteServiceAdmin.Description.{Description}
use node_wiring_secure.RemoteServiceAdmin.Exporting.{Export, export_call}
use node_wiring_secure.RemoteServiceAdmin.World.{
  Outside, Jansson, SendService, M, ◌>>=◌, ◌>>◌, pure, deref, gets, modify, call, calls, sends,
  sleeps, calls_service,
}

-- What a send leaves: the status, the reply, and the reply's status.
abbrev pub Answer : Type 0
Answer = Status × Option CString × ℕ

-- The send has failed: an error, or no reply.
abbrev pub is_failed : Answer → Bool
is_failed (status, reply, rc) = not (is_success status) || is_none reply

-- The errors of a send service after an answer, as an unsigned int.
abbrev pub errors_after : Answer → ℕ → ℕ
errors_after a n = if is_failed a then (n + 1) % 2 ^ 32 else n

-- The caller's reply and its status before a send.
abbrev pub unanswered : Status → Answer
unanswered status = (status, none, 0)

-- What is sent: the request as it is read, with the service id as an int. A request that is no JSON
-- gives no object, and no text: the send function takes its length, which is a fault.
unfoldable pub request_text : {Json : Type 0} → Jansson Json → ℕ → CString → Option CString
request_text j service request = elim (j.loads request) [
  | none ↦ none
  | some value ↦ some (j.dumps (j.pack (service % 2 ^ 32) value))
]

-- The last registration that is found: of each service the first that has the service id.
unfoldable pub first_with : ℕ → List Export → Option Export
first_with id [] = none
first_with id (e ∷ es) = if id == e.endpoint.service_id then some e else first_with id es

unfoldable pub last_with : ℕ → Map ℕ (List Export) → Option Export → Option Export
last_with id [] found = found
last_with id ((r, es) ∷ m) found = elim (first_with id es) [
  | none ↦ last_with id m found
  | some e ↦ last_with id m (some e)
]

-- The service id of a request: -1 where json_unpack does not find one.
unfoldable pub requested_service : Option ℕ → ℕ
requested_service none = 2 ^ 64 - 1
requested_service (some n) = sign_extend n

module _ {Json : Type 0} (o : Outside Json) where
  -- The error count is stored, and five errors are slept off.
  unfoldable pub note_errors : CString → SendService → ℕ → M (Unit {0})
  note_errors w s n =
      if leb 5 n
      then (do
        calls sleeps
        modify (λ a. record a {
          send_services = insert same_text w (record s { error_count = 0 }) a.send_services;
        }))
      else modify (λ a. record a {
        send_services = insert same_text w (record s { error_count = n }) a.send_services;
      })

  unfoldable pub send_over : CString → ℕ → CString → Option SendService → M Answer
  send_over w service request none = pure (unanswered illegal_argument)
  send_over w service request (some s) = do
    text ← deref (request_text o.json service request)
    answer ← call (sends s.address (some text)) (λ h. o.send h s.address text)
    note_errors w s (errors_after answer s.error_count)
    pure answer

  -- remoteServiceAdmin_send
  unfoldable pub send : Description → CString → M Answer
  send d request = elim (get d.properties wire_id_key) [
    | none ↦ pure (unanswered illegal_argument)
    | some w ↦ do
      s ← gets (λ a. lookup same_text w a.send_services)
      send_over w d.service_id request s
  ]

  unfoldable pub call_found : Option CString → Option Export → M (Status × Option CString)
  call_found request none = pure (illegal_argument, none)
  call_found request (some e) = do
    answer ←
        call (calls_service e.address e.service request) (λ h. export_call (o.json_rpc h) e request)
    deref answer

  -- remoteServiceAdmin_receive: the status and the response. The registration with the service id is
  -- called; the loop goes on to the other services after it has found one.
  unfoldable pub receive : CString → M (Status × Option CString)
  receive text = elim (o.json.loads text) [
    | none ↦ pure (illegal_argument, none)
    | some root ↦ do
      exported ← gets (λ a. a.exported_services)
      let (id, value) = o.json.unpack root
      call_found (elim value [ none ↦ none | some v ↦ some (o.json.dumps v) ])
          (last_with (requested_service id) exported none)
  ]

  -- remoteServiceAdmin_sendServiceAdded, by the endpoint of the send service. A wire id that is NULL is
  -- a fault, here and below.
  unfoldable pub send_service_added : Endpoint → SendService → M Status
  send_service_added e s = do
    w ← deref (wire_id e)
    modify (λ a. record a { send_services = insert same_text w s a.send_services })
    pure success

  -- remoteServiceAdmin_sendServiceRemoved
  unfoldable pub send_service_removed : Endpoint → M Status
  send_service_removed e = do
    w ← deref (wire_id e)
    modify (λ a. record a { send_services = remove same_text w a.send_services })
    pure success
