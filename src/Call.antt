-- ===== src/Call.antt =====
-- A remote call from end to end: the remote service admin and the wiring admin of the caller's node,
-- remote_service_admin_impl.c and wiring_admin_impl.c, over HTTP to those of the other node.
mod Tests
use node_wiring_secure.Base.{
  ℕ, ◌%◌, ◌^◌, ◌<◌, Bool, true, CString, codes, same_text, List, [], ◌∷◌, Option, none, some, ◌≡◌,
  refl, ap, sym, ◌∙◌,
}
use node_wiring_secure.Celix.{Status, success, bundle_exception, is_success}
use node_wiring_secure.Celix.HashMap.{lookup}
use node_wiring_secure.Endpoint.{Endpoint, get, wire_id_key}
use node_wiring_secure.RemoteServiceAdmin.Description.{Description}
use node_wiring_secure.RemoteServiceAdmin.Exporting.{Export}
use node_wiring_secure.RemoteServiceAdmin.World.{World, Outside, SendService, History}
use node_wiring_secure.RemoteServiceAdmin.Requests.{
  Answer, request_text, last_with, receive, call_found,
}
use node_wiring_secure.RemoteServiceAdmin.Requests.{send}
use node_wiring_secure.RemoteServiceAdmin.Requests.Errors.{sent, answer, send_lem}
use node_wiring_secure.RemoteServiceAdmin.Requests.Calls.{Unpacks, receive-packed}
use node_wiring_secure.WiringAdmin.{Receiver, Services, pick, callback, answer_of}
use node_wiring_secure.WiringAdmin.Exports.{url_key}
use node_wiring_secure.WiringAdmin.Sending
use node_wiring_secure.WiringAdmin.Sending.Delivery.{
  written_by, IsOutcome, delivered, send-callback,
}

-- The receive service of a remote service admin in a state, as wiringAdmin_callback calls it. After a
-- fault there is no answer, which nothing below asks for.
abbrev pub answered : Option ((Status × Option CString) × World) → Status × Option CString
answered none = (bundle_exception, none)
answered (some (a, v)) = a

abbrev pub receives :
    {Json : Type 0} → Outside Json → World → Receiver → CString → Status × Option CString
receives p v r text = answered (receive p text v)

-- The caller's status of a reply is 0 before the send.
abbrev pub status_of : Option ℕ → ℕ
status_of none = 0
status_of (some n) = n

-- The send function of a send service is wiringAdmin_send with the paths of the trust manager, for
-- this text.
abbrev pub SendsOver :
    {Json : Type 0}
    → Outside Json
    → SendService
    → Sending.Paths
    → Sending.Curl
    → Endpoint
    → CString
    → Type 0
SendsOver o s paths curl e text =
    (h : History) (a : Sending.Sent)
    → Sending.send true (success, some paths) curl e text ≡ some a
    → o.send h s.address text ≡ (a.0, a.1, status_of a.2)

-- What jansson writes for a request.
abbrev pub packed : {Json : Type 0} → Outside Json → Description → Json → CString
packed o d value = o.json.dumps (o.json.pack (d.service_id % 2 ^ 32) value)

-- Where jansson reads back what it has written; the caller's description has a wire with a send
-- service, which is wiringAdmin_send over an endpoint with a url; the service id is below 2^31 and the
-- request is JSON; curl brings the text to that url to the callback of the other node's wiring admin
-- and its answer back; that one picks a receive service of a remote service admin, which has a
-- registration for the service id, the last that its loop finds; and this is called with the request
-- and answers with a text that is not empty: then the send returns a success, this text as the reply,
-- and 0 as the status of the reply.
pub send-served :
    {Json : Type 0} (o p : Outside Json) (d : Description) (wire request : CString) (value : Json)
    (s : SendService) (w v v' : World) (m : Services) (r : Receiver) (curl : Sending.Curl)
    (paths : Sending.Paths) (e : Endpoint) (url uri : CString) (x : Export) (c : ℕ) (cs : CString)
    → p.json ≡ o.json
    → Unpacks o.json
    → get d.properties wire_id_key ≡ some wire
    → lookup same_text wire w.admin.send_services ≡ some s
    → d.service_id < 2 ^ 31
    → o.json.loads request ≡ some value
    → last_with d.service_id v.admin.exported_services none ≡ some x
    → call_found p (some (p.json.dumps value)) (some x) v ≡ some ((success, some (c ∷ cs)), v')
    → pick m ≡ some r
    → get e.properties url_key ≡ some url
    → IsOutcome
        (written_by (callback (receives p v) m (some uri) (codes "POST") (packed o d value)))
        (curl paths (some url) (packed o d value))
    → SendsOver o s paths curl e (packed o d value)
    → (w' : World) × (send o d request w ≡ some ((success, some (c ∷ cs), 0), w'))
unfolding request_text is_success
send-served o p d wire request value s w v v' m r curl paths e url uri x c cs same unpacks wired
      there small parses last called picked there_url carries over =
    let text = packed o d value in
    let written : request_text o.json d.service_id request ≡ some text =
      rw (request_text, parses) in
    let received : receive p text v ≡ some ((success, some (c ∷ cs)), v') =
      receive-packed o p d.service_id value v same unpacks small
      ∙ (ap (λ f. call_found p (some (p.json.dumps value)) f v) last ∙ called) in
    let replied : answer_of (receives p v) text (pick m) ≡ some (c ∷ cs) =
      rw (picked, received) refl in
    let brought : Sending.send true (success, some paths) curl e text
        ≡ some (success, some (c ∷ cs), some 0) =
      send-callback (receives p v) m curl paths e url uri text there_url carries
      ∙ ap delivered replied in
    let result : answer o d wire wired text s w ≡ (success, some (c ∷ cs), 0) =
      over w.history (success, some (c ∷ cs), some 0) brought in
    (
      sent o d wire wired text s w,
      send_lem o d wire wired request text s w there written
          ∙ ap (λ a. some (a, sent o d wire wired text s w)) result,
    )
