-- ===== src/WiringAdmin/Sending.antt =====
-- wiringAdmin_send, and the callbacks of its requests. curl is the function `Curl`.
pub mod Delivery
use node_wiring_secure.Base.{
  ℕ, ◌%◌, ◌^◌, Bool, true, false, CString, List, [], ◌∷◌, ◌++◌, Option, none, some, ◌>>=◌,
  if◌then◌else◌, ◌==◌, ◌&&◌, not,
}
use node_wiring_secure.Celix.{Status, success, illegal_state, is_success}
use node_wiring_secure.Endpoint.{Endpoint, get}
use node_wiring_secure.WiringAdmin.Exports.{url_key}

-- wiringAdmin_HTTPReqReadCallback: one character of the request, as long as there is one, and the rest.
unfoldable pub read_callback : CString → Option (ℕ × CString)
read_callback [] = none
read_callback (c ∷ s) = some (c, s)

-- wiringAdmin_HTTPReqWrite for each part of the reply.
unfoldable pub write_all : CString → List CString → CString
write_all memory [] = memory
write_all memory (part ∷ parts) = write_all (memory ++ part) parts

-- The reply's memory is one byte without a value until the first part comes, and reading it is a
-- fault.
unfoldable pub reply_memory : List CString → Option CString
reply_memory [] = none
reply_memory (part ∷ parts) = some (write_all [] (part ∷ parts))

-- What curl does: the CURLcode, the HTTP code (0 if there is no response), and the parts of the reply.
pub record Transfer : Type 0 where
  pub res : ℕ
  pub http_code : ℕ
  pub parts : List CString

-- The paths of the certificate, the private key and the authority's certificate.
abbrev pub Paths : Type 0
Paths = CString × CString × CString

abbrev pub Curl : Type 0
Curl = Paths → Option CString → CString → Transfer

-- CURLE_ABORTED_BY_CALLBACK
abbrev pub aborted_by_callback : ℕ
aborted_by_callback = 42

-- The paths that the trust manager gives, by the status of looking it up. Where it is not there, the
-- arrays are not set, and reading them is a fault.
unfoldable pub trusted_paths : Status × Option Paths → Option Paths
trusted_paths (status, paths) = if is_success status then paths else none

-- The status, the reply and the reply's status, as far as they are set.
abbrev pub Sent : Type 0
Sent = Status × Option CString × Option ℕ

unfoldable pub take_outcome : Transfer → Option Sent
take_outcome r =
    if r.http_code == 200 && not (r.res == aborted_by_callback)
    then (do text ← reply_memory r.parts; some (success, some text, some r.res))
    else some (success, none, some (r.http_code % 2 ^ 32))

-- wiringAdmin_send over the endpoint of the send service, where curl gives a handle or not, for a request
-- that is not NULL. A reply that was never written is a fault here, already before the caller reads it.
unfoldable pub send : Bool → Status × Option Paths → Curl → Endpoint → CString → Option Sent
send false trust curl e request = some (illegal_state, none, none)
send true trust curl e request = do
  paths ← trusted_paths trust
  take_outcome (curl paths (get e.properties url_key) request)
