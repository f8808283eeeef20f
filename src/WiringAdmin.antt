-- ===== src/WiringAdmin.antt =====
-- wiring_admin_secure/private/src/wiring_admin_impl.c: the services that receive requests over the
-- exported wires, and how an HTTP request reaches one of them.
pub mod Receiving
pub mod Port
pub mod Server
pub mod Exports
pub mod Imports
pub mod Sending
pub mod Lifecycle
mod Tests
use node_wiring_secure.Base.{
  ℕ, Bool, true, false, CString, codes, same_text, List, [], ◌∷◌, ◌++◌, Option, none, some,
  if◌then◌else◌, ◌==◌, erase_first, take,
}
use node_wiring_secure.Celix.{Status, is_success}
use node_wiring_secure.Celix.HashMap.{Map, lookup, insert, remove}

-- A wiring_receive_service_pt, by its address, and its wire id.
pub record Receiver : Type 0 where
  pub address : ℕ
  pub wire : CString

-- The map wiringReceiveServices, with utils_stringHash and utils_stringEquals.
abbrev pub Services : Type 0
Services = Map CString (List Receiver)

abbrev pub listed : Option (List Receiver) → List Receiver
listed none = []
listed (some rs) = rs

-- wiringAdmin_wiringReceiveAdded
unfoldable pub receive_added : Receiver → Services → Services
receive_added r m = insert same_text r.wire (listed (lookup same_text r.wire m) ++ (r ∷ [])) m

-- An empty list is destroyed, and its key leaves the map.
unfoldable pub put_or_remove : CString → List Receiver → Services → Services
put_or_remove w [] m = remove same_text w m
put_or_remove w (r ∷ rs) m = insert same_text w (r ∷ rs) m

unfoldable pub removed_from : Receiver → Option (List Receiver) → Services → Services
removed_from r none m = m
removed_from r (some rs) m = put_or_remove r.wire (erase_first (λ q. q.address == r.address) rs) m

-- wiringAdmin_wiringReceiveRemoved
unfoldable pub receive_removed : Receiver → Services → Services
receive_removed r m = removed_from r (lookup same_text r.wire m) m

-- The loop of wiringAdmin_callback: the first service of the first list that is not empty.
unfoldable pub pick : Services → Option Receiver
pick [] = none
pick ((w, []) ∷ m) = pick m
pick ((w, r ∷ rs) ∷ m) = some r

unfoldable pub no_content : CString
no_content = codes "HTTP/1.1 204 OK\r\n"

unfoldable pub data_headers : CString
data_headers = codes "HTTP/1.1 200 OK\r\nCache: no-cache\r\nContent-Type: application/json\r\n\r\n"

-- A failed service has no response.
abbrev pub response : Status × Option CString → Option CString
response (status, answer) = if is_success status then answer else none

-- What is written to the connection.
unfoldable pub reply : Option CString → List CString
reply none = no_content ∷ []
reply (some answer) = data_headers ∷ answer ∷ []

abbrev pub answer_of :
    (Receiver → CString → Status × Option CString) → CString → Option Receiver → Option CString
answer_of receive request none = none
answer_of receive request (some r) = response (receive r request)

-- wiringAdmin_callback for a request whose whole content is read: the result, and what is written. A
-- request by another method than POST unlocks a mutex that is not locked, which is undefined.
unfoldable pub callback :
    (Receiver → CString → Status × Option CString)
    → Services
    → Option CString
    → CString
    → CString
    → Option (ℕ × List CString)
callback receive m none method request = some (0, [])
callback receive m (some uri) method request =
    if same_text method (codes "POST")
    then some (1, reply (answer_of receive request (pick m)))
    else none

-- The port that wiringAdmin_startWebserver gives to the web server: snprintf into 6 bytes with the
-- format "%ss".
unfoldable pub secure_port : CString → CString
secure_port port = take 5 (port ++ codes "s")
