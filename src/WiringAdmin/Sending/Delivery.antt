-- ===== src/WiringAdmin/Sending/Delivery.antt =====
-- From the send service of one wiring admin to the receive service of another.
use node_wiring_secure.Base.{
  ℕ, true, CString, codes, same_text, List, [], ◌∷◌, ◌++◌, Option, none, some, ◌>>=◌, ◌≡◌, ◌≢◌,
  refl, arith, All,
}
use node_wiring_secure.Celix.{Status, success, is_success}
use node_wiring_secure.Endpoint.{Endpoint, get}
use node_wiring_secure.WiringAdmin.{Receiver, Services, pick, reply, answer_of, callback}
use node_wiring_secure.WiringAdmin.Exports.{url_key}
use node_wiring_secure.WiringAdmin.Sending.{
  Transfer, Paths, Curl, Sent, write_all, reply_memory, trusted_paths, take_outcome, send,
}

abbrev pub IsFilled : CString → Type 0
IsFilled s = s ≢ []

abbrev pub written_by : Option (ℕ × List CString) → List CString
written_by none = []
written_by (some (result, texts)) = texts

-- What curl makes of what the web server has written: of headers without a text the code 204, and of
-- headers and a text the code 200 and the text, in parts that are not empty.
abbrev pub IsOutcome : List CString → Transfer → Type 0
IsOutcome (headers ∷ []) r = r.http_code ≡ 204
IsOutcome (headers ∷ text ∷ []) r =
    (r.http_code ≡ 200) × (r.res ≡ 0) × (write_all [] r.parts ≡ text) × All IsFilled r.parts
IsOutcome _ r = Unit

-- What the sender gets of an answer; an empty one leaves memory without a value.
abbrev pub delivered : Option CString → Option Sent
delivered none = some (success, none, some 204)
delivered (some []) = none
delivered (some (c ∷ s)) = some (success, some (c ∷ s), some 0)

write_all-filled : (c : ℕ) (m : CString) (parts : List CString) → write_all (c ∷ m) parts ≢ []
unfolding write_all
write_all-filled c m [] h = ground (arith, h)
write_all-filled c m (part ∷ parts) h = write_all-filled c (m ++ part) parts h

reply_memory-parts :
    (parts : List CString) (text : CString)
    → write_all [] parts ≡ text
    → All IsFilled parts
    → (reply_memory parts >>= λ t. some (success, some t, some 0)) ≡ delivered (some text)
unfolding reply_memory write_all
reply_memory-parts [] [] h filled = refl
reply_memory-parts [] (c ∷ text) h filled = absurd (ground (arith, h))
reply_memory-parts ([] ∷ parts) text h filled = absurd (filled.0 refl)
reply_memory-parts ((c ∷ part) ∷ parts) [] h filled = absurd (write_all-filled c part parts h)
reply_memory-parts ((c ∷ part) ∷ parts) (d ∷ text) h filled = rw h refl

take_outcome-answer :
    (answer : Option CString) (r : Transfer)
    → IsOutcome (reply answer) r
    → take_outcome r ≡ delivered answer
unfolding take_outcome reply
take_outcome-answer none r h = rw h refl
take_outcome-answer (some text) r (ok, done, all, filled) =
    rw (ok, done) (reply_memory-parts r.parts text all filled)

pub send-callback :
    (receive : Receiver → CString → Status × Option CString) (m : Services) (curl : Curl)
    (paths : Paths) (e : Endpoint) (url uri request : CString)
    → get e.properties url_key ≡ some url
    → IsOutcome
        (written_by (callback receive m (some uri) (codes "POST") request))
        (curl paths (some url) request)
    → send true (success, some paths) curl e request
      ≡ delivered (answer_of receive request (pick m))
unfolding send trusted_paths callback same_text is_success
send-callback receive m curl paths e url uri request there carries = rw there (
    take_outcome-answer (answer_of receive request (pick m)) (curl paths (some url) request)
      carries)

-- Without an HTTP response there is no reply, and the status that is left is 0, as after a success.
send-unanswered :
    (curl : Curl) (paths : Paths) (e : Endpoint) (request : CString)
    → (curl paths (get e.properties url_key) request).http_code ≡ 0
    → send true (success, some paths) curl e request ≡ some (success, none, some 0)
unfolding send trusted_paths take_outcome is_success
send-unanswered curl paths e request silent = rw silent refl
