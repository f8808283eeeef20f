-- ===== src/WiringAdmin/Tests.antt =====
-- Tests and witnesses for the wiring admin.
use node_wiring_secure.Base.{
  ℕ, ◌+◌, digits_from, ◌≤◌, ◌<◌, Bool, true, false, not, none, same_text, ◌==◌, ==_iff, ap, arith,
  refl, CString, codes, List, [], ◌∷◌, ◌++◌, Option, some, length, ◌≡◌, ◌⊎◌, ◌↔◌,
}
use node_wiring_secure.Celix.{Status, success, is_success}
use node_wiring_secure.Celix.HashMap.{lookup}
use node_wiring_secure.Endpoint.{Endpoint, wire_id, get, wire_id_key}
use node_wiring_secure.Topology.Import.{config_key}
use node_wiring_secure.WiringAdmin.Server.{start_webserver}
use node_wiring_secure.WiringAdmin.Server.Retries.{Refused, decimal, url_of, start_webserver-tries}
use node_wiring_secure.WiringAdmin.Exports.{Site, Admin, export_endpoint, secure_key, url_key}
use node_wiring_secure.WiringAdmin.Exports.Published.{
  IsPublished, IsOwnKey, export_endpoint-IsPublished,
}
use node_wiring_secure.WiringAdmin.{Receiver, Services, callback, reply, response, secure_port}
use node_wiring_secure.WiringAdmin.Receiving.{Move, came, went, moves, callback-moves}
use node_wiring_secure.WiringAdmin.Imports.{Sends, import_endpoint, remove_import}
use node_wiring_secure.WiringAdmin.Imports.Paired.{IsPaired, imports-IsPaired}
use node_wiring_secure.WiringAdmin.Sending.{Curl}
use node_wiring_secure.WiringAdmin.Port.{secure_port_iff}

abbrev at_wire : ℕ → CString → Receiver
at_wire a w = record { address = a; wire = w }

abbrev some_moves : List Move
some_moves =
    came (at_wire 1 (codes "a")) ∷ came (at_wire 2 (codes "b")) ∷ went (at_wire 1 (codes "a")) ∷ []

abbrev echo : Receiver → CString → Status × Option CString
echo r request = (success, some request)

callback-moves_example :
    ((moves some_moves [] ≡ [])
      × (callback echo (moves some_moves []) (some (codes "/")) (codes "POST") (codes "q")
          ≡ some (1, reply none)))
    ⊎ ((w : CString) × (r : Receiver) × (rs : List Receiver) × (rest : Services) × (moves some_moves
            []
          ≡ (w, r ∷ rs) ∷ rest)
        × (r.wire ≡ w)
        × (callback echo (moves some_moves []) (some (codes "/")) (codes "POST") (codes "q")
            ≡ some (1, reply (response (echo r (codes "q"))))))
callback-moves_example = callback-moves echo some_moves (codes "/") (codes "q")

secure_port_iff_example :
    (secure_port (codes "12345") ≡ codes "12345" ++ codes "s") ↔ (length (codes "12345") ≤ 4)
secure_port_iff_example = secure_port_iff (codes "12345")

-- A port that is taken.
abbrev refuses : CString → Bool
refuses option = not (same_text option (codes "6790s"))

start_webserver-tries_example :
    ((i : ℕ) × (i < 5)
      × Refused refuses i 6790
      × (refuses (secure_port (decimal (6790 + i))) ≡ true)
      × (start_webserver refuses true none (decimal 6790)
          ≡ some (true, url_of none (decimal (6790 + i)))))
    ⊎ (Refused refuses 5 6790
        × (start_webserver refuses true none (decimal 6790)
            ≡ some (false, url_of none (codes "6795"))))
unfolding digits_from
start_webserver-tries_example = start_webserver-tries refuses none 6790 (omega arith)

abbrev site : Site
site = record {
  starts = refuses;
  certificates = true;
  ip = none;
  port = codes "6790";
  framework_uuid = (success, some (codes "f"));
  framework_uuid_key = codes "fw";
  block = some 7;
  uuid = codes "w";
  create_tracker = success;
  open_tracker = success;
  tracker = 3;
  same_endpoint = λ d e. d.address == e.address;
}

abbrev idle : Admin
idle = record { trackers = []; runs = false; url = [] }

site-IsOwnKey : IsOwnKey (codes "fw")
unfolding config_key secure_key url_key wire_id_key
site-IsOwnKey = (
  (λ h. omega (arith, ap length h)),
  (λ h. omega (arith, ap length h)),
  (λ h. omega (arith, ap length h)),
  (λ h. omega (arith, ap length h)),
)

export_endpoint-IsPublished_example :
    (status : Status) × (e : Endpoint) × (a : Admin) × (export_endpoint site idle
      ≡ some (status, some e, a))
    × IsPublished site a e
    × (((is_success status ≡ true) × (lookup site.same_endpoint e a.trackers ≡ some 3))
        ⊎ ((is_success status ≡ false) × (a.trackers ≡ [])))
export_endpoint-IsPublished_example =
    export_endpoint-IsPublished site idle (codes "f") 7 refl refl refl site-IsOwnKey
      (λ e. (==_iff e.address e.address).1 refl)

abbrev sending : Sends
sending = record {
  services = (record { address = 2; properties = [] }, 11) ∷ [];
  registrations = (record { address = 2; properties = [] }, 12) ∷ [];
}

abbrev arrived : Endpoint
arrived = record { address = 3; properties = (wire_id_key, codes "w") ∷ [] }

arrived-wire_id : wire_id arrived ≡ some (codes "w")
unfolding wire_id get lookup same_text wire_id_key
arrived-wire_id = refl

imports-IsPaired_example :
    (m : Sends) × (import_endpoint site.same_endpoint (some 21) (success, 22) arrived sending
      ≡ some (success, m))
    × IsPaired m
    × (((lookup site.same_endpoint arrived sending.registrations ≡ none)
          × (remove_import site.same_endpoint (λ r. success) arrived sending ≡ none))
        ⊎ ((r : ℕ) × (m'' : Sends) × (lookup site.same_endpoint arrived sending.registrations
              ≡ some r)
            × (remove_import site.same_endpoint (λ r. success) arrived sending
                ≡ some (success, m''))
            × IsPaired m''))
imports-IsPaired_example =
    imports-IsPaired site.same_endpoint 21 22 success (λ r. success) arrived (codes "w") sending
      arrived-wire_id refl

abbrev carry : Curl
carry paths url request = record { res = 0; http_code = 200; parts = request ∷ [] }

abbrev linked : Endpoint
linked = record { address = 4; properties = (url_key, codes "https://h") ∷ [] }
