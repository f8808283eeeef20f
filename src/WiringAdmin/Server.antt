-- ===== src/WiringAdmin/Server.antt =====
-- The start of the web server in wiring_admin_impl.c. A configured port has less than ten digits, no
-- sign and no blank.
pub mod Retries
use node_wiring_secure.Base.{
  ℕ, zero, suc, ◌+◌, ◌-◌, ◌*◌, ◌/◌, ◌%◌, Bool, true, false, CString, codes, List, [], ◌∷◌, ◌++◌,
  Option, none, some, ◌>>=◌, if◌then◌else◌, ◌&&◌, ltb, leb, take, digits_from, ◌≡◌, refl,
}
use node_wiring_secure.WiringAdmin.{secure_port}

-- strtol, `none` where it stops before the end
unfoldable pub number : ℕ → CString → Option ℕ
number n [] = some n
number n (c ∷ s) =
    let rest = number (n * 10 + (c - 48)) s in if leb 48 c && leb c 57 then rest else none

-- The port that counts up, from DEFAULT_WA_PORT if the text is no number.
abbrev pub current : Option ℕ → ℕ
current none = 6789
current (some n) = n

-- The port of the next try: snprintf into 6 bytes with the format "%d".
unfoldable pub next_port : CString → CString
next_port port = take 5 (digits_from 10 (current (number 0 port) + 1) [])

-- The loop over the tries, with mg_start as a test on the port option: whether the server runs, and
-- the port after the loop. The new port is read from the buffer newPort of the loop's body after that
-- body has ended; here it keeps what was printed.
unfoldable pub start_from : (CString → Bool) → ℕ → CString → Bool × CString
start_from starts zero port = (false, port)
start_from starts (suc tries) port =
    let rest = start_from starts tries (next_port port) in
    if starts (secure_port port) then (true, port) else rest

-- MAX_NUMBER_OF_RESTARTS
abbrev pub max_number_of_restarts : ℕ
max_number_of_restarts = 5

abbrev pub address : Option CString → CString
address none = codes "127.0.0.1"
address (some ip) = ip

-- wiringAdmin_startWebserver from the loop on: whether the server runs, and the url. Without the
-- certificates the process ends.
unfoldable pub start_webserver :
    (CString → Bool) → Bool → Option CString → CString → Option (Bool × CString)
start_webserver starts false ip port = none
start_webserver starts true ip port =
    let (runs, last) = start_from starts max_number_of_restarts port in
    some (runs, take 127 (codes "https://" ++ (address ip ++ (58 ∷ last))))

-- With the certificates, the start returns.
pub start_webserver-some :
    (starts : CString → Bool) (ip : Option CString) (port : CString)
    → (r : Bool × CString) × (start_webserver starts true ip port ≡ some r)
unfolding start_webserver
start_webserver-some starts ip port = (_, refl)
