-- ===== src/WiringAdmin/Lifecycle.antt =====
-- How a wiring admin is made and stopped, and the address that it takes.
use node_wiring_secure.Base.{
  ℕ, Bool, true, false, CString, codes, same_text, List, [], ◌∷◌, Option, none, some, if◌then◌else◌,
  ◌≡◌, refl,
}
use node_wiring_secure.Celix.{Properties, Status, success, enomem}
use node_wiring_secure.Celix.HashMap.{Map}
use node_wiring_secure.Endpoint.{Endpoint, set}
use node_wiring_secure.Topology.Import.{config_key}
use node_wiring_secure.WiringAdmin.{Services, Receiver, receive_removed}
use node_wiring_secure.WiringAdmin.Exports.{Admin, secure_key, secure_value, config_value}
use node_wiring_secure.WiringAdmin.Imports.{Sends}

-- struct wiring_admin, by the parts of its operations
pub record Whole : Type 0 where
  pub properties : Properties
  pub exports : Admin
  pub receivers : Services
  pub sends : Sends

-- wiringAdmin_create, where calloc has memory or not
unfoldable pub create_admin : Bool → Status × Option Whole
create_admin false = (enomem, none)
create_admin true = (
  success,
  some (record {
    properties = set (set [] secure_key secure_value) config_key config_value;
    exports = record { trackers = []; runs = false; url = [] };
    receivers = [];
    sends = record { services = []; registrations = [] };
  }),
)

-- wiringAdmin_stopWebserver: the server does not run after it.
unfoldable pub stop_webserver : Admin → Admin
stop_webserver a = record a { runs = false }

-- Closing the trackers: for each of the services that a tracker has, wiringAdmin_wiringReceiveRemoved
-- is called.
unfoldable pub receivers_gone : List Receiver → Services → Services
receivers_gone [] m = m
receivers_gone (r ∷ rs) m = receivers_gone rs (receive_removed r m)

unfoldable pub close_trackers : (ℕ → List Receiver) → Map Endpoint ℕ → Services → Services
close_trackers tracked [] m = m
close_trackers tracked ((e, tracker) ∷ ts) m =
    close_trackers tracked ts (receivers_gone (tracked tracker) m)

-- The lists that are still there are destroyed.
unfoldable pub lists_of : Services → List (List Receiver)
lists_of [] = []
lists_of ((w, rs) ∷ m) = rs ∷ lists_of m

-- wiringAdmin_stop, by the services that each tracker has: the admin, and the lists it destroys
unfoldable pub stop_admin : (ℕ → List Receiver) → Whole → Whole × List (List Receiver)
stop_admin tracked a =
    let left = close_trackers tracked a.exports.trackers a.receivers in
    (
      record a { exports = stop_webserver (record (a.exports) { trackers = [] }); receivers = [] },
      lists_of left,
    )

-- An interface that getifaddrs lists and that has an address: its name, and the host that getnameinfo
-- gives for it, if it gives one and the family is AF_INET.
abbrev pub Interface : Type 0
Interface = CString × Option CString

abbrev pub is_wanted : Option CString → CString → Bool
is_wanted none name = true
is_wanted (some wanted) name = same_text name wanted

-- The loop of wiring_getIpAddress.
unfoldable pub first_host : Option CString → List Interface → Option CString
first_host wanted [] = none
first_host wanted ((name, none) ∷ is) = first_host wanted is
first_host wanted ((name, some host) ∷ is) =
    if is_wanted wanted name then some host else first_host wanted is

-- wiring_getIpAddress, where getifaddrs gives a list or not: the address, if its status is a success
unfoldable pub get_ip_address : Option (List Interface) → Option CString → Option CString
get_ip_address none wanted = none
get_ip_address (some is) wanted = first_host wanted is

abbrev pub or_else : Option CString → Option CString → Option CString
or_else none b = b
or_else (some a) b = some a

-- Where no address is configured: the one of the configured interface is looked up, and then replaced
-- by the first of all interfaces, if there is one.
unfoldable pub detected_ip : Option (List Interface) → Option CString → Option CString
detected_ip is none = get_ip_address is none
detected_ip is (some interface) =
    or_else (get_ip_address is none) (get_ip_address is (some interface))

-- The address and the port that wiringAdmin_startWebserver starts with.
unfoldable pub chosen_ip :
    Option CString → Option (List Interface) → Option CString → Option CString
chosen_ip (some ip) is interface = some ip
chosen_ip none is interface = detected_ip is interface

unfoldable pub chosen_port : Option CString → CString
chosen_port none = codes "6789"
chosen_port (some port) = port

first_host-wanted :
    (wanted : Option CString) (is : List Interface)
    → or_else (first_host none is) (first_host wanted is) ≡ first_host none is
unfolding first_host
first_host-wanted wanted [] = refl
first_host-wanted wanted ((name, none) ∷ is) = first_host-wanted wanted is
first_host-wanted wanted ((name, some host) ∷ is) = refl

-- Whatever interface is configured, the address is the one that is taken without it.
pub chosen_ip-interface :
    (ip : Option CString) (is : Option (List Interface)) (interface : Option CString)
    → chosen_ip ip is interface ≡ chosen_ip ip is none
unfolding chosen_ip detected_ip get_ip_address
chosen_ip-interface (some ip) is interface = refl
chosen_ip-interface none is none = refl
chosen_ip-interface none none (some interface) = refl
chosen_ip-interface none (some is) (some interface) = first_host-wanted (some interface) is
