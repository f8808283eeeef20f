-- ===== src/Watcher/Tests.antt =====
-- Tests and witnesses for the etcd watcher.
use mathlib.Core.List.{Memᴰ}
use node_wiring_secure.Base.{
  ℕ, suc, if◌then◌else◌, ◌<◌, ◌≤◌, Bool, true, false, CString, codes, same_text, List, [], ◌∷◌,
  ◌++◌, none, some, ◌≡◌, refl, All, arith, ◌==◌, ◌||◌, ◌&&◌, not,
}
use node_wiring_secure.Celix.HashMap.{lookup}
use node_wiring_secure.Endpoint.{Endpoint, wire_id_key, get}
use node_wiring_secure.Listener.{Framework}
use node_wiring_secure.Codec.{fit, is_blank, is_escaped, escape}
use node_wiring_secure.Codec.Scanning.{spread, IsKeyByte}
use node_wiring_secure.Discovery.{Discovery, NodeDescription, add_node}
use node_wiring_secure.Watcher.{
  Setting, root_path, ends_in_slash, cut, local_node_path, add_own_node, parse_key, is_set, handle,
}
use node_wiring_secure.Watcher.Keys.{IsSegment, parse_key-slash_root}
use node_wiring_secure.Watcher.Arrival.{IsPublishable, handle-add_own_node}
use node_wiring_secure.Etcd.{
  Jansson, Perform, max_nodes, etcd_get, etcd_get_endpoints, reply_text, write_memory, list_root,
  list_zones, list_nodes, list_wires, nodes_below, put_key, get_node, etcd_set, content, document,
}
use node_wiring_secure.Watcher.Running.{
  Setup, Pass, State, publish_own, set_each, run_passes, add_already_existing_nodes,
}
use node_wiring_secure.Watcher.Running.Outage.{silent, run_passes-silent}
use node_wiring_secure.Watcher.Running.SlashRoot.{add_already_existing_nodes-slash_root}

abbrev everyone : Framework
everyone = record { property = λ r k. none; matches = λ s p. true }

abbrev rooted_at : CString → Setting
rooted_at root = record { configured = some root; trim = λ s. s; uuid = codes "uuid"; address = 9 }

abbrev published : Endpoint
published = record { address = 1; properties = (wire_id_key, codes "w") ∷ [] }

abbrev own : NodeDescription
own = record {
  node_id = codes "n";
  zone_id = codes "z";
  endpoints = published ∷ [];
  properties = [];
}

abbrev nothing_known : Discovery
nothing_known = record { own_node = own; discovered_nodes = []; listeners = 4 ∷ [] }

rooted_lem : root_path (some (codes "r")) ≡ some (codes "r")
unfolding root_path fit
rooted_lem = ground arith

slash_rooted : root_path (some (codes "r/")) ≡ some (codes "r/")
unfolding root_path fit
slash_rooted = ground arith

plain_end : ends_in_slash (codes "r") ≡ some false
unfolding ends_in_slash
plain_end = refl

slash_end : ends_in_slash (codes "r/") ≡ some true
unfolding ends_in_slash
slash_end = refl

letter-IsSegment : (c : ℕ) → 96 < c → IsSegment (c ∷ [])
letter-IsSegment c h = (refl, ((λ e. omega (arith, h, e)), tt))

parse_key-slash_root_example :
    (path : CString) × (local_node_path (some (codes "r/")) own ≡ some path)
    × (parse_key (codes "r/") (47 ∷ cut (path ++ (47 ∷ codes "w"))) ≡ none)
parse_key-slash_root_example =
    parse_key-slash_root (some (codes "r/")) own (codes "r/") (codes "w") slash_rooted (omega arith)
      slash_end (letter-IsSegment 122 (omega arith))

abbrev is_key_byte : ℕ → Bool
is_key_byte c = not (c == 92 || c == 58 || c == 32 || c == 9 || c == 10)

byte-IsKeyByte : (c : ℕ) → is_key_byte c ≡ true → IsKeyByte c
byte-IsKeyByte c h = ground (arith, h)

abbrev is_key : CString → Bool
is_key [] = true
is_key (c ∷ s) = is_key_byte c && is_key s

All-IsKeyByte : (s : CString) → is_key s ≡ true → All IsKeyByte s
All-IsKeyByte [] h = tt
All-IsKeyByte (c ∷ s) h =
    (byte-IsKeyByte c (ground (arith, h)), All-IsKeyByte s (ground (arith, h)))

published-IsPublishable : IsPublishable (wire_id_key, codes "w") []
unfolding wire_id_key escape is_escaped spread is_blank lookup
published-IsPublishable = (
  (
    (
      All-IsKeyByte wire_id_key refl,
      (((λ e. omega (arith, e)), (λ e. omega (arith, e))), tt),
      omega arith,
      omega arith,
      omega arith,
    ),
    tt,
  ),
  (refl, tt),
  ((refl, tt), tt),
  omega arith,
)

published-wired : get published.properties wire_id_key ≡ some (codes "w")
unfolding get lookup same_text wire_id_key
published-wired = refl

set_action : is_set (codes "set") ≡ true
unfolding same_text
set_action = refl

handle-add_own_node_example :
    (key : CString) × (value : CString) × (add_own_node (some (codes "r")) [] own
      ≡ some ((key, value) ∷ []))
    × (handle everyone
          (rooted_at (codes "r"))
          nothing_known
          (record { action = codes "set"; key = 47 ∷ key; value = value })
        ≡ add_node everyone nothing_known (record {
          node_id = codes "n";
          zone_id = codes "z";
          endpoints = (record { address = 9; properties = published.properties }) ∷ [];
          properties = [];
        }))
handle-add_own_node_example =
    handle-add_own_node (rooted_at (codes "r")) (λ s h. refl) (wire_id_key, codes "w") []
      (codes "w") published-IsPublishable published-wired everyone nothing_known own 1 []
      (codes "r") (codes "set") refl rooted_lem plain_end (letter-IsSegment 122 (omega arith))
      (letter-IsSegment 110 (omega arith)) (letter-IsSegment 119 (omega arith)) (omega arith)
      set_action

abbrev no_json : Jansson ℕ
no_json = record {
  loads = λ text. none;
  member = λ v key. none;
  elements = λ v. none;
  text = λ v. none;
  integer = λ v. none;
  is_object = λ v. false;
}

abbrev setup : Setup
setup = record {
  setting = rooted_at (codes "r");
  server = record { server = codes "etcd"; port = 4001 };
  ttl = 0;
  stack = [];
}

abbrev quiet_pass : Pass
quiet_pass = record {
  watching = silent;
  publishing = silent;
  listing = silent;
  reading = silent;
  watched_at = 10;
  checked_at = 18;
  synced_at = 19;
}

own_published : publish_own no_json everyone setup silent nothing_known ≡ some (false ∷ [])
unfolding publish_own set_each etcd_set content document
own_published = let (key, value, added, handled) = handle-add_own_node_example in rw added refl

-- One round without an answer, from 10 s to 19 s, with a sleep and a synchronisation.
run_passes-silent_example :
    (last : State) × (slept : List Bool) × (run_passes no_json everyone setup
        (record { discovery = nothing_known; highest = 5; before = 10 })
        (quiet_pass ∷ [])
      ≡ some (last, [], slept))
    × (last.discovery ≡ nothing_known)
    × (14 ≤ 22)
run_passes-silent_example =
    run_passes-silent no_json everyone setup (codes "r") rooted_lem
      (record { discovery = nothing_known; highest = 5; before = 10 }) (quiet_pass ∷ [])
      (false ∷ []) 10 ((refl, refl, refl), tt) own_published (omega arith) (omega arith)
      (omega arith, omega arith, omega arith, tt)

-- A document with one zone, one node and one wire, whose key is the published one; also what it holds.
abbrev one_wire : Jansson ℕ
one_wire = record {
  loads = λ text. some 0;
  member = λ v key.
      if same_text key (codes "key")
      then some 8
      else if same_text key (codes "value")
      then some 9
      else some v;
  elements = λ v. some (suc v ∷ []);
  text = λ v. if v == 8 then some (codes "/r/z/n/w") else some (codes "a=b");
  integer = λ v. some 5;
  is_object = λ v. true;
}

abbrev slash_setup : Setup
slash_setup = record setup { setting = rooted_at (codes "r/") }

abbrev answering : Perform
answering = λ method address body. some (codes "{}" ∷ [])

slash_path : local_node_path (some (codes "r/")) own ≡ some (codes "r/z/n")
unfolding local_node_path
slash_path = rw (slash_rooted, slash_end) refl

slash_listed :
    etcd_get_endpoints one_wire max_nodes answering slash_setup.server (codes "r/")
    ≡ some (true, codes "/r/z/n/w" ∷ [])
unfolding etcd_get_endpoints document reply_text write_memory list_root list_zones list_nodes
    list_wires nodes_below put_key fit same_text
slash_listed = refl

slash_read :
    etcd_get one_wire answering slash_setup.server (codes "/r/z/n/w") ≡ some (some (codes "a=b", 5))
unfolding etcd_get document reply_text write_memory get_node fit same_text
slash_read = refl

add_already_existing_nodes-slash_root_example :
    add_already_existing_nodes one_wire everyone slash_setup answering answering nothing_known
    ≡ none
add_already_existing_nodes-slash_root_example =
    add_already_existing_nodes-slash_root one_wire everyone slash_setup answering answering
      (codes "r/") (codes "r/z/n") (codes "a=b") (codes "w") 5 true (codes "/r/z/n/w" ∷ [])
      nothing_known slash_rooted slash_end (letter-IsSegment 122 (omega arith)) (omega arith)
      slash_path slash_listed (Memᴰ.head refl) slash_read
