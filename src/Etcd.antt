-- ===== src/Etcd.antt =====
-- node_discovery/private/src/etcd.c: the requests to etcd, and what is read from the replies. curl is
-- the function `perform` of each operation, and jansson the record Jansson.
pub mod Watching
pub mod Listing
mod Tests
use node_wiring_secure.Base.{
  ℕ, zero, suc, ◌+◌, ◌-◌, ◌%◌, ◌^◌, ◌≤◌, Bool, true, false, CString, codes, same_text, digits_from,
  List, [], ◌∷◌, ◌++◌, Option, none, some, ◌>>=◌, if◌then◌else◌, ◌==◌, ltb, length, take, not,
}
use node_wiring_secure.Codec.{fit, max_value_length}

-- The constants of etcd.h.
abbrev pub max_wires : ℕ
max_wires = 256

abbrev pub max_nodes : ℕ
max_nodes = 256

abbrev pub max_zones : ℕ
max_zones = 64

abbrev pub max_key_length : ℕ
max_key_length = 256

abbrev pub max_action_length : ℕ
max_action_length = 64

abbrev pub max_url_length : ℕ
max_url_length = 256

abbrev pub max_content_length : ℕ
max_content_length = 16384

-- jansson on a kind of values: json_loads, json_object_get, the elements of an array (`none` for any
-- other value), json_string_value, json_integer_value (`none` for any other value) and json_is_object.
pub record Jansson (Json : Type 0) : Type 0 where
  pub loads : CString → Option Json
  pub member : Json → CString → Option Json
  pub elements : Json → Option (List Json)
  pub text : Json → Option CString
  pub integer : Json → Option ℕ
  pub is_object : Json → Bool

pub data Method : Type 0 where
  get put delete : Method

-- performRequest: the parts of the reply, in the order in which curl hands them over, if it returns
-- CURLE_OK.
abbrev pub Perform : Type 0
Perform = Method → CString → Option CString → Option (List CString)

-- WriteMemoryCallback for each part. The memory has no terminating zero before the first part comes.
unfoldable pub write_memory : CString → List CString → CString
write_memory memory [] = memory
write_memory memory (part ∷ parts) = write_memory (memory ++ part) parts

unfoldable pub reply_text : List CString → Option CString
reply_text [] = none
reply_text (part ∷ parts) = some (write_memory [] (part ∷ parts))

-- etcd_server and etcd_port, an `int` by its 32 bits, as etcd_init sets them
pub record Server : Type 0 where
  pub server : CString
  pub port : ℕ

-- An `int`, by its 32 bits, as the format "%d" prints it.
unfoldable pub print_int : ℕ → CString
print_int n = if ltb n (2 ^ 31) then digits_from 10 n [] else 45 ∷ digits_from 10 (2 ^ 32 - n) []

-- The url in its buffer: what does not fit is cut off.
unfoldable pub url : Server → CString → CString → CString
url s key query = take (max_url_length - 1) (
    codes "http://"
    ++ (s.server ++ (codes ":" ++ (print_int s.port ++ (codes "/v2/keys/" ++ (key ++ query))))))

-- A value whose text is copied with strncpy: NULL is a fault, and so is a text that leaves the buffer
-- without a terminating zero, which is read later.
abbrev pub copy : ℕ → Option CString → Option CString
copy size none = none
copy size (some s) = fit size s

-- The key of one wire is copied into the array behind those that are there; an array of `slots` that
-- is full is overrun, which is a fault.
unfoldable pub put_key : ℕ → List CString → Option CString → Option (List CString)
put_key slots keys text =
    if ltb (length keys) slots
    then elim (copy max_key_length text) [ none ↦ none | some key ↦ some (keys ++ (key ∷ [])) ]
    else none

-- One more print into the content. Its bound is that of the whole buffer wherever it starts, so that
-- what goes past the end is written there: a fault.
unfoldable pub append : CString → CString → Option CString
append content more = fit max_content_length (content ++ more)

-- The content of etcd_set.
unfoldable pub content : CString → ℕ → Bool → Option CString
content value ttl exists = do
  c0 ← some (take (max_content_length - 1) (codes "value=" ++ value))
  let start = codes "value=" ++ value
  c1 ← if ltb 0 ttl then append start (codes ";ttl=" ++ digits_from 10 ttl []) else some c0
  if exists then append c1 (codes ";prevExist=true") else some c1

abbrev pub index_of : Option ℕ → ℕ
index_of none = 0
index_of (some n) = n % 2 ^ 32

abbrev pub there {ℓ} : {A : Type ℓ} → Option A → Bool
there none = false
there (some v) = true

module _ {Json : Type 0} (j : Jansson Json) where
  -- json_object_get of a value that may be NULL
  abbrev pub member_of : Option Json → CString → Option Json
  member_of none key = none
  member_of (some v) key = j.member v key

  abbrev pub text_of : Option Json → Option CString
  text_of none = none
  text_of (some v) = j.text v

  -- The document of a reply: `none` is a fault, and inside it that there is no document.
  unfoldable pub document : Option (List CString) → Option (Option Json)
  document none = some none
  document (some parts) = do text ← reply_text parts; some (j.loads text)

  -- What etcd_get leaves for the members "value" and "modifiedIndex" of a node.
  unfoldable pub get_node : Option Json → Option Json → Option (Option (CString × ℕ))
  get_node (some v) (some i) = do
    value ← copy max_value_length (j.text v)
    some (some (value, index_of (j.integer i)))
  get_node _ _ = some none

  -- etcd_get: the value and the index, if it returns true
  unfoldable pub etcd_get : Perform → Server → CString → Option (Option (CString × ℕ))
  etcd_get perform s key = do
    root ← document (perform get (url s key []) none)
    let node = member_of root (codes "node")
    get_node (member_of node (codes "value")) (member_of node (codes "modifiedIndex"))

  -- The array below a member "nodes", without what is behind its bound.
  unfoldable pub nodes_below : ℕ → Json → List Json
  nodes_below bound v = elim (j.member v (codes "nodes")) [
    | none ↦ []
    | some below ↦ elim (j.elements below) [ none ↦ [] | some vs ↦ take bound vs ]
  ]

  -- The loop over the wires of a node, over the nodes of a zone, and over the zones.
  unfoldable pub list_wires : ℕ → List Json → List CString → Option (List CString)
  list_wires slots [] keys = some keys
  list_wires slots (v ∷ vs) keys =
      if j.is_object v
      then put_key slots keys (text_of (j.member v (codes "key"))) >>= list_wires slots vs
      else list_wires slots vs keys

  unfoldable pub list_nodes : ℕ → List Json → List CString → Option (List CString)
  list_nodes slots [] keys = some keys
  list_nodes slots (v ∷ vs) keys =
      list_wires slots (nodes_below max_wires v) keys >>= list_nodes slots vs

  unfoldable pub list_zones : ℕ → List Json → List CString → Option (List CString)
  list_zones slots [] keys = some keys
  list_zones slots (v ∷ vs) keys =
      list_nodes slots (nodes_below max_nodes v) keys >>= list_zones slots vs

  unfoldable pub list_root : ℕ → Option Json → Option (List CString)
  list_root slots none = some []
  list_root slots (some node) = list_zones slots (nodes_below max_zones node) []

  -- etcd_getEndpoints into an array of so many slots: it returns true if there is a key.
  unfoldable pub etcd_get_endpoints : ℕ → Perform → Server → CString → Option (Bool × List CString)
  etcd_get_endpoints slots perform s directory = do
    root ← document (perform get (url s directory (codes "?recursive=true")) none)
    keys ← list_root slots (member_of root (codes "node"))
    some (not (ltb (length keys) 1), keys)

  -- etcd_set, for a ttl of at least 0: whether etcd has answered with the value
  unfoldable pub etcd_set : Perform → Server → CString → CString → ℕ → Bool → Option Bool
  etcd_set perform s key value ttl exists = do
    body ← content value ttl exists
    root ← document (perform put (url s key []) (some body))
    some (elim (text_of (member_of (member_of root (codes "node")) (codes "value"))) [
      | none ↦ false
      | some answer ↦ same_text answer value
    ])

  -- etcd_del
  unfoldable pub etcd_del : Perform → Server → CString → Option Bool
  etcd_del perform s key = do
    root ← document (perform delete (url s key (codes "?recursive=true")) none)
    some (there (member_of root (codes "node")))
