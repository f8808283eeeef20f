-- ===== src/Watcher/Arrival.antt =====
-- From the own node of one discovery to the nodes that another one knows.
use node_wiring_secure.Base.{
  ℕ, ◌≤◌, ◌<◌, true, false, CString, same_text, [], ◌∷◌, ◌++◌, some, length, ◌≡◌, ap, All,
}
use node_wiring_secure.Celix.{Properties, success, is_success}
use node_wiring_secure.Celix.HashMap.{Keyed}
use node_wiring_secure.Endpoint.{wire_id, wire_id_key, get}
use node_wiring_secure.Endpoint.Laws.{create_named}
use node_wiring_secure.Listener.{Framework}
use node_wiring_secure.Codec.{max_value_length}
use node_wiring_secure.Codec.Storing.{text, Fits, store_lem}
use node_wiring_secure.Codec.Loading.{TrimKeeps, load-text}
use node_wiring_secure.Codec.RoundTrip.{NoBlanks, read_back_same}
use node_wiring_secure.Discovery.{Discovery, NodeDescription, create_node, add_node}
use node_wiring_secure.Watcher.{
  Setting, root_path, ends_in_slash, cut, publish_each, add_own_node, load_value, add_found,
  describe, get_wiring_endpoint_from_key, is_set, on_success, handle,
}
use node_wiring_secure.Watcher.Keys.{IsSegment, whole_key, parse_key-local_node_path}

-- The values of a discovery's endpoint that the codec brings through.
abbrev pub IsPublishable : CString × CString → Properties → Type 0
IsPublishable x p =
    All Fits (x ∷ p)
    × Keyed same_text (x ∷ p)
    × NoBlanks (x ∷ p)
    × (length (text (x ∷ p)) < max_value_length)

module _ (c : Setting) (keeps : TrimKeeps c.trim) (x : CString × CString) (p : Properties)
    (w : CString) (sound : IsPublishable x p) (wired : get (x ∷ p) wire_id_key ≡ some w) where
  load_value-text : load_value c.trim (some (text (x ∷ p))) ≡ some (x ∷ p)
  unfolding load_value
  load_value-text =
      let (fits, keyed, plain, short) = sound in
      rw (load-text c.trim keeps (x ∷ p) fits keyed)
        (ap some (read_back_same c.trim keeps (x ∷ p) plain))

  describe_lem :
      (z n : CString)
      → describe c (some (text (x ∷ p))) (some (z, n, w))
        ≡ some (
          success,
          some (record {
            node_id = n;
            zone_id = z;
            endpoints = (record { address = c.address; properties = x ∷ p }) ∷ [];
            properties = [];
          }),
        )
  unfolding describe add_found create_node
  describe_lem z n = rw (load_value-text, create_named c.address c.uuid w (x ∷ p) wired)

  -- Where trimming keeps texts without blanks; an endpoint has a wire id, and properties that the
  -- codec brings through and that fit its buffers; the root path, the same for both, does not end in
  -- '/'; zone, node and wire id have a character and no '/'; and the key has room: what the own node
  -- of one discovery publishes for the endpoint makes the watcher of another, when it sees that set,
  -- add the node with just this endpoint, with the same zone, node id and properties.
  pub handle-add_own_node :
      (f : Framework) (s : Discovery) (own : NodeDescription) (a : ℕ) (before root action : CString)
      → own.endpoints ≡ (record { address = a; properties = x ∷ p }) ∷ []
      → root_path c.configured ≡ some root
      → ends_in_slash root ≡ some false
      → IsSegment own.zone_id
      → IsSegment own.node_id
      → IsSegment w
      → length (whole_key root (47 ∷ []) own w) ≤ 4095
      → is_set action ≡ true
      → (key : CString) × (value : CString) × (add_own_node c.configured before own
          ≡ some ((key, value) ∷ []))
        × (handle f c s (record { action = action; key = 47 ∷ key; value = value })
            ≡ add_node f s (record {
              node_id = own.node_id;
              zone_id = own.zone_id;
              endpoints = (record { address = c.address; properties = x ∷ p }) ∷ [];
              properties = [];
            }))
  unfolding add_own_node publish_each wire_id handle get_wiring_endpoint_from_key on_success
      is_success
  handle-add_own_node f s own a before root action one rooted plain hz hn hw room set =
      let (path, local, parsed) =
        parse_key-local_node_path c.configured own root w rooted room plain hz hn hw in
      (
        cut (path ++ (47 ∷ w)),
        text (x ∷ p),
        rw (local, one, wired, store_lem before x p sound.0 sound.3),
        rw (set, rooted, parsed, describe_lem own.zone_id own.node_id),
      )
