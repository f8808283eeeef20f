-- ===== src/Etcd/Watching.antt =====
-- etcd_watch of node_discovery/private/src/etcd.c.
use node_wiring_secure.Base.{
  ℕ, ◌%◌, ◌^◌, CString, codes, [], ◌++◌, Option, none, some, ◌>>=◌, if◌then◌else◌, ◌==◌,
}
use node_wiring_secure.Codec.{fit, max_value_length}
use node_wiring_secure.Etcd.{
  print_int, Jansson, Perform, Server, get, url, document, member_of, text_of, max_key_length,
  max_action_length,
}

-- What etcd_watch leaves: the key and the action, if it returns true, the value and the previous value
-- where they are texts, and the index.
pub record Report : Type 0 where
  pub change : Option (CString × CString)
  pub value : Option CString
  pub previous : Option CString
  pub modified_index : ℕ

-- A text that is copied if it is there.
unfoldable pub copy_if : ℕ → Option CString → Option (Option CString)
copy_if size none = some none
copy_if size (some s) = do text ← fit size s; some (some text)

abbrev pub index_or : ℕ → Option ℕ → ℕ
index_or index none = index
index_or index (some n) = n % 2 ^ 32

-- The key and the action are copied only if both are texts.
unfoldable pub copy_change : Option CString → Option CString → Option (Option (CString × CString))
copy_change (some k) (some a) = do
  key ← fit max_key_length k
  action ← fit max_action_length a
  some (some (key, action))
copy_change _ _ = some none

-- The query of etcd_watch.
unfoldable pub watch_query : ℕ → CString
watch_query index =
    codes "?wait=true&recursive=true"
    ++ (if index == 0 then [] else codes "&waitIndex=" ++ print_int index)

module _ {Json : Type 0} (j : Jansson Json) where
  abbrev pub integer_of : Option Json → Option ℕ
  integer_of none = none
  integer_of (some v) = j.integer v

  -- What etcd_watch reads from a reply that curl has.
  unfoldable pub watch_reply : ℕ → Option Json → Option Report
  watch_reply index root = do
    let node = member_of j root (codes "node")
    previous ←
        copy_if max_value_length
          (text_of j (member_of j (member_of j root (codes "prevNode")) (codes "value")))
    value ← copy_if max_value_length (text_of j (member_of j node (codes "value")))
    change ←
        copy_change (text_of j (member_of j node (codes "key")))
          (text_of j (member_of j root (codes "action")))
    some (record {
      change = change;
      value = value;
      previous = previous;
      modified_index = index_or index (integer_of (member_of j node (codes "modifiedIndex")));
    })

  -- etcd_watch: `none` inside is a reply that curl does not have, which leaves everything as it is.
  unfoldable pub etcd_watch : Perform → Server → CString → ℕ → Option (Option Report)
  etcd_watch perform s key index = elim (perform get (url s key (watch_query index)) none) [
    | none ↦ some none
    | some parts ↦ do
      root ← document j (some parts)
      report ← watch_reply index root
      some (some report)
  ]
