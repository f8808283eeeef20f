-- ===== src/Discovery/Run.antt =====
-- The discovery over time: a sequence of callbacks from the etcd watcher, the topology manager and
-- the service tracker, and what a listener has been told when it is over.
use node_wiring_secure.Base.{
  ℕ, ◌+◌, Bool, true, CString, same_text, List, [], ◌∷◌, ◌++◌, Option, none, some, ◌>>=◌, ◌≡◌,
  count, arith, count-append, append-nil,
}
use node_wiring_secure.Celix.{Status}
use node_wiring_secure.Celix.HashMap.{Map, lookup, insert}
use node_wiring_secure.Endpoint.{Endpoint}
use node_wiring_secure.Discovery.{
  Discovery, NodeDescription, Handled, add_node, remove_node, node, put_node, known, known_of,
  wiring_endpoint_added, wiring_endpoint_removed, listener_added, listener_removed,
  listener_modified,
}
use node_wiring_secure.Discovery.Listening.{Event, Framework, rsa_key, node_destroyed}
use node_wiring_secure.Discovery.Wires.{fresh, without_wires, merge_events, withdraw_events}
use node_wiring_secure.Discovery.Loops.{announce}
use node_wiring_secure.Discovery.Knowledge.{with_endpoints}
use node_wiring_secure.Discovery.Notices.{
  additions, removals, is_addition, is_removal, heard, times, announce_added, merge_counts,
  withdraw_counts,
}

pub data Input : Type 0 where
  node_found node_lost : NodeDescription → Input
  exported revoked : Endpoint → Input
  listener_came listener_changed listener_went : ℕ → Input

abbrev pub without_status : Option (Status × Discovery × List Event) → Handled
without_status none = none
without_status (some (c, s, ev)) = some (s, ev)

unfoldable pub step : Framework → Discovery → Input → Handled
step f s (node_found d) = add_node f s d
step f s (node_lost d) = remove_node f s d
step f s (exported e) = without_status (wiring_endpoint_added s e)
step f s (revoked e) = without_status (wiring_endpoint_removed s e)
step f s (listener_came r) = some (listener_added f s r)
step f s (listener_changed r) = some (listener_modified f s r)
step f s (listener_went r) = some (listener_removed s r)

unfoldable pub run : Framework → Discovery → List Input → Handled
run f s [] = some (s, [])
run f s (i ∷ is) = do (t, ev) ← step f s i; (u, later) ← run f t is; some (u, ev ++ later)

endpoints_of : Option NodeDescription → List Endpoint
endpoints_of none = []
endpoints_of (some d) = d.endpoints

count-known_of-insert :
    (q : Endpoint → Bool) (k : CString) (d : NodeDescription) (m : Map CString NodeDescription)
    → count q (known_of (insert same_text k d m)) + count q (endpoints_of (lookup same_text k m))
      ≡ count q (known_of m) + count q d.endpoints
unfolding known_of insert lookup endpoints_of
count-known_of-insert q k d [] = rw append-nil (omega arith)
count-known_of-insert q k d ((j, c) ∷ m) = ground (
  arith,
  count-known_of-insert q k d m,
  count-append q c.endpoints (known_of m),
  count-append q d.endpoints (known_of m),
  count-append q c.endpoints (known_of (insert same_text k d m)),
)

-- What the callbacks of listener `r` add up to from `s` to `t`: an addition for each endpoint that
-- became known, and a removal for each that is known no more.
abbrev pub Balanced : Framework → ℕ → Discovery → List Event → Discovery → Type 0
Balanced f r s ev t =
    (p : Endpoint → Bool)
    → additions r p ev + count (heard f r p) (known s)
      ≡ removals r p ev + count (heard f r p) (known t)

count-known-put_node :
    (q : Endpoint → Bool) (s : Discovery) (k : CString) (o : Option NodeDescription)
    (d : NodeDescription)
    → node s k ≡ o
    → count q (known (put_node s k d)) + count q (endpoints_of o)
      ≡ count q (known s) + count q d.endpoints
count-known-put_node q s k o d found = rw (← found) (count-known_of-insert q k d s.discovered_nodes)

-- A listener that is registered once, and is no remote service admin.
pub record Hears (f : Framework) (r : ℕ) (s : Discovery) : Type 0 where
  pub present : times r s.listeners ≡ 1
  pub not_rsa : f.property r rsa_key ≡ none

module _ (f : Framework) (r : ℕ) (s : Discovery) (l : Hears f r s) where
  pub add_node_new-Balanced :
      (d : NodeDescription)
      → node s d.node_id ≡ none
      → Balanced f r s (announce f s.listeners d.endpoints true) (put_node s d.node_id d)
  unfolding endpoints_of count
  add_node_new-Balanced d new p = omega (
    arith,
    announce_added f r p s.listeners l.present l.not_rsa d.endpoints,
    count-known-put_node (heard f r p) s d.node_id none d new,
  )

  pub add_node_known-Balanced :
      (d old : NodeDescription)
      → node s d.node_id ≡ some old
      → Balanced f r s
          (merge_events f s.listeners d.endpoints old.endpoints ++ (node_destroyed d.node_id ∷ []))
          (put_node s d.node_id
            (with_endpoints old (old.endpoints ++ fresh d.endpoints old.endpoints)))
  unfolding endpoints_of count is_addition is_removal
  add_node_known-Balanced d old found p =
      let es : List Endpoint = old.endpoints ++ fresh d.endpoints old.endpoints in
      let ev = merge_events f s.listeners d.endpoints old.endpoints in
      omega (
        arith,
        merge_counts f r p s.listeners l.present l.not_rsa d.endpoints old.endpoints,
        count-known-put_node (heard f r p) s d.node_id (some old) (with_endpoints old es) found,
        count-append (heard f r p) old.endpoints (fresh d.endpoints old.endpoints),
        count-append (is_addition r p) ev (node_destroyed d.node_id ∷ []),
        count-append (is_removal r p) ev (node_destroyed d.node_id ∷ []),
      )

  pub remove_node_known-Balanced :
      (d old : NodeDescription)
      → node s d.node_id ≡ some old
      → Balanced f r s
          (withdraw_events f s.listeners d.endpoints old.endpoints)
          (put_node s d.node_id (with_endpoints old (without_wires d.endpoints old.endpoints)))
  unfolding endpoints_of
  remove_node_known-Balanced d old found p =
      let es : List Endpoint = without_wires d.endpoints old.endpoints in
      omega (
        arith,
        withdraw_counts f r p s.listeners l.present d.endpoints old.endpoints,
        count-known-put_node (heard f r p) s d.node_id (some old) (with_endpoints old es) found,
      )
