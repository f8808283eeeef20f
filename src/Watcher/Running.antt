-- ===== src/Watcher/Running.antt =====
-- The loop of etcdWatcher_run. A time is what time(NULL) returns, in seconds.
pub mod Outage
pub mod SlashRoot
use node_wiring_secure.Base.{
  ℕ, ◌+◌, ◌-◌, ◌*◌, ◌%◌, ◌^◌, Bool, true, false, CString, List, [], ◌∷◌, ◌++◌, Option, none, some,
  ◌>>=◌, if◌then◌else◌, ltb, leb,
}
use node_wiring_secure.Listener.{Framework}
use node_wiring_secure.Discovery.{Discovery}
use node_wiring_secure.Discovery.Listening.{Event}
use node_wiring_secure.Watcher.{
  Setting, Change, is_set, root_path, add_own_node, handle, add_existing,
}
use node_wiring_secure.Etcd.{
  Jansson, Perform, Server, max_nodes, etcd_get, etcd_get_endpoints, etcd_set,
}
use node_wiring_secure.Etcd.Watching.{Report, etcd_watch}

-- DEFAULT_ETCD_TTL / 4
abbrev pub quarter : ℕ
quarter = 7

-- What the watcher runs with: etcd_server and etcd_port, the time to live, and what the buffer for
-- the values of the own node holds.
pub record Setup : Type 0 where
  pub setting : Setting
  pub server : Server
  pub ttl : ℕ
  pub stack : CString

-- The `int` -1, by its 32 bits.
abbrev pub minus_one : ℕ
minus_one = 2 ^ 32 - 1

-- a > b, of two `int`s by their 32 bits
unfoldable pub is_higher : ℕ → ℕ → Bool
is_higher a b = ltb ((b + 2 ^ 31) % 2 ^ 32) ((a + 2 ^ 31) % 2 ^ 32)

-- A key, with the value and the index that etcd_get has for it.
abbrev pub Entry : Type 0
Entry = CString × Option (CString × ℕ)

abbrev pub index_at : Entry → ℕ
index_at (key, none) = 0
index_at (key, some (value, index)) = index

abbrev pub value_at : Entry → CString × Option CString
value_at (key, none) = (key, none)
value_at (key, some (value, index)) = (key, some value)

abbrev pub values_at : List Entry → List (CString × Option CString)
values_at [] = []
values_at (e ∷ es) = value_at e ∷ values_at es

unfoldable pub highest_of : ℕ → List Entry → ℕ
highest_of highest [] = highest
highest_of highest (e ∷ es) =
    highest_of (if is_higher (index_at e) highest then index_at e else highest) es

-- One round of the loop: what curl answers to the watch, to the sets, to the listing and to the gets of
-- the round, and the time after the watch, at the end of the wait, and at the end of the round.
pub record Pass : Type 0 where
  pub watching : Perform
  pub publishing : Perform
  pub listing : Perform
  pub reading : Perform
  pub watched_at : ℕ
  pub checked_at : ℕ
  pub synced_at : ℕ

-- The state of the loop: highestModified by its 32 bits, and timeBeforeWatch.
pub record State : Type 0 where
  pub discovery : Discovery
  pub highest : ℕ
  pub before : ℕ

abbrev pub is_late : ℕ → ℕ → Bool
is_late now before = ltb quarter (now - before)

-- sleep(DEFAULT_ETCD_TTL / 4), if the watch has not reported anything
abbrev pub sleeps : Bool → ℕ → ℕ → Bool
sleeps true now before = false
sleeps false now before = leb (now - before) quarter

-- The value of a report is read if the action is a set, and was never written if etcd gave none.
unfoldable pub change_of : CString × CString → Option CString → Option Change
change_of (key, action) (some value) = some (record { action = action; key = key; value = value })
change_of (key, action) none =
    if is_set action then none else some (record { action = action; key = key; value = [] })

module _ {Json : Type 0} (j : Jansson Json) (f : Framework) (c : Setup) where
  unfoldable pub read_each : Perform → List CString → Option (List Entry)
  read_each perform [] = some []
  read_each perform (key ∷ keys) = do
    found ← etcd_get j perform c.server key
    rest ← read_each perform keys
    some ((key, found) ∷ rest)

  -- etcdWatcher_addAlreadyExistingNodes, without its status, which is not looked at
  unfoldable pub add_already_existing_nodes :
      Perform → Perform → Discovery → Option (Discovery × ℕ × List Event)
  add_already_existing_nodes listing reading s = do
    root ← root_path c.setting.configured
    (found, keys) ← etcd_get_endpoints j max_nodes listing c.server root
    entries ← read_each reading keys
    (s', events) ← add_existing f c.setting s (values_at entries)
    some (s', highest_of minus_one entries, events)

  -- The calls of etcd_set in etcdWatcher_addOwnNode, with their answers, which are not looked at.
  unfoldable pub set_each : Perform → List (CString × CString) → Option (List Bool)
  set_each perform [] = some []
  set_each perform ((key, value) ∷ sets) = do
    answer ← etcd_set j perform c.server key value c.ttl false
    answers ← set_each perform sets
    some (answer ∷ answers)

  unfoldable pub publish_own : Perform → Discovery → Option (List Bool)
  publish_own perform s = do
    sets ← add_own_node c.setting.configured c.stack s.own_node
    set_each perform sets

  -- What is done with what the watch leaves, and whether it has reported a change.
  unfoldable pub take_report : State → Option Report → Option (Bool × State × List Event)
  take_report s none = some (false, s, [])
  take_report s (some r) = elim r.change [
    | none ↦ some (false, s, [])
    | some told ↦ do
      change ← change_of told r.value
      (d, events) ← handle f c.setting s.discovery change
      some (true, record s { discovery = d; highest = r.modified_index }, events)
  ]

  -- The end of a round: own node and full synchronisation, if the last ones are long ago.
  unfoldable pub synchronise : Pass → State → Option (State × List Event)
  synchronise p s =
      if is_late p.checked_at s.before
      then (do
        sent ← publish_own p.publishing s.discovery
        (d, highest, events) ← add_already_existing_nodes p.listing p.reading s.discovery
        some (record { discovery = d; highest = highest; before = p.synced_at }, events))
      else some (s, [])

  -- The body of the loop: the new state, what the listeners are told, and whether it slept.
  unfoldable pub run_pass : State → Pass → Option (State × List Event × Bool)
  run_pass s p = do
    root ← root_path c.setting.configured
    watched ← etcd_watch j p.watching c.server root ((s.highest + 1) % 2 ^ 32)
    (reported, s1, told) ← take_report s watched
    (s2, more) ← synchronise p s1
    some (s2, told ++ more, sleeps reported p.watched_at s.before)

  -- The loop, as long as the watcher runs.
  unfoldable pub run_passes : State → List Pass → Option (State × List Event × List Bool)
  run_passes s [] = some (s, [], [])
  run_passes s (p ∷ ps) = do
    (s', told, slept) ← run_pass s p
    (last, later, others) ← run_passes s' ps
    some (last, told ++ later, slept ∷ others)

  -- etcdWatcher_run, by what curl answers at its start and the time then
  unfoldable pub run :
      Perform → Perform → ℕ → Discovery → List Pass → Option (State × List Event × List Bool)
  run listing reading now s ps = do
    (d, highest, events) ← add_already_existing_nodes listing reading s
    (last, told, slept) ← run_passes (record { discovery = d; highest = highest; before = now }) ps
    some (last, events ++ told, slept)
