-- ===== src/Watcher/Lifecycle.antt =====
-- etcdWatcher_create and etcdWatcher_destroy.
use node_wiring_secure.Base.{
  ℕ, ◌%◌, ◌^◌, Bool, true, false, CString, codes, Option, none, some, ◌>>=◌, if◌then◌else◌, ltb,
}
use node_wiring_secure.Celix.{Status, success, bundle_exception, enomem, is_success}
use node_wiring_secure.Celix.Numbers.{whole_long}
use node_wiring_secure.Listener.{Framework}
use node_wiring_secure.Discovery.{Discovery, or_default}
use node_wiring_secure.Watcher.{local_node_path}
use node_wiring_secure.Watcher.Running.{Setup, publish_own}
use node_wiring_secure.Etcd.{Jansson, Perform, Server, etcd_del}

-- A property that is read as an `int`, which is kept by its 32 bits.
unfoldable pub configured_number : ℕ → Option CString → ℕ
configured_number default none = default
configured_number default (some text) = elim (whole_long text) [
  | none ↦ default
  | some n ↦ n % 2 ^ 32
]

-- The server that etcdWatcher_create takes, by the properties for the address and the port.
unfoldable pub configured_server : Option CString → Option CString → Server
configured_server ip port = record {
  server = or_default ip (codes "127.0.0.1");
  port = configured_number 4001 port;
}

-- The time to live in etcdWatcher_addOwnNode; etcd_set treats a negative one as 0.
unfoldable pub configured_ttl : Option CString → ℕ
configured_ttl text = let ttl = configured_number 30 text in if ltb ttl (2 ^ 31) then ttl else 0

-- What Celix answers while the watcher is made: whether there is memory, whether curl starts, and the
-- status of making the mutex, locking it, making the thread, and unlocking the mutex.
pub record Start : Type 0 where
  pub allocated : Bool
  pub curl_starts : Bool
  pub made : Status
  pub locked : Status
  pub threaded : Status
  pub unlocked : Status

-- The status, and whether the watcher is running.
unfoldable pub start_thread : Start → Status × Bool
start_thread a =
    if is_success a.made
    then if is_success a.locked
      then if is_success a.threaded then (a.unlocked, true) else (a.threaded, false)
      else (a.locked, false)
    else (a.made, false)

module _ {Json : Type 0} (j : Jansson Json) (f : Framework) (c : Setup) (perform : Perform) where
  -- etcdWatcher_create, for a node discovery that is there or not
  unfoldable pub create_watcher : Option Discovery → Start → Option (Status × Bool)
  create_watcher none a = some (bundle_exception, false)
  create_watcher (some s) a =
      if a.allocated
      then if a.curl_starts
        then (do answers ← publish_own j f c perform s; some (start_thread a))
        else some (bundle_exception, false)
      else some (enomem, false)

  -- etcdWatcher_destroy, after the thread has ended: its status, and whether etcd has deleted the node
  unfoldable pub destroy_watcher : Discovery → Option (Status × Bool)
  destroy_watcher s = do
    path ← local_node_path c.setting.configured s.own_node
    deleted ← etcd_del j perform c.server path
    some (success, deleted)
