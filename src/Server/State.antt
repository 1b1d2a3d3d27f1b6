-- ===== src/Server/State.antt =====
-- The state that the managers of the server share (server/src/server.hpp), the sessions they talk
-- to, and what they send without waiting for an answer.
use squid_storage.Prelude.{ℕ, Bool, Option, List}
use squid_storage.Prelude.Key.{Bytes, bytes_key}
use squid_storage.Prelude.Int.{ℤ}
use squid_storage.Prelude.Map.{Map}
use squid_storage.Protocol.Frame.{Message}

-- A `shared_ptr<ConnectionSession>`: null, or the number of a session.
abbrev pub SessionPtr : Type 0
SessionPtr = Option ℕ

-- The calls that wait for the answer of a data node.
pub data Call : Type 0 where
  sync_status heartbeat : Call
  read_file delete_file : Bytes → Call
  create_file update_file : Bytes → ℤ → Bytes → Call

-- What the sessions do during one operation: whether each is alive when it is its turn, what it
-- answers to a call, and the bytes that come with the answer to `read_file`.
pub record Net : Type 0 where
  pub is_alive : ℕ → Bool
  pub answer : ℕ → Call → Message
  pub bytes_read : ℕ → Bytes → Bytes

-- `post`, which does not wait: pushes to clients, deletions that undo a creation, and the notice
-- of an expired lock; and the deltas for the standby servers.
pub data Effect : Type 0 where
  push_create push_update : ℕ → Bytes → ℤ → Bytes → Effect
  push_delete release_notice undo_create : ℕ → Bytes → Effect
  delta : ℕ → Bytes → ℤ → List Bytes → Effect

-- common/src/filesystem/filelock.hpp. Times are in nanoseconds.
pub record FileLock : Type 0 where
  pub locked : Bool
  pub client_holder : Bytes
  pub file_path : Bytes
  pub expiration_time : ℕ

-- The endpoint maps, the lock map, the map of holders (`dataNodeReplicationMap_`), the map of
-- versions (`persistedVersionMap_`), the text of the version file under `.squid`, which the file
-- manager and the state manager both write, and the names that the holder file has.
pub record State : Type 0 where
  pub replication_factor : ℕ
  pub data_nodes : Map Bytes SessionPtr
  pub clients : Map Bytes SessionPtr
  pub locks : Map Bytes FileLock
  pub holders : Map Bytes (Map Bytes SessionPtr)
  pub versions : Map Bytes ℤ
  pub version_file : Bytes
  pub holder_file : Map Bytes (List Bytes)
  pub has_standby : Bool
