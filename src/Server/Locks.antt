-- ===== src/Server/Locks.antt =====
-- server/src/lock_manager.cpp and common/src/filesystem/filelock.cpp. The clock is an argument.
pub mod Rebuild
pub mod Reports
pub mod Exclusion
pub mod Expiry
mod Examples
pub mod Traces
use squid_storage.Prelude.{
  ℕ, ◌+◌, ◌*◌, ◌^◌, Bool, true, false, ◌&&◌, ltb, if◌then◌else◌, Option, none, some, List, [], ◌∷◌,
  ◌++◌,
}
use squid_storage.Prelude.Key.{Bytes, bytes_key}
use squid_storage.Prelude.Int.{ℤ, negsuc, ltz}
use squid_storage.Prelude.Map.{Map, find, assign, erase, insert}
use squid_storage.Protocol.Message.{is_response, get_file_version_map}
use squid_storage.Filesystem.VersionFile as VersionFile
use squid_storage.Server.State.{
  SessionPtr, Net, sync_status, Effect, release_notice, FileLock, State,
}

-- `FileLock(path)`.
abbrev pub file_lock : Bytes → ℕ → FileLock
file_lock path now = record {
  locked = false;
  client_holder = [];
  file_path = path;
  expiration_time = now;
}

-- `chrono::minutes(DEFAULT_LOCK_INTERVAL)`.
abbrev pub lock_interval : ℕ
lock_interval = 5 * 60 * 10 ^ 9

-- `FileManager::getFileVersion` and `setFileVersion`.
abbrev pub stored_version : Bytes → State → ℤ
stored_version path st = VersionFile.get_file_version path st.version_file

abbrev pub store_version : Bytes → ℤ → State → State
store_version path v st = record st {
  version_file = VersionFile.set_file_version path v st.version_file;
}

-- The inner loop of `buildFileLockMap`, over the map that one data node reports.
unfoldable pub add_reported : ℕ → Map Bytes ℤ → State → State
unfolding find assign insert
add_reported now [] st = st
add_reported now ((path, v) ∷ m) st =
    let added = record st { locks = insert path (file_lock path now) st.locks } in
    add_reported now m
      (if ltz (stored_version path added) v then store_version path v added else added)

unfoldable pub add_node : Net → ℕ → SessionPtr → State → State
unfolding add_reported
add_node net now none st = st
add_node net now (some s) st =
    let files = net.answer s sync_status in
    if net.is_alive s
    then (if is_response files then add_reported now (get_file_version_map files) st else st)
    else st

-- The outer loop, over the data nodes that were connected when it began.
unfoldable pub add_nodes : Net → ℕ → Map Bytes SessionPtr → State → State
unfolding add_node
add_nodes net now [] st = st
add_nodes net now ((name, s) ∷ nodes) st = add_nodes net now nodes (add_node net now s st)

unfoldable pub build_file_lock_map : Net → ℕ → State → State
unfolding add_nodes
build_file_lock_map net now st = add_nodes net now st.data_nodes st

-- The map is rebuilt only if it has no entry for the path.
unfoldable pub ensure_entry : Net → ℕ → Bytes → State → State
ensure_entry net now path st = elim (find path st.locks) [
  | none ↦ build_file_lock_map net now st
  | some l ↦ st
]

unfoldable pub take_lock : ℕ → Bytes → Bytes → FileLock → State → State × Bool
take_lock now path client l st = if l.locked then (st, false) else (
  record st {
    locks =
        assign path
          (record l {
            locked = true;
            client_holder = client;
            expiration_time = now + lock_interval;
          })
          st.locks;
  },
  true,
)

unfoldable pub acquire_lock : Net → ℕ → Bytes → Bytes → State → State × Bool
acquire_lock net now path client st =
    let ready = ensure_entry net now path st in
    elim (find path ready.locks) [
      | none ↦ (ready, false)
      | some l ↦ take_lock now path client l ready
    ]

abbrev pub unlock : Bytes → FileLock → State → State
unlock path l st = record st { locks = assign path (record l { locked = false }) st.locks }

-- A path with no entry is not released, also if the rebuilt map has one.
unfoldable pub release_lock : Net → ℕ → Bytes → State → State × Bool
release_lock net now path st = elim (find path st.locks) [
  | none ↦ (build_file_lock_map net now st, false)
  | some l ↦ (unlock path l st, true)
]

-- The first half of `checkFileLockExpiration`, under the shared lock: paths and their holders.
unfoldable pub expired_locks : ℕ → Map Bytes FileLock → List (Bytes × Bytes)
expired_locks now [] = []
expired_locks now ((path, l) ∷ m) =
    if l.locked && ltb l.expiration_time now
    then (path, l.client_holder) ∷ expired_locks now m
    else expired_locks now m

abbrev pub notice : Bytes → Option SessionPtr → List Effect
notice path (some (some s)) = release_notice s path ∷ []
notice path _ = []

-- One round of the second half: the holder is told, and the lock is opened as it then stands.
unfoldable pub release_one : Bytes × Bytes → State → State × List Effect
release_one (path, holder) st =
    let told = notice path (find holder st.clients) in
    elim (find path st.locks) [ none ↦ (st, told) | some l ↦ (unlock path l st, told) ]

unfoldable pub release_expired : List (Bytes × Bytes) → State → State × List Effect
release_expired [] st = (st, [])
release_expired (e ∷ es) st =
    let (next, told) = release_one e st in
    let (last, more) = release_expired es next in (last, told ++ more)

unfoldable pub check_file_lock_expiration : ℕ → State → State × List Effect
check_file_lock_expiration now st = release_expired (expired_locks now st.locks) st

unfoldable pub insert_lock : ℕ → Bytes → State → State
insert_lock now path st = record st { locks = insert path (file_lock path now) st.locks }

unfoldable pub erase_lock : Bytes → State → State
erase_lock path st = record st { locks = erase path st.locks }
