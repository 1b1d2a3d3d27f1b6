-- ===== src/Server/Replication.antt =====
-- server/src/replication_manager.cpp: which data nodes hold a file, and how a write reaches them.
-- One operation runs whole; what the sessions answer meanwhile is its argument `net`.
pub mod Calls
pub mod Votes
pub mod Told
pub mod Create
pub mod Update
pub mod Delete
pub mod Read
pub mod Register
pub mod VersionMap
pub mod Rebalance
mod Examples
use squid_storage.Prelude.{
  ℕ, suc, ◌+◌, ◌/◌, ◌<◌, min, Bool, true, false, not, ◌&&◌, ◌||◌, ltb, leb, if◌then◌else◌, Option,
  none, some, List, [], ◌∷◌, ◌++◌, map,
}
use squid_storage.Prelude.Lists.{length}
use squid_storage.Prelude.Key.{Bytes, bytes_key, bytes_eq}
use squid_storage.Prelude.Int.{ℤ, pos, negsuc, ltz, lez, succz, maxz, of_u32}
use squid_storage.Prelude.Map.{Map, find, assign, erase}
use squid_storage.Protocol.Opcode.{file_version}
use squid_storage.Protocol.Message.{is_ack, get_uint32, get_file_version_map}
use squid_storage.Filesystem.StateFile.{save_version_map}
use squid_storage.Filesystem.VersionFile.{drop_file_version}
use squid_storage.Server.State.{
  SessionPtr, Call, sync_status, heartbeat, read_file, delete_file, create_file, update_file, Net,
  Effect, push_create, push_update, push_delete, undo_create, delta, State,
}
use squid_storage.Server.Locks.{store_version, stored_version, insert_lock, erase_lock}

-- `quorum_`.
abbrev pub quorum : State → ℕ
quorum st = st.replication_factor / 2 + 1

-- The loops that call every live data node in turn and keep those that acknowledge.
unfoldable pub acked_by : Net → Call → Map Bytes SessionPtr → List (Bytes × ℕ)
acked_by net c [] = []
acked_by net c ((name, none) ∷ nodes) = acked_by net c nodes
acked_by net c ((name, some s) ∷ nodes) =
    let rest = acked_by net c nodes in
    if net.is_alive s && is_ack (net.answer s c) then (name, s) ∷ rest else rest

-- The loops that notify every client but the one that made the change.
unfoldable pub notify : (ℕ → Effect) → Bytes → Map Bytes SessionPtr → List Effect
notify push origin [] = []
notify push origin ((name, none) ∷ clients) = notify push origin clients
notify push origin ((name, some s) ∷ clients) =
    let rest = notify push origin clients in if bytes_eq name origin then rest else push s ∷ rest

-- `dataNodeReplicationMap_[filePath]`, which is an empty map where there is no entry.
abbrev pub holders_of : Bytes → State → Map Bytes SessionPtr
holders_of path st = elim (find path st.holders) [ none ↦ [] | some m ↦ m ]

-- `dataNodeReplicationMap_[filePath][name] = session`.
abbrev pub hold : Bytes → Bytes → SessionPtr → State → State
hold path name s st = record st {
  holders = assign path (assign name s (holders_of path st)) st.holders;
}

unfoldable pub hold_all : Bytes → List (Bytes × ℕ) → State → State
hold_all path [] st = st
hold_all path ((name, s) ∷ nodes) st = hold_all path nodes (hold path name (some s) st)

-- `buildPersistableRepMap`.
unfoldable pub persistable : Map Bytes (Map Bytes SessionPtr) → Map Bytes (List Bytes)
persistable [] = []
persistable ((path, holders) ∷ m) = (path, map (λ e. e.0) holders) ∷ persistable m

unfoldable pub persist_state : State → State
persist_state st = record st {
  version_file = save_version_map st.versions;
  holder_file = persistable st.holders;
}

abbrev pub set_version : Bytes → ℤ → State → State
set_version path v st = record st { versions = assign path v st.versions }

abbrev pub delta_for : ℕ → Bytes → ℤ → List Bytes → State → List Effect
delta_for op path v names st = if st.has_standby then delta op path v names ∷ [] else []

-- What a creation does once its quorum is met.
unfoldable pub commit_create : ℕ → Bytes → ℤ → List (Bytes × ℕ) → State → State
commit_create now path v acked st =
    persist_state
      (store_version path v (insert_lock now path (set_version path v (hold_all path acked st))))

unfoldable pub propagate_create_file :
    Net → ℕ → Bytes → ℤ → Bytes → Bytes → State → State × List Effect × Bool
propagate_create_file net now path v origin file_data st =
    let acked = acked_by net (create_file path v file_data) st.data_nodes in
    if ltb (length acked) (quorum st)
    then (st, map (λ node. undo_create node.1 path) acked, false)
    else (
      commit_create now path v acked st,
      delta_for 0 path v (map (λ node. node.0) acked) st
          ++ notify (λ s. push_create s path v file_data) origin st.clients,
      true,
    )

-- The version an update gives: one more than the server's, or than the client's if it has none.
abbrev pub next_version : Bytes → ℤ → State → ℤ
next_version path seen st = succz (elim (find path st.versions) [ none ↦ seen | some v ↦ v ])

unfoldable pub commit_update : Bytes → ℤ → State → State
commit_update path v st = persist_state (store_version path v (set_version path v st))

-- The result is the new version, or -1.
unfoldable pub propagate_update_file :
    Net → Bytes → ℤ → Bytes → Bytes → State → State × List Effect × ℤ
propagate_update_file net path seen origin file_data st =
    let v = next_version path seen st in
    let nodes = holders_of path st in
    let acked = acked_by net (update_file path v file_data) nodes in
    if ltb (length acked) (min (quorum st) (length nodes)) then (st, [], negsuc 0) else (
      commit_update path v st,
      delta_for 0 path v (map (λ e. e.0) nodes) st
          ++ notify (λ s. push_update s path v file_data) origin st.clients,
      v,
    )

-- `total`: the live holders that are asked.
unfoldable pub asked : Net → Map Bytes SessionPtr → ℕ
asked net [] = 0
asked net ((name, none) ∷ nodes) = asked net nodes
asked net ((name, some s) ∷ nodes) =
    let rest = asked net nodes in if net.is_alive s then suc rest else rest

-- `deleteFileAndVersion` removes the version if the server's own disk has the file.
abbrev pub drop_version : Bool → Bytes → State → State
drop_version true path st = record st { version_file = drop_file_version path st.version_file }
drop_version false path st = st

unfoldable pub commit_delete : Bool → Bytes → State → State
commit_delete on_disk path st =
    let locked = erase_lock path st in
    persist_state (
      drop_version on_disk path (record locked {
        holders = erase path locked.holders;
        versions = erase path locked.versions;
      }))

unfoldable pub propagate_delete_file : Net → Bool → Bytes → Bytes → State → State × List Effect
propagate_delete_file net on_disk path origin st =
    let nodes = holders_of path st in
    let total = asked net nodes in
    let acks = length (acked_by net (delete_file path) nodes) in
    if ltb 0 total && ltb acks (min (quorum st) total) then (st, []) else (
      commit_delete on_disk path st,
      notify (λ s. push_delete s path) origin st.clients ++ delta_for 1 path (pos 0) [] st,
    )

-- The sessions of the holders that are alive.
unfoldable pub live_holders : Net → Map Bytes SessionPtr → List ℕ
live_holders net [] = []
live_holders net ((name, none) ∷ m) = live_holders net m
live_holders net ((name, some s) ∷ m) =
    let rest = live_holders net m in if net.is_alive s then s ∷ rest else rest

abbrev pub known_version : Bytes → State → ℤ
known_version path st = elim (find path st.versions) [ none ↦ negsuc 0 | some v ↦ v ]

-- The version that comes with the bytes of a file.
abbrev pub got_version : Net → ℕ → Bytes → ℤ
got_version net s path = of_u32 (get_uint32 (net.answer s (read_file path)) file_version 0)

-- The first holder that answers with a version that is not too old; `none` where `false` is returned.
unfoldable pub read_from : Net → Bytes → ℤ → List ℕ → Option Bytes
read_from net path expected [] = none
read_from net path expected (s ∷ rest) =
    let more = read_from net path expected rest in
    if is_ack (net.answer s (read_file path))
    then (if ltz expected (pos 0) || lez expected (got_version net s path)
        then some (net.bytes_read s path)
        else (elim rest [ [] ↦ none | t ∷ ts ↦ more ]))
    else more

unfoldable pub get_file_from_data_node : Net → Bytes → State → Option Bytes
get_file_from_data_node net path st =
    read_from net path (known_version path st) (live_holders net (holders_of path st))

-- One round of the loop of `registerDataNodeFiles`.
unfoldable pub register_one : Bytes → SessionPtr → Bytes → ℤ → State → State
register_one name s path v st =
    let held = hold path name s st in
    let best : ℤ = elim (find path held.versions) [ none ↦ pos 0 | some w ↦ w ] in
    if ltz best v then store_version path v (set_version path v held) else held

unfoldable pub register_files : Bytes → SessionPtr → Map Bytes ℤ → State → State
register_files name s [] st = st
register_files name s ((path, v) ∷ m) st = register_files name s m (register_one name s path v st)

unfoldable pub register_data_node_files : Bytes → SessionPtr → Map Bytes ℤ → State → State
register_data_node_files name s m st = persist_state (register_files name s m st)

-- The inner loop of `getFileVersionMap`: the higher version wins.
unfoldable pub merge_one : Bytes → ℤ → Map Bytes ℤ → Map Bytes ℤ
merge_one path v known = elim (find path known) [
  | none ↦ assign path v known
  | some w ↦ assign path (maxz w v) known
]

unfoldable pub merge_versions : Map Bytes ℤ → Map Bytes ℤ → Map Bytes ℤ
merge_versions [] known = known
merge_versions ((path, v) ∷ m) known = merge_versions m (merge_one path v known)

-- The outer loop, over the data nodes that are alive.
unfoldable pub merge_reports : Net → Map Bytes SessionPtr → Map Bytes ℤ → Map Bytes ℤ
merge_reports net [] known = known
merge_reports net ((name, none) ∷ nodes) known = merge_reports net nodes known
merge_reports net ((name, some s) ∷ nodes) known = merge_reports net nodes (
    if net.is_alive s
    then merge_versions (get_file_version_map (net.answer s sync_status)) known
    else known)

unfoldable pub file_version_map : Net → State → Map Bytes ℤ
file_version_map net st = merge_reports net st.data_nodes st.versions
