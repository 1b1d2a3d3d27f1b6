-- ===== src/Server/Replication/Examples.antt =====
-- Creations, updates, deletions and reads of a file in a cluster of three data nodes, one of which
-- is silent.
use squid_storage.Prelude.{
  ℕ, ◌≤◌, ◌<◌, ◌≡◌, refl, ◌⊎◌, true, false, ◌==◌, if◌then◌else◌, none, some, [], ◌∷◌, map,
}
use squid_storage.Prelude.Lists.{length}
use squid_storage.Prelude.Key.{Bytes, codes, bytes_key, bytes_eq}
use squid_storage.Prelude.Int.{ℤ, pos, negsuc}
use squid_storage.Prelude.Map.{Map, find}
use squid_storage.Prelude.Map.Laws.{IsOrdered}
use squid_storage.Protocol.Opcode.{file_version}
use squid_storage.Protocol.Frame.{Message}
use squid_storage.Protocol.Message.{local_answer, make_nack, field_uint32, get_file_version_map}
use squid_storage.Server.State.{SessionPtr, sync_status, create_file, Net, undo_create, State}
use squid_storage.Server.Replication.{
  acked_by, holders_of, known_version, next_version, propagate_create_file, propagate_update_file,
  propagate_delete_file, get_file_from_data_node, register_data_node_files, file_version_map,
}
use squid_storage.Server.Replication.Register.{newest, holder_after, register_data_node_files_lem}
use squid_storage.Server.Replication.VersionMap.{Knows, file_version_map_covers}
use squid_storage.Server.Replication.Create.{IsDurable, Created, propagate_create_file_lem}
use squid_storage.Server.Replication.Update.{propagate_update_file_unheld}
use squid_storage.Server.State.{push_create, push_update, push_delete}
use squid_storage.Server.Replication.Told.{Among, writes_tell}
use squid_storage.Server.Replication.Delete.{
  Deleted, live_count, delete_needs, delete_votes, propagate_delete_file_lem,
}
use squid_storage.Server.Replication.Read.{IsLiveHolder, is_current, get_file_from_data_node_lem}

abbrev path : Bytes
path = codes "a"

abbrev ack_at_three : Message
ack_at_three = record (local_answer true) {
  fields = field_uint32 file_version 3 ∷ (local_answer true).fields;
}

-- Session 3 is silent.
abbrev net : Net
net = record {
  is_alive = λ s. true;
  answer = λ s c. if s == 3 then make_nack else ack_at_three;
  bytes_read = λ s p. 7 ∷ [];
}

abbrev nodes : Map Bytes SessionPtr
nodes = (codes "d1", some 1) ∷ (codes "d2", some 2) ∷ (codes "d3", some 3) ∷ []

abbrev start : State
start = record {
  replication_factor = 2;
  data_nodes = nodes;
  clients = (codes "c1", some 4) ∷ (codes "c2", some 5) ∷ [];
  locks = [];
  holders = (codes "b", nodes) ∷ [];
  versions = (codes "b", pos 3) ∷ [];
  version_file = [];
  holder_file = [];
  has_standby = true;
}

nodes-IsOrdered : IsOrdered nodes
nodes-IsOrdered = ((refl, (refl, tt)), ((refl, tt), (tt, tt)))

propagate_create_file_lem_example :
    let acked = acked_by net (create_file path (pos 0) (8 ∷ [])) nodes in
    let done = propagate_create_file net 50 path (pos 0) (codes "c1") (8 ∷ []) start in
    (2 ≤ length acked → (done.2 ≡ true) × Created net path (pos 0) (8 ∷ []) start done.0)
    × (length acked < 2 → done ≡ (start, map (λ node. undo_create node.1 path) acked, false))
propagate_create_file_lem_example =
    propagate_create_file_lem net 50 path (pos 0) (codes "c1") (8 ∷ []) start nodes-IsOrdered

propagate_update_file_unheld_example :
    let v = next_version path (pos 3) start in
    let done = propagate_update_file net path (pos 3) (codes "c1") (8 ∷ []) start in
    (done.2 ≡ v) × (find path done.0.versions ≡ some v) × (holders_of path done.0 ≡ [])
unfolding find
propagate_update_file_unheld_example =
    propagate_update_file_unheld net path (pos 3) (codes "c1") (8 ∷ []) start refl

propagate_delete_file_lem_example :
    let done = propagate_delete_file net true (codes "b") (codes "c1") start in
    ((live_count net (codes "b") start ≡ 0)
        ⊎ (delete_needs net (codes "b") start ≤ delete_votes net (codes "b") start)
      → Deleted (codes "b") start done.0)
    × (0 < live_count net (codes "b") start
        → delete_votes net (codes "b") start < delete_needs net (codes "b") start
        → done ≡ (start, []))
propagate_delete_file_lem_example =
    propagate_delete_file_lem net true (codes "b") (codes "c1") start

get_file_from_data_node_lem_example :
    let expected = known_version (codes "b") start in
    ((bytes : Bytes)
      → get_file_from_data_node net (codes "b") start ≡ some bytes
      → (s : ℕ) × IsLiveHolder net (holders_of (codes "b") start) s
        × (is_current net (codes "b") expected s ≡ true)
        × (net.bytes_read s (codes "b") ≡ bytes))
    × (get_file_from_data_node net (codes "b") start ≡ none
        → (s : ℕ) → IsLiveHolder net (holders_of (codes "b") start) s
        → is_current net (codes "b") expected s ≡ false)
get_file_from_data_node_lem_example = get_file_from_data_node_lem net (codes "b") start

abbrev files : Map Bytes ℤ
files = (codes "a", pos 2) ∷ (codes "b", pos 1) ∷ []

register_data_node_files_lem_example :
    let done = register_data_node_files (codes "d4") (some 9) files start in
    (find path done.versions ≡ newest (find path files) (find path start.versions))
    × (find (codes "d4") (holders_of path done) ≡ (
        if bytes_eq (codes "d4") (codes "d4")
        then holder_after (find path files) (some 9) (find (codes "d4") (holders_of path start))
        else find (codes "d4") (holders_of path start)))
    × IsDurable done
register_data_node_files_lem_example =
    register_data_node_files_lem (codes "d4") (some 9) files path (codes "d4") start
      ((refl, tt), (tt, tt))

file_version_map_covers_example :
    ((p : Bytes) (v : ℤ) → find p start.versions ≡ some v → Knows (file_version_map net start) p v)
    × ((s : ℕ) (p : Bytes) (v : ℤ)
        → IsLiveHolder net start.data_nodes s
        → find p (get_file_version_map (net.answer s sync_status)) ≡ some v
        → Knows (file_version_map net start) p v)
file_version_map_covers_example = file_version_map_covers net start

writes_tell_example :
    let created = propagate_create_file net 50 (codes "b") (pos 3) (codes "c1") (8 ∷ []) start in
    let updated = propagate_update_file net (codes "b") (pos 3) (codes "c1") (8 ∷ []) start in
    let deleted = propagate_delete_file net true (codes "b") (codes "c1") start in
    (((created.2 ≡ false) × (created.0 ≡ start))
      ⊎ Among (push_create 5 (codes "b") (pos 3) (8 ∷ [])) created.1)
    × ((updated ≡ (start, [], negsuc 0))
        ⊎ Among (push_update 5 (codes "b") updated.2 (8 ∷ [])) updated.1)
    × ((deleted ≡ (start, [])) ⊎ Among (push_delete 5 (codes "b")) deleted.1)
unfolding find
writes_tell_example =
    writes_tell (codes "c2") (codes "c1") 5 refl net 50 true (codes "b") (8 ∷ []) (pos 3) start refl
