-- ===== src/Protocol/Format.antt =====
-- common/src/squidprotocol/squidProtocolFormatter.cpp: the frames of each request, push and answer.
pub mod Deliver
pub mod VersionMap
use squid_storage.Prelude.{ℕ, ◌%◌, Bool, if◌then◌else◌, List, [], ◌∷◌, ◌++◌, map}
use squid_storage.Prelude.Key.{Bytes, codes, bytes_eq}
use squid_storage.Prelude.Int.{ℤ, pos, to_u32}
use squid_storage.Prelude.Map.{Map}
use squid_storage.Protocol.Opcode.{
  Opcode, connect_server, identify, close, heartbeat, sync_status, create_file, read_file,
  update_file, delete_file, acquire_lock, release_lock, push_create_file, push_update_file,
  push_delete_file, state_delta, leader_hb, nack_stale_epoch, response, file_path, file_version,
  node_type, process_name, port, ack, file_entry, ver_entry, epoch, delta_op, datanode_name,
}
use squid_storage.Protocol.Frame.{Fallible, BinaryField, flag_response, build_frame}
use squid_storage.Protocol.Message.{field_string, field_uint32, field_bool}

-- A frame with no payload.
abbrev pub request : Opcode → List BinaryField → Fallible Bytes
request op fields = build_frame op 0 fields 0

abbrev pub answer : List BinaryField → Fallible Bytes
answer fields = build_frame response flag_response fields 0

abbrev pub path_field : Bytes → BinaryField
path_field p = field_string file_path p

abbrev pub version_field : ℤ → BinaryField
version_field v = field_uint32 file_version (to_u32 v)

unfoldable pub identify_format : Fallible Bytes
identify_format = request identify []

unfoldable pub close_format : Fallible Bytes
close_format = request close []

unfoldable pub connect_server_format : Fallible Bytes
connect_server_format = request connect_server []

unfoldable pub heartbeat_format : Fallible Bytes
heartbeat_format = request heartbeat []

unfoldable pub sync_status_format : Fallible Bytes
sync_status_format = request sync_status []

-- `createFileFormat` and `updateFileFormat` with no version.
unfoldable pub create_file_unversioned_format : Bytes → Fallible Bytes
create_file_unversioned_format p = request create_file (path_field p ∷ [])

unfoldable pub update_file_unversioned_format : Bytes → Fallible Bytes
update_file_unversioned_format p = request update_file (path_field p ∷ [])

unfoldable pub create_file_format : Bytes → ℤ → Fallible Bytes
create_file_format p v = request create_file (path_field p ∷ version_field v ∷ [])

unfoldable pub read_file_format : Bytes → Fallible Bytes
read_file_format p = request read_file (path_field p ∷ [])

unfoldable pub update_file_format : Bytes → ℤ → Fallible Bytes
update_file_format p v = request update_file (path_field p ∷ version_field v ∷ [])

unfoldable pub delete_file_format : Bytes → Fallible Bytes
delete_file_format p = request delete_file (path_field p ∷ [])

unfoldable pub acquire_lock_format : Bytes → Fallible Bytes
acquire_lock_format p = request acquire_lock (path_field p ∷ [])

unfoldable pub release_lock_format : Bytes → Fallible Bytes
release_lock_format p = request release_lock (path_field p ∷ [])

unfoldable pub push_create_file_format : Bytes → ℤ → Fallible Bytes
push_create_file_format p v = request push_create_file (path_field p ∷ version_field v ∷ [])

unfoldable pub push_update_file_format : Bytes → ℤ → Fallible Bytes
push_update_file_format p v = request push_update_file (path_field p ∷ version_field v ∷ [])

unfoldable pub push_delete_file_format : Bytes → Fallible Bytes
push_delete_file_format p = request push_delete_file (path_field p ∷ [])

-- The operation is a `uint8_t`.
abbrev pub delta_fields : ℕ → Bytes → ℤ → List Bytes → ℕ → List BinaryField
delta_fields op p v datanodes e =
    field_uint32 epoch e
    ∷ record { id = delta_op; value = (op % 256) ∷ [] }
    ∷ path_field p
    ∷ version_field v
    ∷ map (field_string datanode_name) datanodes

unfoldable pub state_delta_format : ℕ → Bytes → ℤ → List Bytes → ℕ → Fallible Bytes
state_delta_format op p v datanodes e = request state_delta (delta_fields op p v datanodes e)

unfoldable pub leader_hb_format : ℕ → Fallible Bytes
leader_hb_format e = request leader_hb (field_uint32 epoch e ∷ [])

unfoldable pub nack_stale_epoch_format : ℕ → Fallible Bytes
nack_stale_epoch_format e = request nack_stale_epoch (field_uint32 epoch e ∷ [])

unfoldable pub response_ack : Bool → Fallible Bytes
response_ack b = answer (field_bool ack b ∷ [])

unfoldable pub response_ack_with_version : Bool → ℤ → Fallible Bytes
response_ack_with_version b v = answer (field_bool ack b ∷ version_field v ∷ [])

-- `responseFormat` of a text.
unfoldable pub response_format : Bytes → Fallible Bytes
unfolding response_ack
response_format s = response_ack (bytes_eq s (codes "ACK"))

unfoldable pub response_port : ℤ → Fallible Bytes
response_port n = answer (field_uint32 port (to_u32 n) ∷ [])

unfoldable pub response_identity : Bytes → Bytes → Fallible Bytes
response_identity node process =
    answer (field_string node_type node ∷ field_string process_name process ∷ [])

unfoldable pub version_fields : Map Bytes ℤ → List BinaryField
version_fields [] = []
version_fields ((p, v) ∷ m) =
    field_string file_entry p ∷ field_uint32 ver_entry (to_u32 v) ∷ version_fields m

unfoldable pub response_file_version_map : Map Bytes ℤ → Fallible Bytes
unfolding version_fields
response_file_version_map m = answer (version_fields m)

-- `responseFormat` of the two maps of times, which sends the names with version 0.
unfoldable pub response_times : {T : Type 0} → Map Bytes T → Fallible Bytes
unfolding response_file_version_map
response_times m = response_file_version_map (map (λ e. (e.0, pos 0)) m)
