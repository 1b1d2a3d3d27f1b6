-- ===== src/Protocol/Opcode.antt =====
-- The enumerations of common/src/squidprotocol/squidProtocolFormatter.hpp. An `enum class` over
-- `uint8_t` holds any byte: `unknown` stands for the bytes that have no name.
mod Codes
use squid_storage.Prelude.{ℕ, ◌%◌, ◌==◌, if◌then◌else◌}
use squid_storage.Prelude.Key.{Bytes, codes}

-- What a frame asks for or answers.
pub data Opcode : Type 0 where
  connect_server : Opcode
  identify : Opcode
  close : Opcode
  heartbeat : Opcode
  sync_status : Opcode
  create_file : Opcode
  read_file : Opcode
  update_file : Opcode
  delete_file : Opcode
  acquire_lock : Opcode
  release_lock : Opcode
  push_create_file : Opcode
  push_update_file : Opcode
  push_delete_file : Opcode
  state_snap : Opcode
  state_delta : Opcode
  leader_hb : Opcode
  nack_stale_epoch : Opcode
  response : Opcode
  unknown : ℕ → Opcode

-- The value of the enumeration, a `uint8_t`.
abbrev pub opcode_code : Opcode → ℕ
opcode_code connect_server = 0x01
opcode_code identify = 0x02
opcode_code close = 0x03
opcode_code heartbeat = 0x04
opcode_code sync_status = 0x05
opcode_code create_file = 0x10
opcode_code read_file = 0x12
opcode_code update_file = 0x13
opcode_code delete_file = 0x14
opcode_code acquire_lock = 0x20
opcode_code release_lock = 0x21
opcode_code push_create_file = 0x30
opcode_code push_update_file = 0x31
opcode_code push_delete_file = 0x32
opcode_code state_snap = 0x40
opcode_code state_delta = 0x41
opcode_code leader_hb = 0x42
opcode_code nack_stale_epoch = 0x43
opcode_code response = 0xff
opcode_code (unknown n) = n % 256

-- `static_cast<Opcode>` of a byte.
unfoldable pub opcode_of : ℕ → Opcode
opcode_of b =
    if b == 0x01
    then connect_server
    else if b == 0x02
    then identify
    else if b == 0x03
    then close
    else if b == 0x04
    then heartbeat
    else if b == 0x05
    then sync_status
    else if b == 0x10
    then create_file
    else if b == 0x12
    then read_file
    else if b == 0x13
    then update_file
    else if b == 0x14
    then delete_file
    else if b == 0x20
    then acquire_lock
    else if b == 0x21
    then release_lock
    else if b == 0x30
    then push_create_file
    else if b == 0x31
    then push_update_file
    else if b == 0x32
    then push_delete_file
    else if b == 0x40
    then state_snap
    else if b == 0x41
    then state_delta
    else if b == 0x42
    then leader_hb
    else if b == 0x43
    then nack_stale_epoch
    else if b == 0xff
    then response
    else unknown b

-- What a field of a frame holds.
pub data FieldId : Type 0 where
  file_path : FieldId
  file_version : FieldId
  node_type : FieldId
  process_name : FieldId
  port : FieldId
  ack : FieldId
  is_locked : FieldId
  timestamp : FieldId
  file_entry : FieldId
  ver_entry : FieldId
  epoch : FieldId
  delta_op : FieldId
  datanode_name : FieldId
  snap_entry : FieldId
  unknown : ℕ → FieldId

-- The value of the enumeration, a `uint8_t`.
abbrev pub field_code : FieldId → ℕ
field_code file_path = 0x01
field_code file_version = 0x02
field_code node_type = 0x03
field_code process_name = 0x04
field_code port = 0x05
field_code ack = 0x06
field_code is_locked = 0x07
field_code timestamp = 0x08
field_code file_entry = 0x10
field_code ver_entry = 0x11
field_code epoch = 0x20
field_code delta_op = 0x21
field_code datanode_name = 0x22
field_code snap_entry = 0x23
field_code (unknown n) = n % 256

-- `static_cast<FieldID>` of a byte.
unfoldable pub field_of : ℕ → FieldId
field_of b =
    if b == 0x01
    then file_path
    else if b == 0x02
    then file_version
    else if b == 0x03
    then node_type
    else if b == 0x04
    then process_name
    else if b == 0x05
    then port
    else if b == 0x06
    then ack
    else if b == 0x07
    then is_locked
    else if b == 0x08
    then timestamp
    else if b == 0x10
    then file_entry
    else if b == 0x11
    then ver_entry
    else if b == 0x20
    then epoch
    else if b == 0x21
    then delta_op
    else if b == 0x22
    then datanode_name
    else if b == 0x23
    then snap_entry
    else unknown b

-- `opcodeToString`.
unfoldable pub opcode_to_string : Opcode → Bytes
opcode_to_string connect_server = codes "CONNECT_SERVER"
opcode_to_string identify = codes "IDENTIFY"
opcode_to_string close = codes "CLOSE"
opcode_to_string heartbeat = codes "HEARTBEAT"
opcode_to_string sync_status = codes "SYNC_STATUS"
opcode_to_string create_file = codes "CREATE_FILE"
opcode_to_string read_file = codes "READ_FILE"
opcode_to_string update_file = codes "UPDATE_FILE"
opcode_to_string delete_file = codes "DELETE_FILE"
opcode_to_string acquire_lock = codes "ACQUIRE_LOCK"
opcode_to_string release_lock = codes "RELEASE_LOCK"
opcode_to_string push_create_file = codes "PUSH_CREATE_FILE"
opcode_to_string push_update_file = codes "PUSH_UPDATE_FILE"
opcode_to_string push_delete_file = codes "PUSH_DELETE_FILE"
opcode_to_string state_snap = codes "STATE_SNAP"
opcode_to_string state_delta = codes "STATE_DELTA"
opcode_to_string leader_hb = codes "LEADER_HB"
opcode_to_string nack_stale_epoch = codes "NACK_STALE_EPOCH"
opcode_to_string response = codes "RESPONSE"
opcode_to_string (unknown n) = codes "UNKNOWN"
