-- ===== src/DataNode.antt =====
-- The data node: datanode/src/datanode.cpp, and requestDispatcher and responseDispatcher of
-- common/src/squidprotocol/squidprotocol.cpp on its disk. Files and frames share the connection.
pub mod Stores
pub mod Deletes
mod Examples
use squid_storage.Prelude.{
  ℕ, Bool, true, false, ltb, if◌then◌else◌, Option, none, some, List, [], ◌∷◌, ◌++◌,
}
use squid_storage.Prelude.Key.{Bytes, bytes_key}
use squid_storage.Prelude.Int.{ℤ, of_u32}
use squid_storage.Prelude.Map.{Map, find, assign, erase}
use squid_storage.Protocol.Opcode.{
  Opcode, connect_server, identify, close, heartbeat, sync_status, create_file, read_file,
  update_file, delete_file, acquire_lock, release_lock, push_create_file, push_update_file,
  push_delete_file, nack_stale_epoch, response, file_path, file_version, epoch,
}
use squid_storage.Protocol.Frame.{Fallible, Message}
use squid_storage.Protocol.Message.{get_string, get_uint32}
use squid_storage.Protocol.Format.{
  response_ack, response_ack_with_version, response_identity, response_file_version_map,
}
use squid_storage.Filesystem.VersionFile.{
  get_file_version, set_file_version, drop_file_version, get_file_version_map,
}
use squid_storage.Transport.Channel.{Channel, Written}
use squid_storage.Transport.Order.{Connection, send_built}
use squid_storage.Transport.Transfer.{Sending, send_file, receive_file}

-- What std::filesystem makes of a path below the storage root, which files it can create, and the
-- regular files that it lists in the root.
pub record FileSystem : Type 0 where
  pub resolve_path : Bytes → Bytes
  pub can_open : Bytes → Bool
  pub get_files : Map Bytes Bytes → List Bytes

-- The files under the storage root, the text of the version file, and the members of the node.
pub record Node : Type 0 where
  pub disk : Map Bytes Bytes
  pub version_text : Bytes
  pub connection : Connection
  pub node_type : Bytes
  pub process_name : Bytes
  pub last_seen_epoch : ℕ  -- uint32_t

unfoldable pub respond : Fallible Bytes → Node → Node
respond frame n = record n { connection = send_built frame n.connection }

abbrev pub put_file : Bytes → Option Bytes → Map Bytes Bytes → Map Bytes Bytes
put_file path none m = erase path m
put_file path (some s) m = assign path s m

-- The file and the rest of the stream that `receiveFile` leaves.
abbrev pub received_into : Bytes → Node → Bool × Option Bytes × Channel → Bool × Node
received_into full n (ok, file, ch) = (
  ok,
  record n { disk = put_file full file n.disk; connection = record n.connection { inbound = ch } },
)

abbrev pub sent_from : Node → Sending → Bool × Node
sent_from n (bytes, ok, later) = (
  ok,
  record n {
    connection = record n.connection { sent = n.connection.sent ++ bytes; outbound = later };
  },
)

module _ (fs : FileSystem) where
  unfoldable pub receive_into : Bytes → Node → Bool × Node
  receive_into path n =
      let full = fs.resolve_path path in
      received_into full n (receive_file (fs.can_open full) (find full n.disk) n.connection.inbound)

  unfoldable pub send_from : Bytes → Node → Bool × Node
  send_from path n =
      sent_from n (send_file (find (fs.resolve_path path) n.disk) n.connection.outbound)

  -- `response(true)` comes before the file.
  abbrev pub stored : Bytes → ℤ → Fallible Bytes → Bool × Node → Node
  stored path v answer (true, n) =
      respond answer (record n { version_text = set_file_version path v n.version_text })
  stored path v answer (false, n) = respond (response_ack false) n

  unfoldable pub store : Bytes → ℤ → Fallible Bytes → Node → Node
  unfolding receive_into respond
  store path v answer n = stored path v answer (receive_into path (respond (response_ack true) n))

  abbrev pub offered : Bytes → Bool × Node → Node
  offered path (true, n) =
      respond (response_ack_with_version true (get_file_version path n.version_text)) n
  offered path (false, n) = respond (response_ack false) n

  unfoldable pub offer : Bytes → Node → Node
  unfolding send_from respond
  offer path n = offered path (send_from path (respond (response_ack true) n))

  abbrev pub deleted : Bytes → Bytes → Node → Option Bytes → Node
  deleted path full n none = n
  deleted path full n (some s) = record n {
    disk = erase full n.disk;
    version_text = drop_file_version path n.version_text;
  }

  -- `deleteFileAndVersion`: a file that is not there keeps its version.
  unfoldable pub delete_file_and_version : Bytes → Node → Node
  delete_file_and_version path n =
      let full = fs.resolve_path path in deleted path full n (find full n.disk)

  abbrev pub disconnected : Node → Node
  disconnected n = record n { connection = record n.connection { alive = false } }

  unfoldable pub dispatch : Opcode → Bytes → ℤ → Node → Node
  unfolding store offer delete_file_and_version respond
  dispatch create_file path v n = store path v (response_ack true) n
  dispatch read_file path v n = offer path n
  dispatch update_file path v n = store path v (response_ack_with_version true v) n
  dispatch delete_file path v n = respond (response_ack true) (delete_file_and_version path n)
  dispatch acquire_lock path v n = respond (response_ack false) n
  dispatch release_lock path v n = respond (response_ack true) n
  dispatch heartbeat path v n = respond (response_ack true) n
  dispatch sync_status path v n =
      respond
        (response_file_version_map (get_file_version_map (fs.get_files n.disk) n.version_text)) n
  dispatch identify path v n = respond (response_identity n.node_type n.process_name) n
  dispatch connect_server path v n = respond (response_ack false) n
  dispatch close path v n =
      let told = respond (response_ack true) n in
      disconnected (record told { connection = record told.connection { inbound = [] } })
  dispatch response path v n = disconnected n
  dispatch _ path v n = n

  unfoldable pub request_dispatcher : Message → Node → Node
  unfolding dispatch
  request_dispatcher m n =
      dispatch m.opcode (get_string m file_path []) (of_u32 (get_uint32 m file_version 0)) n

  abbrev pub unless_push : Opcode → Message → Node → Node
  unfolding request_dispatcher
  unless_push push_create_file m n = n
  unless_push push_update_file m n = n
  unless_push push_delete_file m n = n
  unless_push _ m n = request_dispatcher m n

  unfoldable pub response_dispatcher : Message → Node → Node
  unfolding unless_push
  response_dispatcher m n = unless_push m.opcode m n

  abbrev pub see_epoch : ℕ → Node → Node
  see_epoch theirs n = record n {
    last_seen_epoch = if ltb n.last_seen_epoch theirs then theirs else n.last_seen_epoch;
  }

  -- The handler that `makeRequestHandler` gives to the session.
  abbrev pub handled : Opcode → Message → Node → Node
  unfolding response_dispatcher
  handled nack_stale_epoch m n = disconnected (see_epoch (get_uint32 m epoch 0) n)
  handled _ m n = response_dispatcher m n

  unfoldable pub request_handler : Message → Node → Node
  unfolding handled
  request_handler m n = handled m.opcode m n
