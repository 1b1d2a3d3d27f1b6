-- ===== src/Client.antt =====
-- The client: client/src/client.cpp, its map of versions and what a push does to it. Calls are in
-- Client/Calls.
pub mod Calls
pub mod Pushes
pub mod Sync
pub mod Answers
mod Examples
use squid_storage.Prelude.{
  ℕ, Bool, true, false, not, ◌==◌, ◌-◌, ◌^◌, if◌then◌else◌, Option, none, some, List, [], ◌∷◌, ◌++◌,
}
use squid_storage.Prelude.Key.{Bytes, bytes_key}
use squid_storage.Prelude.Int.{ℤ, negsuc, of_u32}
use squid_storage.Prelude.Map.{Map, find, assign, erase}
use squid_storage.Protocol.Opcode.{
  Opcode, close, heartbeat, release_lock, push_create_file, push_update_file, push_delete_file,
  nack_stale_epoch, file_path, file_version,
}
use squid_storage.Protocol.Frame.{Message}
use squid_storage.Protocol.Message.{
  get_string, get_uint32, is_ack, is_response, get_file_version_map,
}
use squid_storage.Protocol.Format.{response_ack}
use squid_storage.Transport.Channel.{Channel}
use squid_storage.Transport.Order.{Connection, send_built}
use squid_storage.Transport.Transfer.{receive_file_data}

-- The session's connection, `versions_`, and the calls of `pushHandler_` so far, the last one last.
pub record Client : Type 0 where
  pub connection : Connection
  pub versions : Map Bytes ℤ
  pub told : List (Message × Bytes)

abbrev pub version_known : Option ℤ → ℤ
version_known none = negsuc 0
version_known (some v) = v

unfoldable pub get_file_version : Bytes → Client → ℤ
get_file_version path c = version_known (find path c.versions)

abbrev pub set_file_version : Bytes → ℤ → Client → Client
set_file_version path v c = record c { versions = assign path v c.versions }

abbrev pub delete_file_version : Bytes → Client → Client
delete_file_version path c = record c { versions = erase path c.versions }

-- `UINT32_MAX` stands for an ACK with no version.
unfoldable pub set_version_from_ack : Bytes → Message → Client → Client
set_version_from_ack path ack c =
    let v = get_uint32 ack file_version (2 ^ 32 - 1) in
    if is_ack ack then (if v == 2 ^ 32 - 1 then c else set_file_version path (of_u32 v) c) else c

-- What the call gave, for `createFile`, `readFile` and `updateFile`, for `deleteFile`, and for
-- `syncStatus`.
unfoldable pub after_delete : Bytes → Message → Client → Client
after_delete path ack c = if is_ack ack then delete_file_version path c else c

unfoldable pub assign_all : Map Bytes ℤ → Map Bytes ℤ → Map Bytes ℤ
assign_all [] known = known
assign_all ((p, v) ∷ m) known = assign_all m (assign p v known)

unfoldable pub after_sync : Message → Client → Client
after_sync answer c =
    if is_response answer
    then record c { versions = assign_all (get_file_version_map answer) c.versions }
    else c

abbrev pub tell : Message → Bytes → Client → Client
tell m bytes c = record c { told = c.told ++ (m, bytes) ∷ [] }

abbrev pub disconnect : Client → Client
disconnect c = record c { connection = record c.connection { alive = false } }

-- `if (!path.empty())`.
abbrev pub push_version : Bytes → ℤ → Client → Client
push_version [] v c = c
push_version (b ∷ path) v c = set_file_version (b ∷ path) v c

abbrev pub forget_version : Bytes → Client → Client
forget_version [] c = c
forget_version (b ∷ path) c = delete_file_version (b ∷ path) c

-- The result of `receiveFileData` is not looked at.
abbrev pub file_pushed : Message → Client → Bool × Bytes × Channel → Client
file_pushed m c (ok, bytes, ch) = tell m bytes (
    push_version (get_string m file_path []) (of_u32 (get_uint32 m file_version 0))
      (record c { connection = record c.connection { inbound = ch } }))

unfoldable pub handle_push_of : Opcode → Message → Client → Client
handle_push_of push_create_file m c = file_pushed m c (receive_file_data [] c.connection.inbound)
handle_push_of push_update_file m c = file_pushed m c (receive_file_data [] c.connection.inbound)
handle_push_of push_delete_file m c = forget_version (get_string m file_path []) (tell m [] c)
handle_push_of release_lock m c = tell m [] c
handle_push_of heartbeat m c = record c { connection = send_built (response_ack true) c.connection }
handle_push_of close m c = disconnect c
handle_push_of nack_stale_epoch m c = tell m [] (disconnect c)
handle_push_of _ m c = c

unfoldable pub handle_push : Message → Client → Client
unfolding handle_push_of
handle_push m c = handle_push_of m.opcode m c
