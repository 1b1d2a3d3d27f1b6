-- ===== src/Server/Requests.antt =====
-- server/src/server.cpp, handleClientRequest: one request of a client, to its answers.
pub mod Answers
pub mod Locking
pub mod Exclusion
mod Examples
use squid_storage.Prelude.{ℕ, Bool, true, false, if◌then◌else◌, Option, none, some, List, [], ◌∷◌}
use squid_storage.Prelude.Key.{Bytes, bytes_key}
use squid_storage.Prelude.Int.{ℤ, pos, negsuc, ltz, of_u32}
use squid_storage.Prelude.Map.{Map, erase}
use squid_storage.Protocol.Opcode.{
  Opcode, close, heartbeat, sync_status, create_file, read_file, update_file, delete_file,
  acquire_lock, release_lock, file_path, file_version,
}
use squid_storage.Protocol.Frame.{Message}
use squid_storage.Protocol.Message.{get_string, get_uint32}
use squid_storage.Server.State.{Net, Effect, State}
use squid_storage.Server.Locks as Locks
use squid_storage.Server.Replication.{
  propagate_create_file, propagate_update_file, propagate_delete_file, known_version,
  get_file_from_data_node, file_version_map,
}

-- What the server sends back: the answers of the protocol, and the bytes of a file.
pub data Answer : Type 0 where
  acks : Bool → Answer
  acks_version : Bool → ℤ → Answer
  version_map : Map Bytes ℤ → Answer
  file_bytes : Bytes → Answer

-- The client during the request: its name, the file that arrives after the first answer, if it does,
-- and whether the file that is sent gets through; and whether the server's own disk has the file.
pub record Client : Type 0 where
  pub name : Bytes
  pub received : Option Bytes
  pub gets_file : Bool
  pub on_disk : Bool

abbrev pub path_of : Message → Bytes
path_of m = get_string m file_path []

abbrev pub seen_version : Message → ℤ
seen_version m = of_u32 (get_uint32 m file_version 0)

abbrev pub Handled : Type 0
Handled = State × List Effect × List Answer

unfoldable pub handle_create : Net → ℕ → Client → Bytes → ℤ → State → Handled
handle_create net now client path v st = elim client.received [
  | none ↦ (st, [], acks true ∷ acks false ∷ [])
  | some file_data ↦
      let (next, effects, done) = propagate_create_file net now path v client.name file_data st in
      (next, effects, acks true ∷ acks done ∷ [])
]

abbrev pub update_answer : ℤ → Answer
update_answer v = if ltz v (pos 0) then acks false else acks_version true v

unfoldable pub handle_update : Net → Client → Bytes → ℤ → State → Handled
handle_update net client path v st = elim client.received [
  | none ↦ (st, [], acks true ∷ update_answer (negsuc 0) ∷ [])
  | some file_data ↦
      let (next, effects, new) = propagate_update_file net path v client.name file_data st in
      (next, effects, acks true ∷ update_answer new ∷ [])
]

unfoldable pub handle_read : Net → Client → Bytes → State → Handled
handle_read net client path st = elim (get_file_from_data_node net path st) [
  | none ↦ (st, [], acks false ∷ [])
  | some file_data ↦ (
    st,
    [],
    acks true ∷ file_bytes file_data ∷ acks_version client.gets_file (known_version path st) ∷ [],
  )
]

unfoldable pub handle_delete : Net → Client → Bytes → State → Handled
handle_delete net client path st =
    let (next, effects) = propagate_delete_file net client.on_disk path client.name st in
    (next, effects, acks true ∷ [])

abbrev pub locked_answer : State × Bool → Handled
locked_answer (next, b) = (next, [], acks b ∷ [])

-- The switch. After `CLOSE` the client is taken out of the map.
abbrev pub handle_opcode : Opcode → Net → ℕ → Client → Bytes → ℤ → State → Handled
handle_opcode create_file net now client path v st = handle_create net now client path v st
handle_opcode read_file net now client path v st = handle_read net client path st
handle_opcode update_file net now client path v st = handle_update net client path v st
handle_opcode delete_file net now client path v st = handle_delete net client path st
handle_opcode sync_status net now client path v st =
    (st, [], version_map (file_version_map net st) ∷ [])
handle_opcode acquire_lock net now client path v st =
    locked_answer (Locks.acquire_lock net now path client.name st)
handle_opcode release_lock net now client path v st =
    locked_answer (Locks.release_lock net now path st)
handle_opcode heartbeat net now client path v st = (st, [], acks true ∷ [])
handle_opcode close net now client path v st =
    (record st { clients = erase client.name st.clients }, [], acks true ∷ [])
handle_opcode _ net now client path v st = (st, [], acks false ∷ [])

unfoldable pub handle_client_request : Net → ℕ → Client → Message → State → Handled
handle_client_request net now client m st =
    handle_opcode m.opcode net now client (path_of m) (seen_version m) st
