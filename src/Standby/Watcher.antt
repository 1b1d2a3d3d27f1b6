-- ===== src/Standby/Watcher.antt =====
-- server/src/replica_watcher.cpp: what a server that stands by makes of the frames of its primary.
pub mod Epochs
pub mod Rounds
pub mod Deltas
pub mod Snapshots
mod Examples
use squid_storage.Prelude.{
  ℕ, ◌+◌, ◌%◌, ◌^◌, ◌≡◌, Bool, true, false, ◌==◌, ltb, max, if◌then◌else◌, Option, none, some, List,
  [], ◌∷◌,
}
use squid_storage.Prelude.Key.{Bytes, bytes_key}
use squid_storage.Prelude.Int.{ℤ, pos, negsuc, of_u32}
use squid_storage.Prelude.Map.{Map, find, assign, erase}
use squid_storage.Protocol.Opcode.{
  Opcode, close, state_snap, state_delta, leader_hb, field_code, file_path, file_version, epoch,
  snap_entry, delta_op, datanode_name,
}
use squid_storage.Protocol.Frame.{BinaryField, Message}
use squid_storage.Protocol.Message.{get_string, get_uint32}
use squid_storage.Standby.Snapshot.{set_of, parse_snap_entry}

pub data Role : Type 0 where
  standby active : Role

-- The replicated state, the role, and the epoch as the epoch store has it on disk.
pub record Watcher : Type 0 where
  pub role : Role
  pub version_map : Map Bytes ℤ
  pub rep_map : Map Bytes (List Bytes)
  pub observed_epoch : ℕ
  pub stored_epoch : ℕ

-- `if (epoch > observedEpoch_) observedEpoch_ = epoch`.
abbrev pub observe : ℕ → Watcher → Watcher
observe e w = record w { observed_epoch = if ltb w.observed_epoch e then e else w.observed_epoch }

-- The new maps of `applySnap` with one entry more. One that cannot be read is left out.
abbrev pub SnapMaps : Type 0
SnapMaps = Map Bytes ℤ × Map Bytes (List Bytes)

abbrev pub with_entry : Option (Bytes × ℤ × List Bytes) → SnapMaps → SnapMaps
with_entry none maps = maps
with_entry (some e) maps = (assign e.0 e.1 maps.0, assign e.0 e.2 maps.1)

-- The loop of `applySnap`.
unfoldable pub snap_maps : List BinaryField → SnapMaps → SnapMaps
snap_maps [] maps = maps
snap_maps (f ∷ fs) maps = snap_maps fs (
    if field_code f.id == field_code snap_entry
    then with_entry (parse_snap_entry f.value) maps
    else maps)

unfoldable pub apply_snap : Message → Watcher → Watcher
apply_snap m w =
    let (versions, holders) = snap_maps m.fields ([], []) in
    observe (get_uint32 m epoch 0) (record w { version_map = versions; rep_map = holders })

-- The first byte of the first such field that is not empty.
unfoldable pub delta_op_in : List BinaryField → ℕ
delta_op_in [] = 0
delta_op_in (f ∷ fs) =
    let later = delta_op_in fs in
    if field_code f.id == field_code delta_op
    then (elim f.value [ [] ↦ later | b ∷ bs ↦ b ])
    else later

unfoldable pub data_node_names : List BinaryField → List Bytes
data_node_names [] = []
data_node_names (f ∷ fs) =
    let later = data_node_names fs in
    if field_code f.id == field_code datanode_name then f.value ∷ later else later

-- The change of the two maps.
unfoldable pub change_maps : ℕ → Bytes → ℤ → List Bytes → Watcher → Watcher
change_maps op path v names w =
    if op == 1
    then record w { version_map = erase path w.version_map; rep_map = erase path w.rep_map }
    else record w {
      version_map = assign path v w.version_map;
      rep_map = assign path (set_of names) w.rep_map;
    }

unfoldable pub apply_delta : Message → Watcher → Watcher
apply_delta m w =
    change_maps (delta_op_in m.fields) (get_string m file_path [])
      (of_u32 (get_uint32 m file_version 0)) (data_node_names m.fields)
      (observe (get_uint32 m epoch 0) w)

-- What a frame means for the loop: whether it goes on, with a new deadline or not, or ends.
pub data Outcome : Type 0 where
  goes_on renews ends : Outcome

abbrev pub handle_opcode : Opcode → Message → Watcher → Watcher × Outcome
handle_opcode state_snap m w = (apply_snap m w, renews)
handle_opcode state_delta m w = (apply_delta m w, goes_on)
handle_opcode leader_hb m w = (observe (get_uint32 m epoch 0) w, renews)
handle_opcode close m w = (w, ends)
handle_opcode _ m w = (w, goes_on)

-- The body of `receiveLoop` for a frame that was read. A stale one is ignored.
unfoldable pub receive : Message → Watcher → Watcher × Outcome
receive m w =
    if ltb (get_uint32 m epoch 0) w.observed_epoch then (w, goes_on) else handle_opcode m.opcode m w

-- What one round of `receiveLoop` finds: no socket, an error, nothing within the 100 ms, a frame
-- that cannot be read or the end of the connection, or a frame.
pub data Poll : Type 0 where
  no_socket failed quiet broken : Poll
  frame : Message → Poll

abbrev pub new_deadline : Outcome → ℕ → ℕ → ℕ → ℕ
new_deadline renews now timeout deadline = now + timeout
new_deadline _ now timeout deadline = deadline

abbrev pub proceed : Outcome → Watcher → Watcher × Option Bool → Watcher × Option Bool
proceed ends next more = (next, some false)
proceed _ next more = more

-- `receiveLoop` on the rounds that take place, each with the time. The result is what it returns,
-- or `none` while it runs.
unfoldable pub receive_loop : ℕ → ℕ → List (ℕ × Poll) → Watcher → Watcher × Option Bool
receive_loop timeout deadline [] w = (w, none)
receive_loop timeout deadline ((now, no_socket) ∷ ps) w = (w, some true)
receive_loop timeout deadline ((now, failed) ∷ ps) w = (w, some true)
receive_loop timeout deadline ((now, quiet) ∷ ps) w =
    let more = receive_loop timeout deadline ps w in
    if ltb deadline now then (w, some true) else more
receive_loop timeout deadline ((now, broken) ∷ ps) w =
    if ltb deadline now then (w, some true) else (w, some false)
receive_loop timeout deadline ((now, frame m) ∷ ps) w =
    let (next, outcome) = receive m w in
    let more = receive_loop timeout (new_deadline outcome now timeout deadline) ps next in
    if ltb deadline now then (w, some true) else proceed outcome next more

-- `promote`. The epoch is a `uint32_t`; saving it is taken to succeed.
unfoldable pub promote : Watcher → Watcher
promote w =
    let e = (w.observed_epoch + 1) % 2 ^ 32 in
    record w { observed_epoch = e; stored_epoch = e; role = active }
