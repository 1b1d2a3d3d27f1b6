-- ===== src/Server/Replication/Rebalance.antt =====
-- server/src/replication_manager.cpp, eraseFromReplicationMap and rebalanceFileReplication, and
-- server/src/heartbeat_manager.cpp: a data node that is silent is forgotten, and its files are copied.
pub mod Holdless
pub mod Silent
pub mod Locks
mod Examples
use squid_storage.Prelude.{
  ℕ, ◌<◌, Bool, true, false, not, ◌&&◌, ltb, leb, if◌then◌else◌, Option, none, some, List, [], ◌∷◌,
  ◌++◌,
}
use squid_storage.Prelude.Lists.{length}
use squid_storage.Prelude.Key.{Bytes, bytes_key}
use squid_storage.Prelude.Int.{ℤ}
use squid_storage.Prelude.Map.{Map, find, assign, erase}
use squid_storage.Protocol.Message.{is_ack}
use squid_storage.Server.State.{SessionPtr, Call, read_file, create_file, heartbeat, Net, State}
use squid_storage.Server.Locks.{stored_version}
use squid_storage.Server.Replication.{quorum, holders_of, hold, persist_state}

-- The first loop of `eraseFromReplicationMap`: the maps without the node, ...
unfoldable pub erase_holder :
    Bytes → Map Bytes (Map Bytes SessionPtr) → Map Bytes (Map Bytes SessionPtr)
erase_holder name [] = []
erase_holder name ((path, nodes) ∷ m) = (path, erase name nodes) ∷ erase_holder name m

-- ... and the files that it held and that are left with too few holders.
abbrev pub add_target :
    Option SessionPtr
    → ℕ
    → Bytes
    → Map Bytes SessionPtr
    → List (Bytes × Map Bytes SessionPtr)
    → List (Bytes × Map Bytes SessionPtr)
add_target none needed path left rest = rest
add_target (some s) needed path left rest =
    if ltb (length left) needed then (path, left) ∷ rest else rest

unfoldable pub too_few :
    ℕ → Bytes → Map Bytes (Map Bytes SessionPtr) → List (Bytes × Map Bytes SessionPtr)
too_few needed name [] = []
too_few needed name ((path, nodes) ∷ m) =
    add_target (find name nodes) needed path (erase name nodes) (too_few needed name m)

-- The live data nodes that do not hold the file.
abbrev pub add_candidate :
    Option SessionPtr → Bool → Bytes → ℕ → List (Bytes × ℕ) → List (Bytes × ℕ)
add_candidate (some held) alive name s rest = rest
add_candidate none alive name s rest = if alive then (name, s) ∷ rest else rest

unfoldable pub candidates : Net → Map Bytes SessionPtr → Map Bytes SessionPtr → List (Bytes × ℕ)
candidates net holders [] = []
candidates net holders ((name, none) ∷ nodes) = candidates net holders nodes
candidates net holders ((name, some s) ∷ nodes) =
    add_candidate (find name holders) (net.is_alive s) name s (candidates net holders nodes)

-- Each in turn is sent the file, until there are enough holders.
unfoldable pub copy_to :
    Net → Call → ℕ → List (Bytes × ℕ) → Map Bytes SessionPtr → Map Bytes SessionPtr
copy_to net c factor [] holders = holders
copy_to net c factor ((name, s) ∷ nodes) holders =
    let added : Map Bytes SessionPtr = assign name (some s) holders in
    let after_ack = copy_to net c factor nodes added in
    let after_nack = copy_to net c factor nodes holders in
    if is_ack (net.answer s c)
    then (if leb factor (length added) then added else after_ack)
    else after_nack

-- `stored[entry.first] = entry.second`.
unfoldable pub store_holders : Bytes → Map Bytes SessionPtr → State → State
store_holders path [] st = st
store_holders path ((name, s) ∷ m) st = store_holders path m (hold path name s st)

-- What follows once the file was read from the session `s`.
unfoldable pub copy_file : Net → ℕ → Bytes → Map Bytes SessionPtr → State → State
copy_file net s path holders st =
    let c = create_file path (stored_version path st) (net.bytes_read s path) in
    persist_state (
      store_holders path
        (copy_to net c st.replication_factor (candidates net holders st.data_nodes) holders) st)

unfoldable pub rebalance : Net → Bytes → Map Bytes SessionPtr → State → State
rebalance net path [] st = st
rebalance net path ((name, none) ∷ m) st = st
rebalance net path ((name, some s) ∷ m) st =
    if is_ack (net.answer s (read_file path))
    then copy_file net s path ((name, some s) ∷ m) st
    else st

unfoldable pub rebalance_all : Net → List (Bytes × Map Bytes SessionPtr) → State → State
rebalance_all net [] st = st
rebalance_all net ((path, holders) ∷ targets) st =
    rebalance_all net targets (rebalance net path holders st)

unfoldable pub forget_node : Net → Bytes → State → State
forget_node net name st =
    rebalance_all net (too_few (quorum st) name st.holders)
      (persist_state (record st { holders = erase_holder name st.holders }))

unfoldable pub forget_nodes : Net → List Bytes → State → State
forget_nodes net [] st = st
forget_nodes net (name ∷ names) st = forget_nodes net names (forget_node net name st)

-- The data nodes that do not acknowledge a heartbeat.
unfoldable pub dead_nodes : Net → Map Bytes SessionPtr → List Bytes
dead_nodes net [] = []
dead_nodes net ((name, none) ∷ nodes) = dead_nodes net nodes
dead_nodes net ((name, some s) ∷ nodes) =
    let rest = dead_nodes net nodes in if is_ack (net.answer s heartbeat) then rest else name ∷ rest

unfoldable pub drop_nodes : List Bytes → Map Bytes SessionPtr → Map Bytes SessionPtr
drop_nodes [] m = m
drop_nodes (name ∷ names) m = drop_nodes names (erase name m)

unfoldable pub send_heartbeats : Net → State → State
send_heartbeats net st =
    let dead = dead_nodes net st.data_nodes in
    forget_nodes net dead (record st { data_nodes = drop_nodes dead st.data_nodes })
