-- ===== src/Server/Accept.antt =====
-- server/src/server.cpp, handleAccept: what the server does with a peer once it has identified itself
-- as a data node or as a client.
use squid_storage.Prelude.{ℕ, if◌then◌else◌, none, some, List, [], ◌∷◌}
use squid_storage.Prelude.Key.{Bytes, bytes_key}
use squid_storage.Prelude.Int.{ℤ}
use squid_storage.Prelude.Map.{Map, assign}
use squid_storage.Protocol.Message.{is_response, get_file_version_map}
use squid_storage.Server.State.{Net, sync_status, Effect, push_create, State}
use squid_storage.Server.Locks.{build_file_lock_map}
use squid_storage.Server.Replication.{
  register_data_node_files, file_version_map, get_file_from_data_node,
}

-- The session `s` of a data node. Its files are registered and locked if it answers.
unfoldable pub accept_data_node : Net → ℕ → Bytes → ℕ → State → State
accept_data_node net now name s st =
    let known = record st { data_nodes = assign name (some s) st.data_nodes } in
    let files = net.answer s sync_status in
    if is_response files
    then build_file_lock_map net now
        (register_data_node_files name (some s) (get_file_version_map files) known)
    else known

-- The files that a new client is sent: those that can be read from a data node.
unfoldable pub first_pushes : Net → ℕ → Map Bytes ℤ → State → List Effect
first_pushes net s [] st = []
first_pushes net s ((path, v) ∷ m) st =
    let rest = first_pushes net s m st in
    elim (get_file_from_data_node net path st) [
      | none ↦ rest
      | some file_data ↦ push_create s path v file_data ∷ rest
    ]

unfoldable pub accept_client : Net → Bytes → ℕ → State → State × List Effect
accept_client net name s st =
    let known = record st { clients = assign name (some s) st.clients } in
    (known, first_pushes net s (file_version_map net known) known)
