-- ===== src/Server/Replication/Rebalance/Locks.antt =====
-- Registering the files of a data node and forgetting data nodes leave the lock map alone.
use squid_storage.Prelude.{◌≡◌, refl, ◌∙◌, Bool-cases, inl, inr, none, some, List, [], ◌∷◌}
use squid_storage.Prelude.Key.{Bytes, bytes_key}
use squid_storage.Prelude.Int.{ℤ, pos, ltz}
use squid_storage.Prelude.Map.{Map, find}
use squid_storage.Protocol.Message.{is_ack}
use squid_storage.Server.State.{SessionPtr, read_file, Net, State}
use squid_storage.Server.Replication.{
  hold, persist_state, register_one, register_files, register_data_node_files,
}
use squid_storage.Server.Replication.Rebalance.{
  store_holders, copy_file, rebalance, rebalance_all, forget_node, forget_nodes, send_heartbeats,
}

register_one_locks :
    (name : Bytes) (s : SessionPtr) (path : Bytes) (v : ℤ) (st : State)
    → (register_one name s path v st).locks ≡ st.locks
unfolding register_one
register_one_locks name s path v st =
    let best : ℤ = elim (find path (hold path name s st).versions) [ none ↦ pos 0 | some w ↦ w ] in
    elim (Bool-cases (ltz best v)) [ inl higher ↦ rw higher refl | inr known ↦ rw known refl ]

register_files_locks :
    (name : Bytes) (s : SessionPtr) (m : Map Bytes ℤ) (st : State)
    → (register_files name s m st).locks ≡ st.locks
unfolding register_files
register_files_locks name s [] st = refl
register_files_locks name s ((path, v) ∷ m) st =
    register_files_locks name s m (register_one name s path v st)
    ∙ register_one_locks name s path v st

pub register_data_node_files_locks :
    (name : Bytes) (s : SessionPtr) (m : Map Bytes ℤ) (st : State)
    → (register_data_node_files name s m st).locks ≡ st.locks
unfolding register_data_node_files persist_state
register_data_node_files_locks name s m st = register_files_locks name s m st

store_holders_locks :
    (path : Bytes) (m : Map Bytes SessionPtr) (st : State)
    → (store_holders path m st).locks ≡ st.locks
unfolding store_holders
store_holders_locks path [] st = refl
store_holders_locks path ((name, s) ∷ m) st = store_holders_locks path m (hold path name s st)

rebalance_locks :
    (net : Net) (path : Bytes) (m : Map Bytes SessionPtr) (st : State)
    → (rebalance net path m st).locks ≡ st.locks
unfolding rebalance copy_file persist_state
rebalance_locks net path [] st = refl
rebalance_locks net path ((name, none) ∷ m) st = refl
rebalance_locks net path ((name, some s) ∷ m) st =
    elim (Bool-cases (is_ack (net.answer s (read_file path)))) [
      | inl acked ↦ rw acked (store_holders_locks path _ st)
      | inr refused ↦ rw refused refl
    ]

rebalance_all_locks :
    (net : Net) (targets : List (Bytes × Map Bytes SessionPtr)) (st : State)
    → (rebalance_all net targets st).locks ≡ st.locks
unfolding rebalance_all
rebalance_all_locks net [] st = refl
rebalance_all_locks net ((path, m) ∷ targets) st =
    rebalance_all_locks net targets (rebalance net path m st) ∙ rebalance_locks net path m st

forget_nodes_locks :
    (net : Net) (names : List Bytes) (st : State) → (forget_nodes net names st).locks ≡ st.locks
unfolding forget_nodes forget_node persist_state
forget_nodes_locks net [] st = refl
forget_nodes_locks net (name ∷ names) st =
    forget_nodes_locks net names (forget_node net name st) ∙ rebalance_all_locks net _ _

pub send_heartbeats_locks : (net : Net) (st : State) → (send_heartbeats net st).locks ≡ st.locks
unfolding send_heartbeats
send_heartbeats_locks net st = forget_nodes_locks net _ _
