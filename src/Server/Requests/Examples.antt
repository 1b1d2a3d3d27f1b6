-- ===== src/Server/Requests/Examples.antt =====
-- Requests about a file in a cluster of two data nodes.
use squid_storage.Prelude.{◌+◌, ◌≡◌, refl, List, Bool, true, false, some, [], ◌∷◌, arith}
use squid_storage.Prelude.Key.{Bytes, codes, bytes_key}
use squid_storage.Prelude.Int.{pos, of_u32, to_u32}
use squid_storage.Prelude.Map.{Map, find}
use squid_storage.Protocol.Opcode.{
  Opcode, create_file, update_file, delete_file, acquire_lock, close,
}
use squid_storage.Protocol.Frame.{Message}
use squid_storage.Protocol.Message.{
  make_nack, make_ack, is_ack, is_response, get_bool, get_string, get_uint32, find_field,
  find_field_in,
}
use squid_storage.Protocol.Format.{path_field, version_field}
use squid_storage.Protocol.Format.Deliver.{arrived}
use squid_storage.Server.State.{Net, State, SessionPtr}
use squid_storage.Server.Replication.{asked, acked_by}
use squid_storage.Server.Requests.{acks, Client, handle_client_request}
use squid_storage.Server.Locks.{file_lock, lock_interval, ensure_entry, take_lock}
use squid_storage.Server.Locks as Locks
use squid_storage.Server.Locks.Exclusion.{Holds}
use squid_storage.Server.Requests.Exclusion.{
  Moment, requested, ticked, beat, node_joined, client_joined, live, handle_client_request_excludes,
}
use squid_storage.Server.Requests.Answers.{CreateAnswered, create_answered, delete_answered}

abbrev net_of : Bool → Net
net_of b = record {
  is_alive = λ s. true;
  answer = λ s c. elim b [ true ↦ make_ack | false ↦ make_nack ];
  bytes_read = λ s p. [];
}

abbrev nodes : Map Bytes SessionPtr
nodes = (codes "d1", some 1) ∷ (codes "d2", some 2) ∷ []

abbrev start : State
start = record {
  replication_factor = 2;
  data_nodes = nodes;
  clients = (codes "c1", some 4) ∷ [];
  locks = [];
  holders = (codes "b", nodes) ∷ [];
  versions = (codes "b", pos 3) ∷ [];
  version_file = [];
  holder_file = [];
  has_standby = false;
}

abbrev client : Client
client = record { name = codes "c1"; received = some (5 ∷ []); gets_file = true; on_disk = false }

abbrev request : Opcode → Message
request op = arrived op 0 0 (path_field (codes "b") ∷ version_field (pos 3) ∷ [])

create_answered_example :
    CreateAnswered
      (net_of true)
      client
      (codes "b")
      (pos 3)
      start
      (handle_client_request (net_of true) 7 client (request create_file) start)
unfolding get_string get_uint32 find_field find_field_in of_u32 to_u32
create_answered_example =
    create_answered (net_of true) 7 client (request create_file) start ((refl, tt), (tt, tt)) refl

delete_answered_example :
    handle_client_request (net_of false) 7 client (request delete_file) start
    ≡ (start, [], acks true ∷ [])
unfolding get_string find_field find_field_in find asked acked_by is_ack is_response get_bool
    make_nack
delete_answered_example =
    delete_answered (net_of false) 7 client (request delete_file) start refl (omega arith)
      (omega arith)

-- The file `b` can be locked.
abbrev lockable : State
lockable = record start { locks = (codes "b", file_lock (codes "b") 0) ∷ [] }

abbrev other : Client
other = record { name = codes "c2"; received = some (6 ∷ []); gets_file = true; on_disk = false }

-- The other client writes to the file, the locks are checked, a data node and a third client connect,
-- the data nodes are silent, and the third client leaves.
abbrev busy : List Moment
busy =
    requested (net_of true) 8 other (request update_file)
    ∷ ticked 500
    ∷ node_joined (net_of true) 600 (codes "d3") 9
    ∷ client_joined (net_of true) (codes "c3") 10
    ∷ beat (net_of false)
    ∷ requested (net_of true) 700 (record other { name = codes "c3" }) (request close)
    ∷ []

handle_client_request_excludes_example :
    let later =
      live busy (handle_client_request (net_of true) 7 client (request acquire_lock) lockable).0 in
    Holds (codes "b") (codes "c1") (7 + lock_interval) later
    × (handle_client_request (net_of true) 800 other (request acquire_lock) later
        ≡ (later, [], acks false ∷ []))
unfolding get_string find_field find_field_in find handle_client_request Locks.acquire_lock
    ensure_entry take_lock
handle_client_request_excludes_example =
    handle_client_request_excludes (net_of true) (net_of true) 7 800 client other
      (request acquire_lock) (request acquire_lock) busy lockable (tt, tt) refl refl
      (refl, (refl, (refl, (refl, (refl, (refl, tt)))))) refl refl
