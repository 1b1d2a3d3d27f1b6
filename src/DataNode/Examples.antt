-- ===== src/DataNode/Examples.antt =====
-- A data node that is sent a file of three bytes.
use squid_storage.Prelude.{◌≡◌, refl, true, List, [], ◌∷◌, ◌++◌, arith}
use squid_storage.Prelude.Key.{codes, bytes_key}
use squid_storage.Prelude.Int.{pos}
use squid_storage.Prelude.Map.{find}
use squid_storage.Protocol.Opcode.{create_file, update_file, read_file, delete_file}
use squid_storage.Protocol.Frame.{build_frame, build_fields, stamp_seq}
use squid_storage.Protocol.Format.{response_ack, response_ack_with_version}
use squid_storage.Transport.Channel.{
  Channel, arrived, Written, took, recv_loop, recv_all, recv_exact, send_all,
}
use squid_storage.Transport.Order.{new_connection, send_frame}
use squid_storage.Transport.Transfer.{
  size_bytes, send_chunks, send_file_data, read_size, receive_chunks, receive_body, receive_file,
}
use squid_storage.DataNode.{FileSystem, Node, respond, sent_from, receive_into, store, dispatch}
use squid_storage.DataNode.Deletes.{Deleted, dispatch-deletes}
use squid_storage.DataNode.Stores.{Stored, dispatch-stores, dispatch-create_read}

abbrev files : FileSystem
files = record { resolve_path = λ p. codes "root/" ++ p; can_open = λ p. true; get_files = λ m. [] }

abbrev incoming : Channel
incoming =
    arrived (0 ∷ 0 ∷ 0 ∷ 0 ∷ []) ∷ arrived (0 ∷ 0 ∷ 0 ∷ 3 ∷ 7 ∷ []) ∷ arrived (8 ∷ 9 ∷ 1 ∷ []) ∷ []

abbrev slow : List Written
slow = took 8 ∷ took 2 ∷ took 2 ∷ []

-- A network that takes 100 bytes in each call.
abbrev quick : List Written
quick = took 100 ∷ took 100 ∷ took 100 ∷ took 100 ∷ took 100 ∷ []

abbrev node : Node
node = record {
  disk = (codes "root/a", 5 ∷ []) ∷ [];
  version_text = [];
  connection = new_connection incoming quick;
  node_type = codes "DATANODE";
  process_name = codes "d1";
  last_seen_epoch = 0;
}

dispatch-stores_example :
    Stored files
      (codes "b")
      (codes "a")
      (7 ∷ 8 ∷ 9 ∷ [])
      (pos 2)
      (1 ∷ [])
      node
      (dispatch files create_file (codes "a") (pos 2) node)
    × Stored files
        (codes "b")
        (codes "a")
        (7 ∷ 8 ∷ 9 ∷ [])
        (pos 2)
        (1 ∷ [])
        node
        (dispatch files update_file (codes "a") (pos 2) node)
unfolding send_file_data send_all size_bytes send_chunks
dispatch-stores_example =
    dispatch-stores files (codes "b") (codes "a") (7 ∷ 8 ∷ 9 ∷ []) (1 ∷ []) (pos 2) slow node
      (refl, tt) (omega arith) refl refl refl

dispatch-create_read_example :
    dispatch files read_file
      (codes "a")
      (pos 0)
      (dispatch files create_file (codes "a") (pos 2) node)
    ≡ (let told =
          respond (response_ack true) (dispatch files create_file (codes "a") (pos 2) node) in
        respond
          (response_ack_with_version true (pos 2))
          (sent_from told (send_file_data (7 ∷ 8 ∷ 9 ∷ []) told.connection.outbound)).1)
unfolding send_file_data send_all size_bytes send_chunks dispatch store respond receive_into
    send_frame build_frame build_fields stamp_seq response_ack receive_file recv_exact recv_all
    recv_loop read_size receive_body receive_chunks
dispatch-create_read_example =
    dispatch-create_read files (codes "a") (7 ∷ 8 ∷ 9 ∷ []) (1 ∷ []) (pos 0) (pos 2) slow node
      (refl, tt) (omega arith) refl refl refl refl

dispatch-deletes_example :
    Deleted files (codes "b") (codes "a") node (dispatch files delete_file (codes "a") (pos 0) node)
unfolding find
dispatch-deletes_example = dispatch-deletes files (codes "b") (codes "a") (5 ∷ []) (pos 0) node refl
