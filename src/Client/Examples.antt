-- ===== src/Client/Examples.antt =====
-- A client that is pushed a file of three bytes, and one that syncs.
use squid_storage.Prelude.{true, false, ◌≡◌, refl, [], ◌∷◌, arith}
use squid_storage.Prelude.Key.{Bytes, codes, bytes_key}
use squid_storage.Prelude.Int.{ℤ, pos}
use squid_storage.Prelude.Map.{Map, find}
use squid_storage.Protocol.Frame.{Fallible, returns, Message}
use squid_storage.Protocol.Format.{
  create_file_format, push_create_file_format, push_update_file_format, response_file_version_map,
}
use squid_storage.Protocol.Format.Deliver.{deliver}
use squid_storage.Transport.Channel.{Channel, arrived as comes, took, send_all}
use squid_storage.Transport.Channel.Stream.{stream}
use squid_storage.Transport.Order.{Connection, new_connection, send_built, send_frame}
use squid_storage.Transport.Frames.RoundTrip.{wire}
use squid_storage.Protocol.Frame.RoundTrip.{body}
use squid_storage.Protocol.Frame.{build_frame}
use squid_storage.Transport.Transfer.{size_bytes, send_chunks, send_file_data}
use squid_storage.Client.{Client, version_known, get_file_version, after_sync, handle_push}
use squid_storage.Client.Pushes.{pushed, handle_push-arrives}
use squid_storage.Client.Answers.{Accepts, two_answers, call_create_file-Accepts}
use squid_storage.Client.Calls.{call_create_file}
use squid_storage.Client.Sync.{or_known, after_sync-version_map}

abbrev cached : Client
cached = record {
  connection =
      new_connection
        (comes (0 ∷ 0 ∷ 0 ∷ 0 ∷ []) ∷ comes (0 ∷ 0 ∷ 0 ∷ 3 ∷ 7 ∷ []) ∷ comes (8 ∷ 9 ∷ 1 ∷ []) ∷ [])
        [];
  versions = (codes "a", pos 1) ∷ [];
  told = [];
}

handle_push-arrives_example :
    let arrives = λ (frame : Fallible Bytes).
      (m : Message) × (left : Channel) × (deliver frame 4 ≡ returns m)
      × (handle_push m cached ≡ pushed m (codes "a") (pos 2) (7 ∷ 8 ∷ 9 ∷ []) left cached)
      × (stream left ≡ 1 ∷ []) in
    arrives (push_create_file_format (codes "a") (pos 2))
    × arrives (push_update_file_format (codes "a") (pos 2))
unfolding send_file_data send_all size_bytes send_chunks
handle_push-arrives_example =
    handle_push-arrives b'a' [] (pos 2) (7 ∷ 8 ∷ 9 ∷ []) (1 ∷ []) (took 8 ∷ took 2 ∷ took 2 ∷ []) 4
      cached (omega arith) (omega arith) (omega arith) refl refl

abbrev remote : Map Bytes ℤ
remote = (codes "a", pos 2) ∷ (codes "b", pos 5) ∷ []

after_sync-version_map_example :
    (answer : Message) × (deliver (response_file_version_map remote) 7 ≡ returns answer)
    × (get_file_version (codes "b") (after_sync answer cached)
        ≡ version_known (or_known (find (codes "b") remote) (find (codes "b") cached.versions)))
after_sync-version_map_example =
    after_sync-version_map (codes "b") remote 7 cached (ground arith)
      (omega arith, omega arith, (omega arith, omega arith, tt)) (omega arith) (omega arith)

abbrev creating : Connection
creating =
    new_connection (comes (two_answers true false 0 []) ∷ []) (took 99 ∷ took 99 ∷ took 99 ∷ [])

call_create_file-Accepts_example :
    Accepts
      (call_create_file (codes "a") (pos 1) (7 ∷ 8 ∷ 9 ∷ []) creating)
      (send_built (create_file_format (codes "a") (pos 1)) creating)
      false
      (0 ∷ 0 ∷ 0 ∷ 0 ∷ 0 ∷ 0 ∷ 0 ∷ 3 ∷ 7 ∷ 8 ∷ 9 ∷ [])
unfolding send_file_data send_all size_bytes send_chunks send_frame wire body create_file_format
    build_frame
call_create_file-Accepts_example =
    call_create_file-Accepts true false (codes "a") (pos 1) (7 ∷ 8 ∷ 9 ∷ []) creating []
      (0 ∷ 0 ∷ 0 ∷ 0 ∷ 0 ∷ 0 ∷ 0 ∷ 3 ∷ 7 ∷ 8 ∷ 9 ∷ []) [] (omega arith) (omega arith, refl, refl)
      refl
