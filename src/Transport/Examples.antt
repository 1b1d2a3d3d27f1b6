-- ===== src/Transport/Examples.antt =====
-- Short exchanges over a connection that cuts the bytes.
use squid_storage.Prelude.{ℕ, ◌≤◌, ◌<◌, ◌≡◌, refl, true, none, some, List, [], ◌∷◌, ◌++◌, arith}
use squid_storage.Prelude.Lists.{length, take, drop}
use squid_storage.Prelude.Key.{Bytes, codes}
use squid_storage.Protocol.Opcode.{file_path, read_file, opcode_of, field_of}
use squid_storage.Protocol.Frame.{Message, returns, parse_message, build_frame, stamp_seq}
use squid_storage.Protocol.Frame.RoundTrip.{body}
use squid_storage.Protocol.Message.{field_string}
use squid_storage.Transport.Channel.{
  arrived, broken, Channel, Written, took, recv_exact, recv_all, recv_loop, send_all,
}
use squid_storage.Transport.Channel.Stream.{stream, recv_exact-eq_take}
use squid_storage.Transport.Frames.{
  receive_frame, receive_field, receive_fields, receive_payload, after_header,
}
use squid_storage.Transport.Frames.RoundTrip.{wire}
use squid_storage.Transport.Frames.Parses.{receive_frame-parse_message}
use squid_storage.Transport.Order.{new_connection, send_frame, receive_and_parse, receive_many}
use squid_storage.Transport.Order.Packets.{Packet, IsValid, packet_wire, on_wire, Arrives}
use squid_storage.Transport.Order.Delivery.{messages_from, receive_many-on_wire}
use squid_storage.Transport.Order.Exchange.{send_packets, receive_many-send_packets}
use squid_storage.Transport.Order.Answers.{AllKeyed, receive_and_parse-answers}
use squid_storage.Transport.Transfer.{
  size_bytes, send_chunks, send_file_data, receive_file_data, receive_file,
}
use squid_storage.Transport.Transfer.RoundTrip.{receive_file-send_file_data}

-- Every frame is a request to read the same file.
abbrev packets : ℕ → Packet
packets k = record {
  opcode = read_file;
  flags = 0;
  fields = field_string file_path (codes "a/b") ∷ [];
  payload = [];
}

packets-IsValid : (k : ℕ) → IsValid (packets k)
unfolding opcode_of field_of
packets-IsValid k = record {
  is_opcode = refl;
  few = omega arith;
  are_fields = (refl, tt);
  fit = (omega arith, tt);
  small = omega arith;
}

-- The frames 1, 0 and 1 again, cut in the first header.
abbrev frames : Bytes
frames = packet_wire packets 1 ++ packet_wire packets 0 ++ packet_wire packets 1

cut_frames : Channel
unfolding wire
cut_frames = arrived (take 5 frames) ∷ arrived (drop 5 frames) ∷ broken ∷ []

first_two : (k : ℕ) → k < 2 → Arrives k (1 ∷ 0 ∷ 1 ∷ [])
first_two k h = ground (arith, h)

receive_many-on_wire_example :
    (receive_many 2 (new_connection cut_frames [])).0 ≡ messages_from packets 0 2
unfolding cut_frames on_wire wire body
receive_many-on_wire_example =
    receive_many-on_wire packets 2 (1 ∷ 0 ∷ 1 ∷ []) cut_frames [] packets-IsValid (omega arith)
      (omega arith, (omega arith, (omega arith, tt))) first_two refl

-- A network that takes 100 bytes in each call.
abbrev takes_all : List Written
takes_all = took 100 ∷ took 100 ∷ took 100 ∷ []

in_two_pieces : Channel
unfolding wire
in_two_pieces =
    arrived (take 20 (packet_wire packets 0 ++ packet_wire packets 1))
    ∷ arrived (drop 20 (packet_wire packets 0 ++ packet_wire packets 1))
    ∷ []

receive_many-send_packets_example :
    (receive_many 2 (new_connection in_two_pieces [])).0 ≡ messages_from packets 0 2
unfolding in_two_pieces send_packets body wire send_frame build_frame stamp_seq send_all
receive_many-send_packets_example =
    receive_many-send_packets packets 2 in_two_pieces [] takes_all [] packets-IsValid (λ k. refl)
      (omega arith) refl refl

-- The second frame comes first, and nothing after it.
receive_and_parse-answers_example :
    (m : Message) × ((receive_and_parse (new_connection (arrived (take 3 frames) ∷ []) [])).0
      ≡ some m)
    × AllKeyed
        ((receive_and_parse (new_connection (arrived (take 3 frames) ∷ []) [])).1).reorder_buffer
receive_and_parse-answers_example =
    receive_and_parse-answers (new_connection (arrived (take 3 frames) ∷ []) []) tt

received_one :
    receive_frame (arrived (packet_wire packets 4) ∷ []) ≡ (some (packet_wire packets 4), [])
unfolding receive_frame body wire after_header receive_fields receive_field receive_payload
    recv_exact recv_all recv_loop
received_one = refl

receive_frame-parse_message_example :
    (13 ≤ length (packet_wire packets 4))
    × (stream (arrived (packet_wire packets 4) ∷ []) ≡ packet_wire packets 4 ++ [])
    × ((msg : Message) × (parse_message (packet_wire packets 4) ≡ returns msg))
receive_frame-parse_message_example =
    receive_frame-parse_message (packet_wire packets 4) (arrived (packet_wire packets 4) ∷ []) []
      received_one

recv_exact-eq_take_example :
    (recv_exact 4 (arrived (1 ∷ 2 ∷ []) ∷ arrived (3 ∷ 4 ∷ 5 ∷ []) ∷ [])).0
    ≡ some (1 ∷ 2 ∷ 3 ∷ 4 ∷ [])
recv_exact-eq_take_example =
    recv_exact-eq_take 4 (arrived (1 ∷ 2 ∷ []) ∷ arrived (3 ∷ 4 ∷ 5 ∷ []) ∷ [])

-- A file of three bytes, of which the network takes two at a time.
abbrev slow : List Written
slow = took 8 ∷ took 2 ∷ took 2 ∷ []

abbrev file_on_wire : Channel
file_on_wire =
    arrived (0 ∷ 0 ∷ 0 ∷ 0 ∷ []) ∷ arrived (0 ∷ 0 ∷ 0 ∷ 3 ∷ 7 ∷ []) ∷ arrived (8 ∷ 9 ∷ 1 ∷ []) ∷ []

receive_file-send_file_data_example :
    ((left : Channel) × (receive_file_data [] file_on_wire ≡ (true, 7 ∷ 8 ∷ 9 ∷ [], left))
      × (stream left ≡ 1 ∷ []))
    × ((left : Channel) × (receive_file true none file_on_wire
          ≡ (true, some (7 ∷ 8 ∷ 9 ∷ []), left))
        × (stream left ≡ 1 ∷ []))
unfolding send_file_data send_all size_bytes send_chunks
receive_file-send_file_data_example =
    receive_file-send_file_data (7 ∷ 8 ∷ 9 ∷ []) [] (1 ∷ []) none slow file_on_wire refl refl
