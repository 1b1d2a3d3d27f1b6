-- ===== src/Client/Answers.antt =====
-- A call that sends a file answers with an ACK exactly if both answers of the peer are one.
use squid_storage.Prelude.{
  ◌≤◌, ℕ, ◌^◌, ◌<◌, ◌≡◌, refl, ◌∙◌, sym, ap, Bool, true, false, ◌&&◌, if◌then◌else◌, some, List, [],
  ◌∷◌, ◌++◌, append-nil, arith,
}
use squid_storage.Prelude.Lists.{length}
use squid_storage.Prelude.Key.{Bytes, nat_key}
use squid_storage.Prelude.Int.{ℤ}
use squid_storage.Prelude.Map.{find}
use squid_storage.Protocol.Opcode.{create_file, update_file, response, ack, opcode_of, field_of}
use squid_storage.Protocol.Frame.{Fallible, returns, throws, Message, flag_response}
use squid_storage.Protocol.Frame.Truncated.{build_frame-returns_iff}
use squid_storage.Protocol.Message.{
  field_bool, is_ack, is_response, get_bool, find_field, find_field_in,
}
use squid_storage.Protocol.Format.{create_file_format, update_file_format}
use squid_storage.Transport.Channel.{Channel, Written}
use squid_storage.Transport.Channel.Stream.{stream}
use squid_storage.Transport.Order.{
  Connection, next_seq, send_frame, send_built, continue_with, receive_rounds, receive_and_parse,
}
use squid_storage.Transport.Order.Packets.{Packet, IsValid, packet_wire, packet_message}
use squid_storage.Transport.Order.Rounds.{delivered, in_order_now, round_read}
use squid_storage.Transport.Transfer.{send_file_data}
use squid_storage.Client.Calls.{
  Answered, ask, if_ack, after_sending, send_after_ack, call_create_file, call_update_file,
}

-- The peer's answer, whatever its number.
abbrev pub answers : Bool → ℕ → Packet
answers b k = record {
  opcode = response;
  flags = flag_response;
  fields = field_bool ack b ∷ [];
  payload = [];
}

answers-IsValid : (b : Bool) (k : ℕ) → IsValid (answers b k)
unfolding opcode_of field_of
answers-IsValid b k = record {
  is_opcode = refl;
  few = omega arith;
  are_fields = (refl, tt);
  fit = (omega arith, tt);
  small = omega arith;
}

is_ack-answers : (b : Bool) (k : ℕ) → is_ack (packet_message (answers b) k) ≡ b
unfolding is_ack is_response get_bool find_field find_field_in
is_ack-answers true k = refl
is_ack-answers false k = refl

-- A connection that keeps no frame back, and what comes next on it.
abbrev pub Waits : Connection → Bytes → Type 0
Waits c s = (c.expected_recv_seq < 2 ^ 32) × (c.reorder_buffer ≡ []) × (stream c.inbound ≡ s)

receive_next :
    (b : Bool) (c : Connection) (rest : Bytes)
    → Waits c (packet_wire (answers b) c.expected_recv_seq ++ rest)
    → (left : Channel) × (receive_and_parse c ≡ (
      some (packet_message (answers b) c.expected_recv_seq),
      delivered c.expected_recv_seq (record c { inbound = left }),
    ))
      × (stream left ≡ rest)
unfolding receive_and_parse receive_rounds find
receive_next b c rest (small, empty, e) =
    let k = c.expected_recv_seq in
    let valid = answers-IsValid b in
    let (left, run, stays) = round_read (answers b) valid k c rest small (ap (find k) empty) e in
    (
      left,
      ap (λ r. continue_with r (receive_rounds (length (stream c.inbound))))
          (run ∙ in_order_now (answers b) valid k (record c { inbound = left }) refl),
      stays,
    )

-- What the peer answers to the request and to the bytes, the second only after the first.
abbrev pub two_answers : Bool → Bool → ℕ → Bytes → Bytes
two_answers b1 b2 k rest =
    packet_wire (answers b1) k ++ (packet_wire (answers b2) (next_seq k) ++ rest)

-- The message of a call, and the bytes it has sent after those of the request.
abbrev pub Accepts : Answered → Connection → Bool → Bytes → Type 0
Accepts r c b bytes =
    (m : Message) × (d : Connection) × (r ≡ (some m, d))
    × (is_ack m ≡ b)
    × (d.sent ≡ c.sent ++ bytes)

sends-Accepts :
    (b1 b2 : Bool) (contents : Bytes) (c : Connection) (rest bytes : Bytes) (later : List Written)
    → Waits c (two_answers b1 b2 c.expected_recv_seq rest)
    → send_file_data contents c.outbound ≡ (bytes, true, later)
    → Accepts
        (if_ack (receive_and_parse c) (send_after_ack contents))
        c
        (b1 && b2)
        (if b1 then bytes else [])
unfolding send_after_ack
sends-Accepts false b2 contents c rest bytes later w sends =
    let k = c.expected_recv_seq in
    let (left, run, stays) =
      receive_next false c (packet_wire (answers b2) (next_seq k) ++ rest) w in
    let is = is_ack-answers false k in
    (
      packet_message (answers false) k,
      delivered k (record c { inbound = left }),
      ap (λ r. if_ack r (send_after_ack contents)) run
          ∙ ap
              (λ b.
                if b then send_after_ack contents (delivered k (record c { inbound = left })) else (
                  some (packet_message (answers false) k),
                  delivered k (record c { inbound = left }),
                ))
              is,
      is,
      sym (append-nil c.sent),
    )
sends-Accepts true b2 contents c rest bytes later (small, empty, e) sends =
    let k = c.expected_recv_seq in
    let (left, run, stays) =
      receive_next true c (packet_wire (answers b2) (next_seq k) ++ rest) (small, empty, e) in
    let d = record (delivered k (record c { inbound = left })) {
      sent = c.sent ++ bytes;
      outbound = later;
    } in
    let (left2, run2, stays2) = receive_next b2 d rest (omega arith, empty, stays) in
    (
      packet_message (answers b2) (next_seq k),
      delivered (next_seq k) (record d { inbound = left2 }),
      ap (λ r. if_ack r (send_after_ack contents)) run
          ∙ ap
              (λ b.
                if b then send_after_ack contents (delivered k (record c { inbound = left })) else (
                  some (packet_message (answers true) k),
                  delivered k (record c { inbound = left }),
                ))
              (is_ack-answers true k)
          ∙ ap (after_sending (delivered k (record c { inbound = left }))) sends
          ∙ run2,
      is_ack-answers b2 (next_seq k),
      refl,
    )

ask-Accepts :
    (b1 b2 : Bool) (built : Fallible Bytes) (contents : Bytes) (c : Connection) (rest bytes : Bytes)
    (later : List Written)
    → ((frame : Bytes) × (built ≡ returns frame))
    → Waits c (two_answers b1 b2 c.expected_recv_seq rest)
    → send_file_data contents (send_built built c).outbound ≡ (bytes, true, later)
    → Accepts
        (if_ack (ask built c) (send_after_ack contents))
        (send_built built c)
        (b1 && b2)
        (if b1 then bytes else [])
unfolding ask send_frame
ask-Accepts b1 b2 (returns f) contents c rest bytes later is =
    sends-Accepts b1 b2 contents (send_built (returns f) c) rest bytes later
ask-Accepts b1 b2 (throws e) contents c rest bytes later is = absurd (cc (is.1))

-- The requests can be built for a path that is not too long.
formats-return :
    (path : Bytes) (v : ℤ)
    → length path ≤ 65535
    → ((frame : Bytes) × (create_file_format path v ≡ returns frame))
      × ((frame : Bytes) × (update_file_format path v ≡ returns frame))
unfolding create_file_format update_file_format
formats-return path v h = (
  (build_frame-returns_iff create_file 0 0 _).1 (omega arith, (h, (omega arith, tt))),
  (build_frame-returns_iff update_file 0 0 _).1 (omega arith, (h, (omega arith, tt))),
)

-- A connection keeps no frame back, its next number fits in 32 bits, and the path has at most 65535
-- bytes. The next two answers of the peer are `b1` to the request and `b2` to the bytes, and the
-- socket takes all the bytes of the file. `createFile` then answers with an ACK exactly if both are
-- one, and what it sends after the request is the size and the bytes of the file if the first is
-- one, and nothing otherwise.
pub call_create_file-Accepts :
    (b1 b2 : Bool) (path : Bytes) (v : ℤ) (contents : Bytes) (c : Connection) (rest bytes : Bytes)
    (later : List Written)
    → length path ≤ 65535
    → Waits c (two_answers b1 b2 c.expected_recv_seq rest)
    → send_file_data contents (send_built (create_file_format path v) c).outbound
      ≡ (bytes, true, later)
    → Accepts
        (call_create_file path v contents c)
        (send_built (create_file_format path v) c)
        (b1 && b2)
        (if b1 then bytes else [])
unfolding call_create_file
call_create_file-Accepts b1 b2 path v contents c rest bytes later h =
    ask-Accepts b1 b2 (create_file_format path v) contents c rest bytes later
      (formats-return path v h).0

-- So does `updateFile`.
call_update_file-Accepts :
    (b1 b2 : Bool) (path : Bytes) (v : ℤ) (contents : Bytes) (c : Connection) (rest bytes : Bytes)
    (later : List Written)
    → length path ≤ 65535
    → Waits c (two_answers b1 b2 c.expected_recv_seq rest)
    → send_file_data contents (send_built (update_file_format path v) c).outbound
      ≡ (bytes, true, later)
    → Accepts
        (call_update_file path v contents c)
        (send_built (update_file_format path v) c)
        (b1 && b2)
        (if b1 then bytes else [])
unfolding call_update_file
call_update_file-Accepts b1 b2 path v contents c rest bytes later h =
    ask-Accepts b1 b2 (update_file_format path v) contents c rest bytes later
      (formats-return path v h).1
